-- ===== src/WsListener/Finish.antt =====
-- What `finish` of net/NetworkManager.cpp leads to.
use boost_server_example.Base.{
  if◌then◌else◌, ◌≡◌, Bool, true, false, List, none, some, Bytes, length,
}
use boost_server_example.WsListener.{WsListener, NetworkManager, add_client_session, any_joinable}
use boost_server_example.WsServer.{WsServer, Thread, join_all}
use boost_server_example.WsListener.Laws.{Events}

-- A manager whose listener was stopped: what holds of it for ever, with the server `server`.
record Stopped (server : WsServer) (nm : NetworkManager) : Type 0 where
  shut : nm.ws_listener.acceptor_open ≡ false
  closing : nm.ws_listener.need_close ≡ true
  unchanged : nm.ws_server ≡ server

-- Threads that were joined: joining them again waits for none and changes nothing.
record Joined (threads joined : List Thread) : Type 0 where
  returns : join_all true threads ≡ some joined
  again : (runs_out : Bool) → join_all runs_out joined ≡ some joined
  ended : any_joinable joined ≡ false
  blocks : any_joinable threads ≡ true → join_all false threads ≡ none

module _ (queue_name : Bytes) (busy : Bool) (nm : NetworkManager) where
  -- The listener gives a client no session, and the server stays as it is, whatever happens.
  abbrev pub Closed : NetworkManager → Type 0
  Closed after =
      (later : NetworkManager)
      → Events queue_name after later
      → (later.ws_server ≡ after.ws_server)
        × ((id : Bytes)
            → (add_client_session queue_name id later.ws_listener later.ws_server).2 ≡ none)

  -- The listener is as it was, and still gives a client a session.
  abbrev pub StillOpen : NetworkManager → Type 0
  StillOpen after =
      (after.ws_listener ≡ nm.ws_listener)
      × ((id : Bytes)
          → (add_client_session queue_name id after.ws_listener after.ws_server).2
            ≡ (if nm.ws_listener.need_close then none else some (length nm.ws_server.store)))
