-- ===== src/WsListener.antt =====
-- net/websockets/WsListener.hpp and .cpp, and net/NetworkManager.cpp, which owns the listener and
-- the server. Asio's answers are arguments; as documented there, a socket that a session has taken
-- over is not open, and a socket or an acceptor is closed by `close`, with or without an error.
pub mod Laws
pub mod Start
pub mod Finish
mod Tests
use boost_server_example.Base.{
  ℕ, zero, suc, ◌+◌, ◌-◌, Bool, true, false, not, ◌&&◌, ◌||◌, ltb, List, [], ◌∷◌, ◌++◌, Option,
  none, some, Bytes, length, if◌then◌else◌,
}
use mathlib.Core.Option
use boost_server_example.Base.Result.{Result, ok, ◌>>=◌}
use boost_server_example.SessionManager.{add_session}
use boost_server_example.WsCallbacks.{Dates}
use boost_server_example.WsServer.{
  WsServer, new_server, accept_client, add_new_session, handle_incoming_messages, run_threads,
  finish_threads, Thread,
}
use boost_server_example.Config.{ServerConfig}
use boost_server_example.WsSession.{new_session}

-- `accepts` counts the accepts under way.
pub record WsListener : Type 0 where
  pub acceptor_open : Bool
  pub listening : Bool
  pub socket_open : Bool
  pub need_close : Bool
  pub accepts : ℕ

-- The steps of `configureAcceptor` that succeed, if they are reached.
pub record Setup : Type 0 where
  pub opens : Bool
  pub sets_option : Bool
  pub binds : Bool
  pub listens : Bool

unfoldable pub configure_acceptor : Setup → WsListener → WsListener
configure_acceptor setup l =
    if not setup.opens
    then l
    else if not setup.sets_option
    then record l { acceptor_open = true }
    else if not setup.binds
    then record l { acceptor_open = true }
    else if not setup.listens
    then record l { acceptor_open = true }
    else record l { acceptor_open = true; listening = true }

-- The constructor.
unfoldable pub new_listener : Setup → WsListener
unfolding configure_acceptor
new_listener setup = configure_acceptor setup (record {
  acceptor_open = false;
  listening = false;
  socket_open = false;
  need_close = false;
  accepts = 0;
})

unfoldable pub is_accepting : WsListener → Bool
is_accepting l = l.acceptor_open

unfoldable pub do_accept : WsListener → WsListener
do_accept l = if l.need_close then l else record l { accepts = l.accepts + 1 }

unfoldable pub run : WsListener → WsListener
unfolding do_accept is_accepting
run l = if not (is_accepting l) || l.need_close then l else do_accept l

-- The function that `stop` posts.
unfoldable pub stop : WsListener → WsListener
stop l = record l {
  socket_open = false;
  acceptor_open = false;
  listening = false;
  need_close = true;
}

-- `addClientSession`; the session is the result, `none` for null.
unfoldable pub add_client_session :
    Bytes → Bytes → WsListener → WsServer → WsListener × WsServer × Option ℕ
unfolding add_new_session
add_client_session queue_name id l server = if l.need_close then (l, server, none) else (
  record l { socket_open = false },
  add_new_session queue_name id server,
  some (length server.store),
)

-- `failed` is the error code, `id` the new session's.
unfoldable pub on_accept :
    Bytes → Bytes → (ℕ → Bool) → ℕ → Bool → WsListener → WsServer → Result (WsListener × WsServer)
unfolding is_accepting do_accept accept_client
on_accept queue_name id is_open now failed l server =
    if not (is_accepting l) || not l.socket_open || l.need_close
    then ok (l, server)
    else if failed
    then ok (do_accept l, server)
    else (accept_client queue_name id is_open now server >>= λ after.
        ok (do_accept (record l { socket_open = false }), after))

-- The accept under way completes: one that succeeds opens the socket, and the handler runs.
unfoldable pub accept_completes :
    Bytes → Bytes → (ℕ → Bool) → ℕ → Bool → WsListener → WsServer → Result (WsListener × WsServer)
unfolding on_accept
accept_completes queue_name id is_open now failed l server =
    on_accept queue_name id is_open now failed
      (record l { accepts = l.accepts - 1; socket_open = if failed then l.socket_open else true })
      server

pub record NetworkManager : Type 0 where
  pub ws_server : WsServer
  pub ws_listener : WsListener

-- `runIocWsListener`; `acceptor` tells how the set-up goes at an address and a port. What
-- `make_shared` makes is never null.
unfoldable pub run_ioc_ws_listener : (Bytes → ℕ → Setup) → ServerConfig → WsListener
unfolding new_listener run
run_ioc_ws_listener acceptor config = run (new_listener (acceptor config.address config.ws_port))

-- `NetworkManager::run`
unfoldable pub run_network : (Bytes → ℕ → Setup) → ServerConfig → Result NetworkManager
unfolding new_server run_ioc_ws_listener run_threads
run_network acceptor config =
    let listener = run_ioc_ws_listener acceptor config in
    (run_threads config new_server >>= λ server.
    ok (record { ws_server = server; ws_listener = listener }))

-- The test of `NetworkManager::handleIncomingMessages` only logs.
unfoldable pub handle_network :
    {Time : Type 0} → Dates Time → ℕ → ℕ → (ℕ → Bool) → NetworkManager → Result NetworkManager
unfolding handle_incoming_messages
handle_network dates rounds fuel is_open nm =
    handle_incoming_messages dates rounds fuel is_open nm.ws_server >>= λ after.
    ok (record nm { ws_server = after })

abbrev any_joinable : List Thread → Bool
any_joinable [] = false
any_joinable (t ∷ ts) = t.joinable || any_joinable ts

-- Whether `ioc_.run()` has not returned yet on the threads: as Asio documents, it returns once there is
-- no work left, and does not come back. An accept under way is work; `busy` tells whether operations of
-- the sessions were, all the time.
abbrev pub is_running : Bool → NetworkManager → Bool
is_running busy nm = any_joinable nm.ws_server.ws_threads && (busy || ltb 0 nm.ws_listener.accepts)

-- `NetworkManager::finish`. What `stop` posts runs while `ioc_.run()` does, and never if it has
-- returned. The threads are joined: at once if it has, else when the work runs out; `none`: it never
-- does.
unfoldable pub finish : Bool → Bool → NetworkManager → Option NetworkManager
unfolding stop finish_threads
finish busy runs_out nm =
    Option.map
      (λ server. record {
        ws_server = server;
        ws_listener = if is_running busy nm then stop nm.ws_listener else nm.ws_listener;
      })
      (finish_threads (runs_out || not (is_running busy nm)) nm.ws_server)
