-- ===== src/WsListener/Laws.antt =====
-- How net/websockets/WsListener.cpp goes on accepting, and when it ceases to.
use boost_server_example.Base.{
  ℕ, suc, ◌≡◌, refl, Bool, true, false, ◌||◌, if◌then◌else◌, List, [], ◌∷◌, some, Bytes, length,
  arith,
}
use boost_server_example.Base.Result.{Result, ok, ◌>>=◌}
use boost_server_example.SessionManager.{get_sess_by_id, same_id}
use boost_server_example.SessionManager.Same.{is_some}
use boost_server_example.WsListener.{
  WsListener, do_accept, is_accepting, stop, on_accept, accept_completes, NetworkManager,
}
use boost_server_example.WsServer.{WsServer}
use boost_server_example.WsServer.Owned.{WellFormed}
use boost_server_example.WsServer.Registry.{accept_client-WellFormed}

-- What can happen to a manager that runs.
pub data Event (queue_name : Bytes) : NetworkManager → NetworkManager → Type 0 where
  completes :
      (id : Bytes) (is_open : ℕ → Bool) (now : ℕ) (failed : Bool) {nm : NetworkManager}
      {l : WsListener} {server : WsServer} (k : ℕ)
      → nm.ws_listener.accepts ≡ suc k
      → accept_completes queue_name id is_open now failed nm.ws_listener nm.ws_server
        ≡ ok (l, server)
      → Event queue_name nm (record { ws_server = server; ws_listener = l })
  stops :
      {nm : NetworkManager} → Event queue_name nm (record nm { ws_listener = stop nm.ws_listener })

-- The listener is open and accepts.
pub record Serves (nm : NetworkManager) : Type 0 where
  pub well_formed : WellFormed nm.ws_server
  pub opened : nm.ws_listener.acceptor_open ≡ true
  pub going_on : nm.ws_listener.need_close ≡ false
  pub free : nm.ws_listener.socket_open ≡ false
  pub one : nm.ws_listener.accepts ≡ 1

-- An accept that succeeds.
accept_completes-Serves :
    (queue_name id : Bytes) (is_open : ℕ → Bool) (now : ℕ) (nm : NetworkManager)
    → Serves nm
    → (after : NetworkManager) × (accept_completes queue_name id is_open now false nm.ws_listener
          nm.ws_server
        ≡ ok (after.ws_listener, after.ws_server))
      × Serves after
      × ((other : Bytes)
          → get_sess_by_id after.ws_server.sessions other ≡ (
              if same_id id other
              then some (length nm.ws_server.store)
              else get_sess_by_id nm.ws_server.sessions other))
unfolding accept_completes on_accept do_accept is_accepting
accept_completes-Serves queue_name id is_open now nm v =
    let (server, made, good, finds) =
      accept_client-WellFormed queue_name id is_open now nm.ws_server v.well_formed in
    let l : WsListener = record nm.ws_listener { socket_open = false } in
    (
      record { ws_server = server; ws_listener = l },
      rw (v.opened, v.going_on, made, v.one) refl,
      record {
        well_formed = good;
        opened = v.opened;
        going_on = v.going_on;
        free = refl;
        one = v.one;
      },
      finds,
    )

abbrev pub is_found : NetworkManager → Bytes → Bool
is_found nm id = is_some (get_sess_by_id nm.ws_server.sessions id)

-- Whether a client among those that are accepted, each with the time, gets the id.
abbrev pub is_client : Bytes → List (Bytes × ℕ) → Bool
is_client id [] = false
is_client id ((k, now) ∷ clients) = same_id k id || is_client id clients

module _ (queue_name : Bytes) (is_open : ℕ → Bool) where
  -- Accepts that succeed, one after another.
  unfoldable pub accept_all : List (Bytes × ℕ) → NetworkManager → Result NetworkManager
  accept_all [] nm = ok nm
  accept_all ((id, now) ∷ clients) nm = do
    made ← accept_completes queue_name id is_open now false nm.ws_listener nm.ws_server
    accept_all clients (record { ws_listener = made.0; ws_server = made.1 })

  -- A listener that accepts, with one accept under way, takes any number of clients that connect, one
  -- after another: every accept returns and leaves the next one under way, the registry stays true
  -- to the sessions, and the ids that find a session then are those that did and those of the
  -- clients.
  pub accept_all-Serves :
      (clients : List (Bytes × ℕ)) (nm : NetworkManager)
      → Serves nm
      → (after : NetworkManager) × (accept_all clients nm ≡ ok after)
        × Serves after
        × ((id : Bytes) → is_found after id ≡ (is_client id clients || is_found nm id))
  unfolding accept_all
  accept_all-Serves [] nm v = (nm, refl, v, λ id. refl)
  accept_all-Serves ((k, now) ∷ clients) nm v =
      let (mid, made, v', finds) = accept_completes-Serves queue_name k is_open now nm v in
      let (after, rest, w, found) = accept_all-Serves clients mid v' in
      (after, rw made rest, w, λ id. ground (arith, found id, finds id))

-- Events one after another.
pub data Events (queue_name : Bytes) (nm : NetworkManager) : NetworkManager → Type 0 where
  here : Events queue_name nm nm
  next :
      {mid after : NetworkManager}
      → Events queue_name nm mid
      → Event queue_name mid after
      → Events queue_name nm after

-- Whether a manager without an accept under way keeps the server `server`.
record Deaf (server : WsServer) (nm : NetworkManager) : Type 0 where
  quiet : nm.ws_listener.accepts ≡ 0
  kept : nm.ws_server ≡ server

Event-Deaf :
    {queue_name : Bytes} {server : WsServer} {nm after : NetworkManager}
    → Event queue_name nm after
    → Deaf server nm
    → Deaf server after
unfolding stop
Event-Deaf (completes id is_open now failed k e c) d = absurd (omega (arith, e, d.quiet))
Event-Deaf stops d = record { quiet = d.quiet; kept = d.kept }

Events-Deaf :
    {queue_name : Bytes} {server : WsServer} {nm after : NetworkManager}
    → Events queue_name nm after
    → Deaf server nm
    → Deaf server after
Events-Deaf here d = d
Events-Deaf (next r m) d = Event-Deaf m (Events-Deaf r d)

failed_accept :
    (queue_name id : Bytes) (is_open : ℕ → Bool) (now : ℕ) (nm : NetworkManager)
    → Serves nm
    → accept_completes queue_name id is_open now true nm.ws_listener nm.ws_server
      ≡ ok (record nm.ws_listener { accepts = 0 }, nm.ws_server)
unfolding accept_completes on_accept is_accepting
failed_accept queue_name id is_open now nm v = rw (v.opened, v.going_on, v.free, v.one) refl

-- An accept that fails is the last: the socket is not open then, so the handler returns before it
-- starts another, and whatever happens later, no accept is under way and no session is made.
pub failed_accept_lem :
    (queue_name id : Bytes) (is_open : ℕ → Bool) (now : ℕ) (nm : NetworkManager)
    → Serves nm
    → (next : NetworkManager) × (accept_completes queue_name id is_open now true nm.ws_listener
          nm.ws_server
        ≡ ok (next.ws_listener, next.ws_server))
      × ((later : NetworkManager)
          → Events queue_name next later
          → (later.ws_listener.accepts ≡ 0) × (later.ws_server ≡ nm.ws_server))
failed_accept_lem queue_name id is_open now nm v = (
  record { ws_server = nm.ws_server; ws_listener = record nm.ws_listener { accepts = 0 } },
  failed_accept queue_name id is_open now nm v,
  λ later r. let d = Events-Deaf r (record { quiet = refl; kept = refl }) in (d.quiet, d.kept),
)
