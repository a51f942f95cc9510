-- ===== src/WsServer.antt =====
-- The class WSServer of net/websockets/WsServer.cpp: the sessions of all clients. A `shared_ptr` to
-- a session is its place in `store`, which the registry and the handlers under way share, so a
-- session that is no longer registered lives on. `is_open p` is `ws_.is_open()` of that session.
pub mod Owned
pub mod Each
pub mod Sending
pub mod AnyOrder
pub mod Calls
pub mod Registry
pub mod System
pub mod Failing
pub mod Blame
mod Tests
use boost_server_example.Base.{
  ℕ, Bool, true, false, replicate, if◌then◌else◌, List, [], ◌∷◌, ◌++◌, Option, none, some, Bytes,
  map, get_elem?, set?, length,
}
use mathlib.Core.Option
use boost_server_example.Base.Int.{pos, negsuc}
use boost_server_example.Base.Result.{Result, ok, err, ◌>>=◌, or_fault, bad_index, thrown}
use boost_server_example.Config.{ServerConfig}
use boost_server_example.Callbacks.{Callbacks}
use boost_server_example.SessionManager.{
  Sessions, get_sess_by_id, add_session, remove_sess_by_id, do_to_all_sessions,
}
use boost_server_example.WsCallbacks.{Dates, operation_callbacks, dispatch_session}
use boost_server_example.WsSession.{
  WsSession, Step, Call, Callback, unregister_session, new_session, run_as_server, send,
}

-- A `std::thread`, which runs `ioc_.run()`.
pub record Thread : Type 0 where
  pub joinable : Bool

pub record WsServer : Type 0 where
  pub sessions : Sessions ℕ
  pub operation_callbacks : Callbacks Callback
  pub store : List WsSession
  pub calls : List (ℕ × Call)
  pub ws_threads : List Thread

-- The constructor.
unfoldable pub new_server : WsServer
new_server = record {
  sessions = [];
  operation_callbacks = operation_callbacks;
  store = [];
  calls = [];
  ws_threads = [];
}

-- `runThreads`. A negative number of threads, as a `size_t`, is more than `reserve` accepts.
unfoldable pub run_threads : ServerConfig → WsServer → Result WsServer
run_threads config server = elim config.threads [
  | pos n ↦
      ok (record server {
        ws_threads = server.ws_threads ++ replicate n (record { joinable = true });
      })
  | negsuc n ↦ err thrown
]

-- Every thread that is joinable is joined, which waits until its `ioc_.run()` returns, as it does
-- once the operations under way run out; `none`: they never do.
unfoldable pub join_all : Bool → List Thread → Option (List Thread)
join_all runs_out [] = some []
join_all runs_out (t ∷ ts) =
    let rest = join_all runs_out ts in
    if t.joinable
    then (if runs_out then Option.map (◌∷◌ (record { joinable = false })) rest else none)
    else Option.map (◌∷◌ t) rest

unfoldable pub finish_threads : Bool → WsServer → Option WsServer
unfolding join_all
finish_threads runs_out server =
    Option.map (λ threads. record server { ws_threads = threads })
      (join_all runs_out server.ws_threads)

-- `unregisterSession`; the look-up before it only logs.
unfoldable pub unregister : Bytes → WsServer → WsServer
unfolding remove_sess_by_id
unregister id server = record server { sessions = (remove_sess_by_id server.sessions id).0 }

-- A call of a handler is carried out: those to Asio and Beast are kept in order, and that of
-- `unregisterSession` reaches the registry.
pub perform : ℕ → List Call → WsServer → WsServer
unfolding unregister
perform p [] server = server
perform p (unregister_session id ∷ rest) server = perform p rest (unregister id server)
perform p (call ∷ rest) server =
    perform p rest (record server { calls = server.calls ++ (p, call) ∷ [] })

-- A handler of the session `p` runs.
unfoldable pub run_handler : (WsSession → Result Step) → ℕ → WsServer → Result WsServer
unfolding perform
run_handler handler p server = do
  s ← or_fault (get_elem? server.store p) bad_index
  step ← handler s
  store ← or_fault (set? server.store p step.0) bad_index
  ok (perform p step.1 (record server { store = store }))

-- The loop of `doToAllSessions`, over a copy of the registry.
unfoldable pub run_all : (ℕ → WsSession → Result Step) → Sessions ℕ → WsServer → Result WsServer
unfolding run_handler do_to_all_sessions
run_all handler sessions server =
    do_to_all_sessions (λ id p. run_handler (handler p) p) sessions server

unfoldable pub send_to_all : (ℕ → Bool) → Bytes → WsServer → Result WsServer
unfolding run_all send
send_to_all is_open message server =
    run_all (λ p s. ok (send (is_open p) s message)) server.sessions server

send_to_found : (ℕ → Bool) → Bytes → Option ℕ → WsServer → Result WsServer
unfolding run_handler send
send_to_found is_open message none server = ok server
send_to_found is_open message (some p) server =
    run_handler (λ s. ok (send (is_open p) s message)) p server

unfoldable pub send_to : (ℕ → Bool) → Bytes → Bytes → WsServer → Result WsServer
unfolding send_to_found get_sess_by_id
send_to is_open id message server =
    send_to_found is_open message (get_sess_by_id server.sessions id) server

-- `handleIncomingMessages`: each session's queue is dispatched, with `rounds` for the callbacks and
-- `fuel` for the blocks of a text.
unfoldable pub handle_incoming_messages :
    {Time : Type 0} → Dates Time → ℕ → ℕ → (ℕ → Bool) → WsServer → Result WsServer
unfolding run_all dispatch_session
handle_incoming_messages dates rounds fuel is_open server =
    run_all (λ p s. dispatch_session dates rounds fuel (is_open p) s) server.sessions server

-- A session is made for `id`, whose place is the next one, and added: what `WsListener::on_accept` and
-- `addClientSession` do.
unfoldable pub add_new_session : Bytes → Bytes → WsServer → WsServer
unfolding add_session new_session
add_new_session queue_name id server = record server {
  store = server.store ++ new_session queue_name id ∷ [];
  sessions = (add_session server.sessions id (some (length server.store))).0;
}

-- `WsListener::on_accept` behind its tests, without the next accept: a session is made, added and
-- run.
unfoldable pub accept_client : Bytes → Bytes → (ℕ → Bool) → ℕ → WsServer → Result WsServer
unfolding run_handler add_new_session run_as_server
accept_client queue_name id is_open now server =
    let p = length server.store in
    run_handler (λ s. ok (run_as_server (is_open p) now s)) p (add_new_session queue_name id server)
