-- ===== src/WsServer/System.antt =====
-- All that can happen to the server of net/websockets/WsServer.cpp, in any order: the handlers of
-- its sessions, the accepts of the listener and the calls of the main loop.
use boost_server_example.Base.{
  ℕ, ◌≡◌, refl, sym, subst, ap, ◌∙◌, Bool, true, List, [], ◌∷◌, Option, none, some, Bytes,
  get_elem?, arith,
}
use boost_server_example.Base.Result.{
  Result, Fault, ok, >>=-eq-ok, ok-injective, or_fault, bad_index,
}
use boost_server_example.SessionManager.{Sessions, do_to_all_sessions, get_sess_by_id}
use boost_server_example.WsCallbacks.{Dates, dispatch_session}
use boost_server_example.WsServer.Sending.{send-id, dispatch_session-id}
use boost_server_example.WsServer.{
  WsServer, Thread, new_server, unregister, run_handler, run_all, send_to_all, send_to,
  send_to_found, handle_incoming_messages, accept_client, add_new_session,
}
use boost_server_example.WsServer.Owned.{WellFormed}
use boost_server_example.WsServer.Registry.{
  run_handler-WellFormed, accept_client-WellFormed, unregister-WellFormed,
  add_new_session-WellFormed,
}
use boost_server_example.WsSession.{
  WsSession, Step, ErrorCode, on_resolve, on_connect, on_handshake, on_accept, on_ping, on_timer,
  on_write, on_control_callback, send, run_as_client, connect_as_client,
}
use boost_server_example.WsSession.Incoming.{on_read, clear_received_messages}
use boost_server_example.WsSession.Conn.{may_read, take_read}

-- A handler of the session, for whatever reason it runs, and what it does.
pub data Handled (server : WsServer) (s : WsSession) : Step → Type 0 where
  connects : (host port : Bytes) → Handled server s (connect_as_client host port s)
  resolved : (ec : ErrorCode) → Handled server s (on_resolve ec s)
  connected : (ec : ErrorCode) → Handled server s (on_connect ec s)
  shaken : (ec : ErrorCode) → Handled server s (on_handshake ec s)
  accepted : (ec : ErrorCode) → Handled server s (on_accept ec s)
  was_read :
      (is_open : Bool) (ec : ErrorCode) (got : Bytes)
      → may_read ec s got ≡ true
      → Handled server s (on_read is_open server.operation_callbacks ec (take_read s got))
  was_written : (is_open : Bool) (ec : ErrorCode) → Handled server s (on_write is_open ec s)
  pinged : (ec : ErrorCode) {step : Step} → on_ping ec s ≡ ok step → Handled server s step
  waited :
      (is_open : Bool) (now : ℕ) (ec : ErrorCode) → Handled server s (on_timer is_open now ec s)
  controlled : (now : ℕ) → Handled server s (on_control_callback now s)
  runs : (is_open : Bool) (now : ℕ) → Handled server s (run_as_client is_open now s)
  sends : (is_open : Bool) (text : Bytes) → Handled server s (send is_open s text)
  cleared : Handled server s (clear_received_messages s, [])

pub Handled-id :
    {server : WsServer} {s : WsSession} {step : Step} → Handled server s step → step.0.id ≡ s.id
unfolding connect_as_client on_resolve on_connect on_handshake on_accept on_read on_write on_ping
    on_timer on_control_callback run_as_client send clear_received_messages
Handled-id (connects host port) = refl
Handled-id (resolved ec) = ground arith
Handled-id (connected ec) = ground arith
Handled-id (shaken ec) = ground arith
Handled-id (accepted ec) = ground arith
Handled-id (was_read is_open ec got fits) = ground arith
Handled-id (was_written is_open ec) = ground arith
Handled-id (pinged ec e) = ground arith
Handled-id (waited is_open now ec) = ground arith
Handled-id (controlled now) = refl
Handled-id (runs is_open now) = ground arith
Handled-id (sends is_open text) = ground arith
Handled-id cleared = refl

or_fault-eq-ok :
    {A : Type 0} (o : Option A) (fault : Fault) {a : A} → or_fault o fault ≡ ok a → o ≡ some a
or_fault-eq-ok none fault e = cc
or_fault-eq-ok (some b) fault e = ap some (ok-injective e)

module _ (handler : ℕ → WsSession → Result Step)
    (keeps : (p : ℕ) (s : WsSession) (step : Step) → handler p s ≡ ok step → step.0.id ≡ s.id) where
  ran-WellFormed :
      (p : ℕ) (server after : WsServer)
      → run_handler (handler p) p server ≡ ok after
      → WellFormed server
      → WellFormed after
  unfolding run_handler
  ran-WellFormed p server after e w =
      let (s, e1, f1) = >>=-eq-ok (or_fault (get_elem? server.store p) bad_index) _ e in
      let (step, e2, f2) = >>=-eq-ok (handler p s) _ f1 in
      let (next, run, good, gone) =
        run_handler-WellFormed (handler p) p server s step w
          (or_fault-eq-ok (get_elem? server.store p) bad_index e1) e2 (keeps p s step e2) in
      subst WellFormed (ok-injective (sym run ∙ e)) good

  run_all-WellFormed :
      (m : Sessions ℕ) (server after : WsServer)
      → run_all handler m server ≡ ok after
      → WellFormed server
      → WellFormed after
  unfolding run_all do_to_all_sessions
  run_all-WellFormed [] server after e w = subst WellFormed (ok-injective e) w
  run_all-WellFormed ((k, none) ∷ rest) server after e w = run_all-WellFormed rest server after e w
  run_all-WellFormed ((k, some p) ∷ rest) server after e w =
      let (mid, e1, f1) = >>=-eq-ok (run_handler (handler p) p server) _ e in
      run_all-WellFormed rest mid after f1 (ran-WellFormed p server mid e1 w)

send_to-WellFormed :
    (is_open : ℕ → Bool) (message : Bytes) (found : Option ℕ) (server after : WsServer)
    → send_to_found is_open message found server ≡ ok after
    → WellFormed server
    → WellFormed after
unfolding send_to_found
send_to-WellFormed is_open message none server after e w = subst WellFormed (ok-injective e) w
send_to-WellFormed is_open message (some p) server after e w =
    ran-WellFormed (λ q s. ok (send (is_open q) s message))
      (λ q s step f. rw (← ok-injective f) (send-id (is_open q) s message)) p server after e w

module _ {Time : Type 0} (dates : Dates Time) where
  pub data Move (server : WsServer) : WsServer → Type 0 where
    handles :
        (p : ℕ) (s : WsSession) (step : Step) {after : WsServer}
        → get_elem? server.store p ≡ some s
        → Handled server s step
        → run_handler (λ t. ok step) p server ≡ ok after
        → Move server after
    accepts :
        (queue_name id : Bytes) (is_open : ℕ → Bool) (now : ℕ) {after : WsServer}
        → accept_client queue_name id is_open now server ≡ ok after
        → Move server after
    adds_client : (queue_name id : Bytes) → Move server (add_new_session queue_name id server)
    sends_to_all :
        (is_open : ℕ → Bool) (message : Bytes) {after : WsServer}
        → send_to_all is_open message server ≡ ok after
        → Move server after
    sends_to :
        (is_open : ℕ → Bool) (id message : Bytes) {after : WsServer}
        → send_to is_open id message server ≡ ok after
        → Move server after
    handles_messages :
        (rounds fuel : ℕ) (is_open : ℕ → Bool) {after : WsServer}
        → handle_incoming_messages dates rounds fuel is_open server ≡ ok after
        → Move server after
    unregisters : (id : Bytes) → Move server (unregister id server)

  pub data Reach : WsServer → Type 0 where
    start : (threads : List Thread) → Reach (record new_server { ws_threads = threads })
    later : {server after : WsServer} → Reach server → Move server after → Reach after

  -- Several moves, one after another.
  pub data Moves (server : WsServer) : WsServer → Type 0 where
    none_made : Moves server server
    moved : {mid after : WsServer} → Moves server mid → Move mid after → Moves server after

  pub Reach-Moves : {server after : WsServer} → Reach server → Moves server after → Reach after
  Reach-Moves r none_made = r
  Reach-Moves r (moved ms m) = later (Reach-Moves r ms) m

  Move-WellFormed :
      {server after : WsServer} → Move server after → WellFormed server → WellFormed after
  unfolding send_to_all send_to send_to_found handle_incoming_messages
  Move-WellFormed {server} (handles p s step e h run) w =
      let (next, ran, good, gone) =
        run_handler-WellFormed (λ t. ok step) p server s step w e refl (Handled-id h) in
      subst WellFormed (ok-injective (sym ran ∙ run)) good
  Move-WellFormed {server} (accepts queue_name id is_open now run) w =
      let (next, ran, good, finds) = accept_client-WellFormed queue_name id is_open now server w in
      subst WellFormed (ok-injective (sym ran ∙ run)) good
  Move-WellFormed {server} (adds_client queue_name id) w =
      add_new_session-WellFormed queue_name id server w
  Move-WellFormed {server} {after} (sends_to_all is_open message run) w =
      run_all-WellFormed (λ p s. ok (send (is_open p) s message))
        (λ p s step e. rw (← ok-injective e) (send-id (is_open p) s message)) server.sessions server
        after run w
  Move-WellFormed {server} {after} (sends_to is_open id message run) w =
      send_to-WellFormed is_open message (get_sess_by_id server.sessions id) server after run w
  Move-WellFormed {server} {after} (handles_messages rounds fuel is_open run) w =
      run_all-WellFormed (λ p s. dispatch_session dates rounds fuel (is_open p) s)
        (λ p s step e. dispatch_session-id dates rounds fuel (is_open p) s step e) server.sessions
        server after run w
  Move-WellFormed {server} (unregisters id) w = unregister-WellFormed id server w

  -- However the accepts, the sessions added for a client, the handlers of the sessions, with whatever
  -- results, the main loop, the sends and the unregistrations follow on each other, the registry is
  -- true to the sessions: no two entries have one id, and each leads to a session that exists and
  -- has the id.
  pub Reach-WellFormed : {server : WsServer} → Reach server → WellFormed server
  unfolding new_server
  Reach-WellFormed (start threads) = record { valid = tt; owned = tt }
  Reach-WellFormed (later r m) = Move-WellFormed m (Reach-WellFormed r)
