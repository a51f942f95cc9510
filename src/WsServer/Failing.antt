-- ===== src/WsServer/Failing.antt =====
-- Which sessions a handler takes off the registry of net/websockets/WsServer.cpp.
use boost_server_example.Base.{
  false, ◌||◌, not, ◌&&◌, Bool, true, ℕ, ◌≡◌, refl, ap, ◌∙◌, if◌then◌else◌, List, [], ◌∷◌, none,
  some, Bytes, get_elem?, arith,
}
use boost_server_example.Base.Result.{ok}
use boost_server_example.SessionManager.{same_id, Sessions, get_sess_by_id, remove_sess_by_id}
use boost_server_example.SessionManager.Laws.{
  Valid, same_id_refl, same_id-eq, remove_sess_by_id_lem,
}
use boost_server_example.WsServer.{WsServer, run_handler}
use boost_server_example.WsServer.Calls.{outward}
use boost_server_example.WsServer.Owned.{WellFormed}
use boost_server_example.WsServer.Registry.{unregistered, run_handler-WellFormed}
use boost_server_example.WsServer.System.{
  Handled, connects, resolved, connected, shaken, accepted, was_read, was_written, pinged, waited,
  controlled, runs, sends, cleared, Handled-id,
}
use boost_server_example.WsSession.{
  ErrorCode, success, operation_aborted, closed, expired, is_alive, WsSession, Step, Call,
  unregister_session, on_resolve, on_connect, on_handshake, on_accept, on_ping, on_timer, on_write,
  on_control_callback, send, run_as_client, connect_as_client,
}
use boost_server_example.WsSession.Incoming.{on_read}

-- Whether no other session is unregistered.
abbrev only_itself : Bytes → List Call → Bool
only_itself id [] = true
only_itself id (unregister_session j ∷ cs) = same_id j id && only_itself id cs
only_itself id (_ ∷ cs) = only_itself id cs

Handled-only_itself :
    {server : WsServer} {s : WsSession} {step : Step}
    → Handled server s step
    → only_itself s.id step.1 ≡ true
unfolding connect_as_client on_resolve on_connect on_handshake on_accept on_read on_write on_ping
    on_timer on_control_callback run_as_client send
Handled-only_itself (connects host port) = refl
Handled-only_itself {s = s} (resolved ec) = ground (arith, same_id_refl s.id)
Handled-only_itself {s = s} (connected ec) = ground (arith, same_id_refl s.id)
Handled-only_itself {s = s} (shaken ec) = ground (arith, same_id_refl s.id)
Handled-only_itself {s = s} (accepted ec) = ground (arith, same_id_refl s.id)
Handled-only_itself {s = s} (was_read is_open ec got fits) = ground (arith, same_id_refl s.id)
Handled-only_itself {s = s} (was_written is_open ec) = ground (arith, same_id_refl s.id)
Handled-only_itself {s = s} (pinged ec e) = ground (arith, same_id_refl s.id)
Handled-only_itself {s = s} (waited is_open now ec) = ground (arith, same_id_refl s.id)
Handled-only_itself (controlled now) = refl
Handled-only_itself {s = s} (runs is_open now) = ground (arith, same_id_refl s.id)
Handled-only_itself {s = s} (sends is_open text) = ground (arith, same_id_refl s.id)
Handled-only_itself cleared = refl

finds_left :
    (calls : List Call) (id other : Bytes) (m : Sessions ℕ)
    → Valid m
    → only_itself id calls ≡ true
    → get_sess_by_id (unregistered calls m) other
      ≡ (if not (outward calls) && same_id id other then none else get_sess_by_id m other)
finds_left [] id other m v h = refl
finds_left (unregister_session j ∷ cs) id other m v h =
    let (finds, valid, found, count) = remove_sess_by_id_lem m j v in
    let rest = finds_left cs id other (remove_sess_by_id m j).0 valid (ground arith) in
    let same : j ≡ id = same_id-eq j id (ground arith) in
    ground (arith, rest, finds other, ap (λ k. same_id k other) same)
finds_left (c ∷ cs) id other m v h = finds_left cs id other m v h

-- An error that is not that of an operation cut off.
abbrev is_failure : ErrorCode → Bool
is_failure success = false
is_failure operation_aborted = false
is_failure _ = true

-- The timer has run out while the socket is not open or a ping is not answered.
abbrev is_lost : Bool → ℕ → WsSession → Bool
is_lost is_open now s = expired now s.timer_expiry && not (is_open && is_alive s.ping_state)

-- Whether the session is given up: the step failed, or its peer is lost. A read that ends since the
-- connection was closed is not a failure.
abbrev pub gives_up :
    {server : WsServer} {s : WsSession} {step : Step} → Handled server s step → Bool
gives_up (resolved success) = false
gives_up (resolved _) = true
gives_up (connected success) = false
gives_up (connected _) = true
gives_up (shaken success) = false
gives_up (shaken _) = true
gives_up (accepted ec) = is_failure ec
gives_up (was_read is_open closed got fits) = false
gives_up (was_read is_open ec got fits) = is_failure ec
gives_up (was_written is_open ec) = is_failure ec
gives_up (pinged ec e) = is_failure ec
gives_up {s = s} (waited is_open now ec) = is_failure ec || is_lost is_open now s
gives_up {s = s} (runs is_open now) = is_lost is_open now s
gives_up _ = false

gives_up-outward :
    {server : WsServer} {s : WsSession} {step : Step} (h : Handled server s step)
    → not (outward step.1) ≡ gives_up h
unfolding connect_as_client on_resolve on_connect on_handshake on_accept on_read on_write on_ping
    on_timer on_control_callback run_as_client send
gives_up-outward (connects host port) = refl
gives_up-outward (resolved success) = refl
gives_up-outward (resolved _) = refl
gives_up-outward (connected success) = refl
gives_up-outward (connected _) = refl
gives_up-outward (shaken success) = refl
gives_up-outward (shaken _) = refl
gives_up-outward (accepted success) = refl
gives_up-outward (accepted operation_aborted) = refl
gives_up-outward (accepted _) = refl
gives_up-outward (was_read is_open success got fits) = ground arith
gives_up-outward (was_read is_open operation_aborted got fits) = refl
gives_up-outward (was_read is_open closed got fits) = refl
gives_up-outward (was_read is_open _ got fits) = refl
gives_up-outward (was_written is_open success) = ground arith
gives_up-outward (was_written is_open operation_aborted) = refl
gives_up-outward (was_written is_open _) = refl
gives_up-outward (pinged success e) = ground arith
gives_up-outward (pinged operation_aborted e) = ground arith
gives_up-outward (pinged _ e) = ground arith
gives_up-outward (waited is_open now success) = ground arith
gives_up-outward (waited is_open now operation_aborted) = ground arith
gives_up-outward (waited is_open now _) = refl
gives_up-outward (controlled now) = refl
gives_up-outward (runs is_open now) = ground arith
gives_up-outward (sends is_open text) = ground arith
gives_up-outward cleared = refl

-- Whatever handler of a session runs on a well-formed server, with whatever result, it returns, and
-- the registry stays true to the sessions. The session leaves the registry exactly if the handler
-- gives it up: on an error of resolving, connecting or the handshake of a client; on one other than an
-- abort of accepting, reading, writing, the ping or the timer, save that a connection was closed in a
-- read; and when the timer has run out, or has when it is started, while the socket is not open or a
-- ping is not answered. Every other id finds what it found.
pub handler_drops_itself :
    {server : WsServer} {s : WsSession} {step : Step} (p : ℕ)
    → WellFormed server
    → get_elem? server.store p ≡ some s
    → (h : Handled server s step)
    → (after : WsServer) × (run_handler (λ t. ok step) p server ≡ ok after)
      × WellFormed after
      × ((other : Bytes)
          → get_sess_by_id after.sessions other ≡ (
              if gives_up h && same_id s.id other
              then none
              else get_sess_by_id server.sessions other))
handler_drops_itself {server} {s} {step} p w e h =
    let (after, run, good, gone) =
      run_handler-WellFormed (λ t. ok step) p server s step w e refl (Handled-id h) in
    (
      after,
      run,
      good,
      λ other.
          ap (λ m. get_sess_by_id m other) gone
          ∙ finds_left step.1 s.id other server.sessions w.valid (Handled-only_itself h)
          ∙ ap (λ b. if b && same_id s.id other then none else get_sess_by_id server.sessions other)
              (gives_up-outward h),
    )
