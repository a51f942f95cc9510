-- ===== src/WsServer/Sending.antt =====
-- What sending and dispatching do to each session of net/websockets/WsServer.cpp.
use boost_server_example.Base.{
  ◌==◌, none, List, ◌∷◌, ℕ, ◌≡◌, refl, ◌∙◌, Bool, true, [], ◌++◌, map, some, Bytes, get_elem?,
  if◌then◌else◌, arith,
}
use boost_server_example.Base.Result.{ok, >>=-eq-ok, ok-injective}
use boost_server_example.DispatchQueue.Keeps.{dispatch_queued-Kept}
use boost_server_example.SessionManager.{get_sess_by_id}
use boost_server_example.WsCallbacks.{
  Dates, dispatch_session, task_runner, run_callback, ping_message, csv_analize_message,
  csv_answer_message, payload, analize_rows, to_string,
}
use boost_server_example.Opcode.{csv_answer, opcode_to_str, c_str}
use boost_server_example.Csv.{new_csv, load_from_memory}
use boost_server_example.WsServer.{
  send_to_found, send_to, WsServer, send_to_all, handle_incoming_messages,
}
use boost_server_example.WsServer.Each.{each, calls_of}
use boost_server_example.WsServer.Calls.{outward, run_handler-acts}
use boost_server_example.WsServer.Owned.{Owned-get, registered, WellFormed}
use boost_server_example.WsSession.{
  WsSession, Step, Call, unregister_session, Task, Callback, ping_callback, csv_analize_callback,
  csv_answer_callback, send, send_shared,
}

pub send-id : (is_open : Bool) (s : WsSession) (text : Bytes) → (send is_open s text).0.id ≡ s.id
unfolding send
send-id is_open s text = ground arith

send-outward :
    (is_open : Bool) (s : WsSession) (text : Bytes) → outward (send is_open s text).1 ≡ true
unfolding send
send-outward is_open s text = ground arith

-- On a well-formed server `sendToAll` returns: every registered session has the message sent as
-- `send` does, and every other session is as it was. The calls made are those of `send` on the
-- registered sessions, one after another, and the registry stays.
pub send_to_all_lem :
    (is_open : ℕ → Bool) (message : Bytes) (server : WsServer)
    → WellFormed server
    → (after : WsServer) × (send_to_all is_open message server ≡ ok after)
      × (after.sessions ≡ server.sessions)
      × (after.calls
          ≡ server.calls
            ++ calls_of (λ p s. send (is_open p) s message) server.sessions server.store)
      × ((p : ℕ) (s : WsSession)
          → get_elem? server.store p ≡ some s
          → get_elem? after.store p
            ≡ some
                (if registered server.sessions s.id p then (send (is_open p) s message).0 else s))
unfolding send_to_all
send_to_all_lem is_open message server w =
    each (λ p s. ok (send (is_open p) s message)) (λ p s. send (is_open p) s message)
      server.sessions server w.valid w.owned
      λ p s e reg. (refl, send-id (is_open p) s message, send-outward (is_open p) s message)

module _ {Time : Type 0} (dates : Dates Time) where
  run_callback-id :
      (fuel : ℕ) (is_open : Bool) (callback : Callback) (s : WsSession) (message : Bytes) (r : Step)
      → run_callback dates fuel is_open callback s message ≡ ok r
      → r.0.id ≡ s.id
  unfolding run_callback ping_message csv_analize_message csv_answer_message send_shared
  run_callback-id fuel is_open ping_callback s message r e =
      rw (← ok-injective e) (send-id is_open s (c_str message))
  run_callback-id fuel is_open csv_analize_callback s message r e =
      let (text, e1, f1) = >>=-eq-ok (payload message) _ e in
      let (csv, e2, f2) = >>=-eq-ok (load_from_memory fuel (new_csv b',' 0 0) text) _ f1 in
      let (date, e3, f3) = >>=-eq-ok (analize_rows dates csv csv.rows_count 0 dates.epoch) _ f2 in
      rw (← ok-injective f3)
        (send-id is_open s (opcode_to_str csv_answer ++ to_string csv.rows_count))
  run_callback-id fuel is_open csv_answer_callback s message r e =
      let (text, e1, f1) = >>=-eq-ok (payload message) _ e in rw (← ok-injective f1) refl

  call-id :
      (fuel : ℕ) (is_open : Bool) (id : Bytes) (t : Task) (st r : Step)
      → (task_runner dates fuel is_open).call t st ≡ ok r
      → st.0.id ≡ id
      → r.0.id ≡ id
  unfolding task_runner
  call-id fuel is_open id t st r e k =
      let (u, e1, f1) = >>=-eq-ok (run_callback dates fuel is_open t.callback st.0 t.message) _ e in
      rw (← ok-injective f1) (run_callback-id fuel is_open t.callback st.0 t.message u e1 ∙ k)

  pub dispatch_session-id :
      (rounds fuel : ℕ) (is_open : Bool) (s : WsSession) (r : Step)
      → dispatch_session dates rounds fuel is_open s ≡ ok r
      → r.0.id ≡ s.id
  unfolding dispatch_session task_runner
  dispatch_session-id rounds fuel is_open s r e =
      dispatch_queued-Kept (task_runner dates fuel is_open) (λ st. st.0.id ≡ s.id) (λ st q k. k)
        (call-id fuel is_open s.id) rounds (s, []) r e refl

  outward-append :
      (xs ys : List Call) → outward xs ≡ true → outward ys ≡ true → outward (xs ++ ys) ≡ true
  outward-append [] ys hx hy = hy
  outward-append (unregister_session id ∷ xs) ys hx hy = cc
  outward-append (x ∷ xs) ys hx hy = outward-append xs ys hx hy

  run_callback-outward :
      (fuel : ℕ) (is_open : Bool) (callback : Callback) (s : WsSession) (message : Bytes) (r : Step)
      → run_callback dates fuel is_open callback s message ≡ ok r
      → outward r.1 ≡ true
  unfolding run_callback ping_message csv_analize_message csv_answer_message send_shared
  run_callback-outward fuel is_open ping_callback s message r e =
      rw (← ok-injective e) (send-outward is_open s (c_str message))
  run_callback-outward fuel is_open csv_analize_callback s message r e =
      let (text, e1, f1) = >>=-eq-ok (payload message) _ e in
      let (csv, e2, f2) = >>=-eq-ok (load_from_memory fuel (new_csv b',' 0 0) text) _ f1 in
      let (date, e3, f3) = >>=-eq-ok (analize_rows dates csv csv.rows_count 0 dates.epoch) _ f2 in
      rw (← ok-injective f3)
        (send-outward is_open s (opcode_to_str csv_answer ++ to_string csv.rows_count))
  run_callback-outward fuel is_open csv_answer_callback s message r e =
      let (text, e1, f1) = >>=-eq-ok (payload message) _ e in rw (← ok-injective f1) refl

  call-outward :
      (fuel : ℕ) (is_open : Bool) (t : Task) (st r : Step)
      → (task_runner dates fuel is_open).call t st ≡ ok r
      → outward st.1 ≡ true
      → outward r.1 ≡ true
  unfolding task_runner
  call-outward fuel is_open t st r e k =
      let (u, e1, f1) = >>=-eq-ok (run_callback dates fuel is_open t.callback st.0 t.message) _ e in
      rw (← ok-injective f1) (
        outward-append st.1 u.1 k
          (run_callback-outward fuel is_open t.callback st.0 t.message u e1))

  dispatch_session-outward :
      (rounds fuel : ℕ) (is_open : Bool) (s : WsSession) (r : Step)
      → dispatch_session dates rounds fuel is_open s ≡ ok r
      → outward r.1 ≡ true
  unfolding dispatch_session task_runner
  dispatch_session-outward rounds fuel is_open s r e =
      dispatch_queued-Kept (task_runner dates fuel is_open) (λ st. outward st.1 ≡ true)
        (λ st q k. k) (call-outward fuel is_open) rounds (s, []) r e refl

  -- On a well-formed server `handleIncomingMessages` returns, if the dispatch of no registered
  -- session's queue faults, and does to every registered session what that dispatch does, and
  -- nothing to any other. The calls made are those of these dispatches, one after another, and the
  -- registry stays.
  pub handle_incoming_messages_lem :
      (rounds fuel : ℕ) (is_open : ℕ → Bool) (server : WsServer) (dispatched : ℕ → WsSession → Step)
      → WellFormed server
      → ((p : ℕ) (s : WsSession)
          → get_elem? server.store p ≡ some s
          → registered server.sessions s.id p ≡ true
          → dispatch_session dates rounds fuel (is_open p) s ≡ ok (dispatched p s))
      → (after : WsServer) × (handle_incoming_messages dates rounds fuel is_open server ≡ ok after)
        × (after.sessions ≡ server.sessions)
        × (after.calls ≡ server.calls ++ calls_of dispatched server.sessions server.store)
        × ((p : ℕ) (s : WsSession)
            → get_elem? server.store p ≡ some s
            → get_elem? after.store p
              ≡ some (if registered server.sessions s.id p then (dispatched p s).0 else s))
  unfolding handle_incoming_messages
  handle_incoming_messages_lem rounds fuel is_open server dispatched w does =
      each (λ p s. dispatch_session dates rounds fuel (is_open p) s) dispatched server.sessions
        server w.valid w.owned
        λ p s e reg.
          let run = does p s e reg in
          (
            run,
            dispatch_session-id rounds fuel (is_open p) s (dispatched p s) run,
            dispatch_session-outward rounds fuel (is_open p) s (dispatched p s) run,
          )

send_to-found :
    (is_open : ℕ → Bool) (id message : Bytes) (server : WsServer) (p : ℕ) (s : WsSession)
    → get_sess_by_id server.sessions id ≡ some p
    → get_elem? server.store p ≡ some s
    → (after : WsServer) × (send_to is_open id message server ≡ ok after)
      × (after.sessions ≡ server.sessions)
      × (after.calls ≡ server.calls ++ map (λ c. (p, c)) (send (is_open p) s message).1)
      × ((j : ℕ)
          → get_elem? after.store j
            ≡ (if j == p then some (send (is_open p) s message).0 else get_elem? server.store j))
unfolding send_to send_to_found
send_to-found is_open id message server p s e f = rw e (
    run_handler-acts (λ t. ok (send (is_open p) t message)) p server s (send (is_open p) s message)
      f refl (send-outward (is_open p) s message))

-- `sendTo` returns on a well-formed server. To an id that is not registered it sends nothing. To one
-- that is, it sends the message to that session, as `send` does, makes the calls that `send` makes,
-- and changes no other session, nor the registry.
send_to_lem :
    (is_open : ℕ → Bool) (id message : Bytes) (server : WsServer)
    → WellFormed server
    → (get_sess_by_id server.sessions id ≡ none → send_to is_open id message server ≡ ok server)
      × ((p : ℕ)
          → get_sess_by_id server.sessions id ≡ some p
          → (s : WsSession) × (after : WsServer) × (get_elem? server.store p ≡ some s)
            × (s.id ≡ id)
            × (send_to is_open id message server ≡ ok after)
            × (after.sessions ≡ server.sessions)
            × (after.calls ≡ server.calls ++ map (λ c. (p, c)) (send (is_open p) s message).1)
            × ((j : ℕ)
                → get_elem? after.store j ≡ (
                    if j == p
                    then some (send (is_open p) s message).0
                    else get_elem? server.store j)))
send_to_lem is_open id message server w = (
  λ e. unfold send_to send_to_found in rw e refl,
  λ p e.
      let (s, found, named) = Owned-get server.sessions server.store id p w.owned e in
      let (after, run, kept, made, change) = send_to-found is_open id message server p s e found in
      (s, after, found, named, run, kept, made, change),
)
