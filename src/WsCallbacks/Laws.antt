-- ===== src/WsCallbacks/Laws.antt =====
-- Which callback of net/websockets/WsServer.cpp a message finds, and what comes of a ping.
use boost_server_example.Base.{
  ℕ, zero, suc, ◌<◌, ◌≡◌, refl, sym, ap, ◌∙◌, Bool, true, false, [], ◌∷◌, ◌++◌, Option, none, some,
  Bytes, ◌==◌, if◌then◌else◌, length, arith,
}
use boost_server_example.Base.Result.{ok, ◌>>=◌, >>=-eq-ok, ok-injective}
use boost_server_example.Csv.{new_csv, load_from_memory}
use boost_server_example.Callbacks.{find, add_callback}
use boost_server_example.DispatchQueue.{DispatchQueue, dispatch}
use boost_server_example.DispatchQueue.Drain.{IsLawful, call_all, dispatch_queued-call_all}
use boost_server_example.Opcode.{
  csv_answer, opcode_to_str, c_str, ws_opcode_from_str, new_operation,
}
use boost_server_example.Opcode.Laws.{NoNul, c_str-eq_iff}
use boost_server_example.WsCallbacks.{
  Dates, payload, to_string, analize_rows, operation_callbacks, task_runner, dispatch_session,
  run_callback, ping_message, csv_analize_message, csv_answer_message,
}
use boost_server_example.WsSession.{
  WsSession, Step, Callback, Task, ping_callback, csv_analize_callback, csv_answer_callback, send,
  send_shared,
}
use boost_server_example.WsSession.Incoming.{handle_incoming_data}

-- The callback for the first byte of a message.
abbrev pub callback_of : ℕ → Option Callback
callback_of c =
    if c == b'0'
    then some ping_callback
    else if c == b'1'
    then some csv_analize_callback
    else if c == b'2'
    then some csv_answer_callback
    else none

find_callback :
    (message : Bytes) (c : ℕ) (rest : Bytes)
    → message ≡ c ∷ rest
    → c < 256
    → find operation_callbacks (new_operation (ws_opcode_from_str (c_str message)) [])
      ≡ callback_of c
unfolding find operation_callbacks add_callback new_operation ws_opcode_from_str c_str
find_callback message zero rest e h = rw e refl
find_callback message (suc c) rest e h = rw e (ground arith)

-- What `handle_incoming_data` does with a message that starts with `c`.
abbrev pub queued : Option Callback → WsSession → Bytes → WsSession × Bool
queued none s message = (s, false)
queued (some callback) s message = (
  record s {
    received_messages =
        dispatch s.received_messages (record { callback = callback; message = message });
  },
  true,
)

-- With the callbacks of the server, a message of one byte is dropped, and a longer one is queued
-- behind those already there, with the callback that its first byte tells, or dropped if none does.
pub handle_incoming_data_lem :
    (s : WsSession) (c : ℕ) (rest : Bytes)
    → c < 256
    → handle_incoming_data operation_callbacks s (c ∷ rest)
      ≡ (if length rest == 0 then (s, false) else queued (callback_of c) s (c ∷ rest))
unfolding handle_incoming_data
handle_incoming_data_lem s c rest h = rw (find_callback (c ∷ rest) c rest refl h) (ground arith)

send-received :
    (is_open : Bool) (s : WsSession) (text : Bytes)
    → (send is_open s text).0.received_messages ≡ s.received_messages
unfolding send
send-received is_open s text = ground arith

module _ {Time : Type 0} (dates : Dates Time) where
  -- A callback leaves the queue of its session alone.
  run_callback-received :
      (fuel : ℕ) (is_open : Bool) (callback : Callback) (s : WsSession) (message : Bytes) (r : Step)
      → run_callback dates fuel is_open callback s message ≡ ok r
      → r.0.received_messages ≡ s.received_messages
  unfolding run_callback ping_message csv_analize_message csv_answer_message send_shared
  run_callback-received fuel is_open ping_callback s message r e =
      rw (← ok-injective e) (send-received is_open s (c_str message))
  run_callback-received fuel is_open csv_analize_callback s message r e =
      let (text, e1, f1) = >>=-eq-ok (payload message) _ e in
      let (csv, e2, f2) = >>=-eq-ok (load_from_memory fuel (new_csv b',' 0 0) text) _ f1 in
      let (date, e3, f3) = >>=-eq-ok (analize_rows dates csv csv.rows_count 0 dates.epoch) _ f2 in
      rw (← ok-injective f3)
        (send-received is_open s (opcode_to_str csv_answer ++ to_string csv.rows_count))
  run_callback-received fuel is_open csv_answer_callback s message r e =
      let (text, e1, f1) = >>=-eq-ok (payload message) _ e in rw (← ok-injective f1) refl

  pub task_runner-IsLawful : (fuel : ℕ) (is_open : Bool) → IsLawful (task_runner dates fuel is_open)
  unfolding task_runner
  task_runner-IsLawful fuel is_open = record {
    queue-with_queue = λ s q. refl;
    queue-call = λ a s t e.
        let (r, e1, f1) =
          >>=-eq-ok (run_callback dates fuel is_open a.callback s.0 a.message) _ e in
        rw (← ok-injective f1) (run_callback-received fuel is_open a.callback s.0 a.message r e1);
  }

  call-one :
      (fuel : ℕ) (is_open : Bool) (t : Task) (s : WsSession) (r : Step)
      → run_callback dates fuel is_open t.callback s t.message ≡ ok r
      → (task_runner dates fuel is_open).call t (s, []) ≡ ok r
  unfolding task_runner
  call-one fuel is_open t s r run = ap (λ m. m >>= λ (u : Step). ok (u.0, [] ++ u.1)) run

  -- A session runs its only task, if the callback returns.
  pub dispatch_session-one :
      (rounds fuel : ℕ) (is_open : Bool) (s : WsSession) (q : DispatchQueue Task) (t : Task)
      (r : Step)
      → s.received_messages ≡ record q { callbacks_queue = t ∷ [] }
      → q.quit ≡ false
      → 1 < rounds
      → run_callback dates fuel is_open t.callback
          (record s { received_messages = record q { callbacks_queue = [] } })
          t.message
        ≡ ok r
      → dispatch_session dates rounds fuel is_open s ≡ ok r
  unfolding dispatch_session task_runner
  dispatch_session-one rounds fuel is_open s q t r e on enough run =
      (dispatch_queued-call_all (task_runner dates fuel is_open) (task_runner-IsLawful fuel is_open)
          rounds (s, []) (rw e enough)).0
        (rw e on)
      ∙ ap (λ m. call_all (task_runner dates fuel is_open) m m.callbacks_queue (s, [])) e
      ∙ ap (λ m. m >>= λ u. ok u)
          (call-one fuel is_open t
            (record s { received_messages = record q { callbacks_queue = [] } }) r run)

  -- A ping comes back: on a session with no other message waiting, a message of two bytes or more
  -- that starts with the ping's byte and holds no zero byte is queued, and the next dispatch sends
  -- just that message, as `send` would.
  pub ping_message_lem :
      (rounds fuel : ℕ) (is_open : Bool) (s : WsSession) (rest : Bytes)
      → s.received_messages.callbacks_queue ≡ []
      → s.received_messages.quit ≡ false
      → NoNul (b'0' ∷ rest)
      → 0 < length rest
      → 1 < rounds
      → dispatch_session dates rounds fuel is_open
          (handle_incoming_data operation_callbacks s (b'0' ∷ rest)).0
        ≡ ok (send is_open s (b'0' ∷ rest))
  ping_message_lem rounds fuel is_open s rest empty on clean some_rest enough =
      let long : (length rest == 0) ≡ false = ground arith in
      let drained : record s.received_messages { callbacks_queue = [] } ≡ s.received_messages =
        ap (λ xs. record s.received_messages { callbacks_queue = xs }) (sym empty) in
      rw (handle_incoming_data_lem s b'0' rest (omega arith), long)
        (dispatch_session-one rounds fuel is_open (queued (some ping_callback) s (b'0' ∷ rest)).0
          s.received_messages (record { callback = ping_callback; message = b'0' ∷ rest })
          (send is_open s (b'0' ∷ rest)) (unfold dispatch in rw empty refl) on enough
          (unfold run_callback ping_message send_shared in
            rw ((c_str-eq_iff (b'0' ∷ rest)).1 clean, drained) refl))
