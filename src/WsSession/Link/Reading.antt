-- ===== src/WsSession/Link/Reading.antt =====
-- What the far end of a connection does with what it reads.
use boost_server_example.Base.{
  ◌≤◌, ◌^◌, ◌⊎◌, ◌≢◌, ◌≡◌, refl, sym, ap, ◌∙◌, Bool, true, false, List, [], ◌∷◌, ◌++◌, Bytes, ltb,
  ◌==◌, length, arith, append_assoc, append-nil, Bool-cases, Option-cases, inl, inr,
}
use boost_server_example.Callbacks.{Callbacks, find}
use boost_server_example.DispatchQueue.{dispatch}
use boost_server_example.Opcode.{c_str, ws_opcode_from_str, new_operation}
use boost_server_example.WsSession.{
  WsSession, Callback, Task, ErrorCode, success, operation_aborted, closed, other,
  on_control_callback,
}
use boost_server_example.WsSession.Bounds.{Fits}
use boost_server_example.WsSession.Conn.{
  Conn, Move, take_read, resolved, connected, shaken, accepted, was_read, was_written, pinged,
  waited, controlled, sends, takes, runs, cleared,
}
use boost_server_example.WsSession.Incoming.{on_read, handle_incoming_data, max_receive_msg_size}
use boost_server_example.WsSession.Mute.{reads_of}
use boost_server_example.WsSession.Link.{tasks_of, tasks_in, aside}
use boost_server_example.WsSession.Received.{
  Received, on_resolve-Received, on_connect-Received, on_handshake-Received, on_accept-Received,
  on_write-Received, on_ping-Received, on_timer-Received, send-Received, run_as_client-Received,
}

module _ (callbacks : Callbacks Callback) where
  -- What a session has received stays as it is.
  abbrev pub Kept : Conn → Conn → Type 0
  Kept c d = Received c.session (d.session, [])

  pub Move-Kept : {c d : Conn} (m : Move callbacks c d) → aside callbacks m ≡ true → Kept c d
  unfolding on_control_callback
  Move-Kept {c} (resolved k ec e) a = on_resolve-Received ec c.session
  Move-Kept {c} (connected k ec e) a = on_connect-Received ec c.session
  Move-Kept {c} (shaken k ec e) a = on_handshake-Received ec c.session
  Move-Kept {c} (accepted k ec e) a = on_accept-Received ec c.session
  Move-Kept (was_read k is_open ec got e fits) a = cc
  Move-Kept {c} (was_written text others is_open ec e) a = on_write-Received is_open ec c.session
  Move-Kept {c} (pinged k ec e ok_r) a = on_ping-Received ec c.session ok_r
  Move-Kept {c} (waited k is_open now ec e) a = on_timer-Received is_open now ec c.session
  Move-Kept (controlled now) a = (refl, refl)
  Move-Kept {c} (sends is_open text) a = send-Received is_open c.session text
  Move-Kept (takes t rest e) a = cc
  Move-Kept {c} (runs is_open now e) a = run_as_client-Received is_open now c.session
  Move-Kept cleared a = cc

  -- The session has read nothing that it has not handled, and `queue` are its tasks.
  abbrev pub Holds : WsSession → List Task → Type 0
  Holds s queue = (s.recieved_buffer ≡ []) × (s.received_messages.callbacks_queue ≡ queue)

  handle-queue :
      (s : WsSession) (message : Bytes)
      → (handle_incoming_data callbacks s message).0.received_messages.callbacks_queue
        ≡ s.received_messages.callbacks_queue ++ tasks_of callbacks message
  unfolding handle_incoming_data dispatch
  handle-queue s message = elim (Bool-cases (ltb (length message) 2)) [
    | inl short ↦ rw short (sym (append-nil s.received_messages.callbacks_queue))
    | inr long ↦
        elim (Option-cases
          (find callbacks (new_operation (ws_opcode_from_str (c_str message)) []))) [
            | inl e ↦ rw (long, e) (sym (append-nil s.received_messages.callbacks_queue))
            | inr (callback, e) ↦ rw (long, e) refl
          ]
  ]

  -- A message that fits is handled as soon as it is read.
  on_read-queue :
      (is_open : Bool) (s : WsSession) (text : Bytes)
      → s.recieved_buffer ≡ text
      → Fits text
      → Holds
          (on_read is_open callbacks success s).0
          (s.received_messages.callbacks_queue ++ tasks_of callbacks text)
  unfolding on_read
  on_read-queue is_open s text e fits =
      let size : length s.recieved_buffer ≡ length text = ap length e in
      let some_read : (length s.recieved_buffer == 0) ≡ false = ground arith in
      let small : ltb max_receive_msg_size (length s.recieved_buffer) ≡ false = ground arith in
      rw (some_read, small)
        (
          refl,
          handle-queue s s.recieved_buffer
              ∙ ap (λ m. s.received_messages.callbacks_queue ++ tasks_of callbacks m) e,
        )

  pub read-queue :
      (is_open : Bool) (s : WsSession) (text : Bytes)
      → s.recieved_buffer ≡ []
      → Fits text
      → (on_read is_open callbacks success (take_read s text)).0.received_messages.callbacks_queue
        ≡ s.received_messages.callbacks_queue ++ tasks_of callbacks text
  read-queue is_open s text unread fits =
      (on_read-queue is_open (take_read s text) text (ap (λ b. b ++ text) unread) fits).1

  -- A read without a byte leaves everything as it is.
  on_read-empty :
      (is_open : Bool) (ec : ErrorCode) (s : WsSession)
      → s.recieved_buffer ≡ []
      → (on_read is_open callbacks ec s).0 ≡ s
  unfolding on_read
  on_read-empty is_open success s e =
      let none_read : (length s.recieved_buffer == 0) ≡ true = ground (arith, ap length e) in
      rw none_read refl
  on_read-empty is_open operation_aborted s e = refl
  on_read-empty is_open closed s e = refl
  on_read-empty is_open (other n) s e =
      let none_read : (length s.recieved_buffer == 0) ≡ true = ground (arith, ap length e) in
      rw none_read refl

  -- A read that fails with a part of a message makes the task of that part, or none.
  pub failed-queue :
      (ec : ErrorCode) (s : WsSession) (part : Bytes)
      → ec ≢ success
      → s.recieved_buffer ≡ []
      → length part ≤ 2 ^ 30
      → let queue =
          (on_read false callbacks ec (take_read s part)).0.received_messages.callbacks_queue in
        (queue ≡ s.received_messages.callbacks_queue)
        ⊎ (queue ≡ s.received_messages.callbacks_queue ++ tasks_of callbacks part)
  unfolding on_read
  failed-queue success s part ne unread small = absurd (ne refl)
  failed-queue operation_aborted s part ne unread small = inl refl
  failed-queue closed s part ne unread small = inl refl
  failed-queue (other n) s [] ne unread small = inl (
      ap (λ t. t.received_messages.callbacks_queue)
        (on_read-empty false (other n) (take_read s []) (ap (λ b. b ++ []) unread)))
  failed-queue (other n) s (c ∷ cs) ne unread small =
      inr (read-queue false s (c ∷ cs) unread (omega arith, small))

  pub failed-reads :
      (ec : ErrorCode) (s : WsSession) → reads_of (on_read false callbacks ec s).1 ≡ 0
  unfolding on_read
  failed-reads ec s = ground arith

  pub tasks_in-append :
      (xs ys : List Bytes)
      → tasks_in callbacks (xs ++ ys) ≡ tasks_in callbacks xs ++ tasks_in callbacks ys
  tasks_in-append [] ys = refl
  tasks_in-append (x ∷ xs) ys =
      ap (◌++◌ (tasks_of callbacks x)) (tasks_in-append xs ys)
      ∙ sym (append_assoc (tasks_of callbacks x) (tasks_in callbacks xs) (tasks_in callbacks ys))
