-- ===== src/WsSession/Bounds.antt =====
-- The sizes of what a session of net/websockets/WsSession.cpp keeps: messages to send, and tasks.
use boost_server_example.Base.{
  ◌^◌, ◌≤◌, ◌<◌, ◌≡◌, sym, subst, Bool, true, List, [], ◌∷◌, ◌++◌, some, Bytes, ltb, ◌==◌, length,
  arith, Bool-cases, Option-cases, inl, inr,
}
use boost_server_example.Callbacks.{Callbacks, find}
use boost_server_example.DispatchQueue.{dispatch, clear, pop_all-nil}
use boost_server_example.Opcode.{c_str, ws_opcode_from_str, new_operation}
use boost_server_example.WsSession.{
  WsSession, Step, Callback, Task, ErrorCode, success, operation_aborted, closed, other, sendable,
  on_resolve, on_connect, on_handshake, on_accept, on_timer, on_write, on_control_callback, send,
  new_session, run_as_server, run_as_client, connect_as_client,
}
use boost_server_example.WsSession.Incoming.{
  on_read, handle_incoming_data, clear_received_messages, max_receive_msg_size,
}
use boost_server_example.WsSession.Kinds.{Kind, quietly, sending, writing, Move-Kind}
use boost_server_example.WsSession.Writing.{Writing, idle, flying, stuck}
use boost_server_example.WsSession.Writes.{Reach-Writing, writes_in_order}
use boost_server_example.WsSession.Conn.{
  Conn, Move, Start, as_server, as_client, Reach, start, later, resolved, connected, shaken,
  accepted, was_read, was_written, pinged, waited, controlled, sends, takes, runs, cleared,
  take_read, writes_of,
}
use boost_server_example.WsSession.Received.{
  Received, on_resolve-Received, on_connect-Received, on_handshake-Received, on_accept-Received,
  on_write-Received, on_ping-Received, on_timer-Received, send-Received, run_as_client-Received,
  run_as_server-Received,
}

abbrev pub All {ℓ κ} : {A : Type ℓ} → (A → Type κ) → List A → Type κ
All P [] = Unit
All P (x ∷ xs) = P x × All P xs

All-append {ℓ κ} :
    {A : Type ℓ} (P : A → Type κ) (xs ys : List A) → All P xs → All P ys → All P (xs ++ ys)
All-append P [] ys hx hy = hy
All-append P (x ∷ xs) ys hx hy = (hx.0, All-append P xs ys hx.1 hy)

pub All-front {ℓ κ} :
    {A : Type ℓ} (P : A → Type κ) (xs ys : List A) → All P (xs ++ ys) → All P xs × All P ys
All-front P [] ys h = (tt, h)
All-front P (x ∷ xs) ys h = let (a, b) = All-front P xs ys h.1 in ((h.0, a), b)

-- A message that is sent.
abbrev pub Fits : Bytes → Type 0
Fits text = (0 < length text) × (length text ≤ 2 ^ 30)

sendable-Fits : (text : Bytes) → sendable text ≡ true → Fits text
sendable-Fits text h = ground arith

Kind-taken : {c d : Conn} → Kind c d → All Fits c.taken → All Fits d.taken
Kind-taken (quietly q) h = rw q.took h
Kind-taken {c} (sending is_open text) h = elim (Bool-cases (sendable text)) [
  | inl e ↦ rw e (All-append Fits c.taken (text ∷ []) h (sendable-Fits text e, tt))
  | inr e ↦ rw e h
]
Kind-taken (writing text others is_open ec e) h = h

module _ (callbacks : Callbacks Callback) where
  -- A task has a message of two bytes or more, and the callback that is registered for its operation.
  abbrev pub Registered : Task → Type 0
  Registered t =
      (1 < length t.message)
      × (length t.message ≤ 2 ^ 30)
      × (find callbacks (new_operation (ws_opcode_from_str (c_str t.message)) []) ≡ some t.callback)

  abbrev Tasks : WsSession → Type 0
  Tasks s = All Registered s.received_messages.callbacks_queue

  handle_incoming_data-Tasks :
      (s : WsSession) (message : Bytes)
      → length message ≤ 2 ^ 30
      → Tasks s
      → Tasks (handle_incoming_data callbacks s message).0
  unfolding handle_incoming_data dispatch
  handle_incoming_data-Tasks s message small h = elim (Bool-cases (ltb (length message) 2)) [
    | inl short ↦ rw short h
    | inr long ↦
        elim (Option-cases
          (find callbacks (new_operation (ws_opcode_from_str (c_str message)) []))) [
            | inl e ↦ rw (long, e) h
            | inr (callback, e) ↦
                rw (long, e)
                  (All-append Registered s.received_messages.callbacks_queue
                    (record { callback = callback; message = message } ∷ []) h
                    ((ground arith, small, e), tt))
          ]
  ]

  success-Tasks :
      (is_open : Bool) (s : WsSession) → Tasks s → Tasks (on_read is_open callbacks success s).0
  unfolding on_read
  success-Tasks is_open s h = elim (Bool-cases (length s.recieved_buffer == 0)) [
    | inl none_read ↦ rw none_read h
    | inr some_read ↦ elim (Bool-cases (ltb max_receive_msg_size (length s.recieved_buffer))) [
      | inl long ↦ rw (some_read, long) h
      | inr fits ↦
          rw (some_read, fits) (handle_incoming_data-Tasks s s.recieved_buffer (ground arith) h)
    ]
  ]

  on_read-Tasks :
      (is_open : Bool) (ec : ErrorCode) (s : WsSession)
      → Tasks s
      → Tasks (on_read is_open callbacks ec s).0
  unfolding on_read
  on_read-Tasks is_open success s h = success-Tasks is_open s h
  on_read-Tasks is_open operation_aborted s h = h
  on_read-Tasks is_open closed s h = h
  on_read-Tasks is_open (other n) s h = success-Tasks is_open s h

  clear-Tasks : (s : WsSession) → Tasks (clear_received_messages s)
  unfolding clear_received_messages clear
  clear-Tasks s = subst (All Registered) (sym (pop_all-nil s.received_messages.callbacks_queue)) tt

  kept : (s : WsSession) (r : Step) → Received s r → Tasks s → Tasks r.0
  kept s r e h = subst (λ q. All Registered q.callbacks_queue) (sym e.0) h

  Move-Tasks : {c d : Conn} → Move callbacks c d → Tasks c.session → Tasks d.session
  unfolding on_control_callback
  Move-Tasks {c} (resolved k ec e) h =
      kept c.session (on_resolve ec c.session) (on_resolve-Received ec c.session) h
  Move-Tasks {c} (connected k ec e) h =
      kept c.session (on_connect ec c.session) (on_connect-Received ec c.session) h
  Move-Tasks {c} (shaken k ec e) h =
      kept c.session (on_handshake ec c.session) (on_handshake-Received ec c.session) h
  Move-Tasks {c} (accepted k ec e) h =
      kept c.session (on_accept ec c.session) (on_accept-Received ec c.session) h
  Move-Tasks {c} (was_read k is_open ec got e fits) h =
      on_read-Tasks is_open ec (take_read c.session got) h
  Move-Tasks {c} (was_written text others is_open ec e) h =
      kept c.session (on_write is_open ec c.session) (on_write-Received is_open ec c.session) h
  Move-Tasks {c} (pinged k ec {r} e ok_r) h =
      kept c.session r (on_ping-Received ec c.session ok_r) h
  Move-Tasks {c} (waited k is_open now ec e) h =
      kept c.session (on_timer is_open now ec c.session)
        (on_timer-Received is_open now ec c.session) h
  Move-Tasks {c} (controlled now) h = h
  Move-Tasks {c} (sends is_open text) h =
      kept c.session (send is_open c.session text) (send-Received is_open c.session text) h
  Move-Tasks {c} (takes t rest e) h = (subst (All Registered) e h).1
  Move-Tasks {c} (runs is_open now e) h =
      kept c.session (run_as_client is_open now c.session)
        (run_as_client-Received is_open now c.session) h
  Move-Tasks {c} cleared h = clear-Tasks c.session

  Start-Bounded : {c : Conn} → Start callbacks c → All Fits c.taken × Tasks c.session
  unfolding new_session connect_as_client
  Start-Bounded (as_server name id is_open now e) = rw e (
    tt,
    kept (new_session name id) (run_as_server is_open now (new_session name id))
        (run_as_server-Received is_open now (new_session name id)) tt,
  )
  Start-Bounded (as_client name id host port e) = rw e (tt, tt)

  Reach-Bounded : {c : Conn} → Reach callbacks c → All Fits c.taken × Tasks c.session
  Reach-Bounded (start s) = Start-Bounded s
  Reach-Bounded (later r m) =
      let (a, b) = Reach-Bounded r in (Kind-taken (Move-Kind callbacks m) a, Move-Tasks m b)

  in_queue : {c : Conn} → Writing c → All Fits c.taken → All Fits c.session.send_queue
  in_queue (idle gone b w st tk) h = (All-front Fits gone _ (subst (All Fits) tk h)).1
  in_queue (flying gone m rest b e w st tk) h = (All-front Fits gone _ (subst (All Fits) tk h)).1
  in_queue (stuck gone m rest b e w st tk) h = (All-front Fits gone _ (subst (All Fits) tk h)).1

  -- In every state that a session can reach, each message that waits to be sent, or whose write was
  -- started, has at least one byte and at most 2^30, and each task that waits has a message of two
  -- bytes at least and 2^30 at most, and the callback that is registered for the operation that the
  -- first byte of the message stands for.
  pub sizes_bounded :
      {c : Conn}
      → Reach callbacks c
      → All Fits c.session.send_queue
        × All Fits (writes_of c.log)
        × All Registered c.session.received_messages.callbacks_queue
  sizes_bounded r =
      let (sent, tasks) = Reach-Bounded r in
      let (waiting, e) = (writes_in_order callbacks r).1 in
      (
        in_queue (Reach-Writing callbacks r) sent,
        (All-front Fits _ waiting (subst (All Fits) e sent)).0,
        tasks,
      )
