-- ===== src/Program/Idle.antt =====
-- An idle session of net/websockets/WsSession.cpp reads one message, dispatches one, sends one.
use boost_server_example.Base.{
  ℕ, ◌^◌, ◌≤◌, ◌<◌, ◌≡◌, refl, sym, ap, subst, ◌∙◌, true, false, [], ◌∷◌, ◌++◌, some, Bytes, length,
  ltb, ◌==◌, arith,
}
use boost_server_example.Base.Result.{ok}
use boost_server_example.DispatchQueue.{dispatch}
use boost_server_example.WsCallbacks.{Dates, operation_callbacks, dispatch_session, run_callback}
use boost_server_example.WsCallbacks.Laws.{
  callback_of, queued, handle_incoming_data_lem, dispatch_session-one,
}
use boost_server_example.WsSession.{
  WsSession, Step, Callback, success, start_read, start_write, send, on_write,
}
use boost_server_example.WsSession.Conn.{take_read}
use boost_server_example.WsSession.Incoming.{on_read, handle_incoming_data}

-- A session that has nothing to send and nothing received.
pub record IsIdle (s : WsSession) : Type 0 where
  pub unread : s.recieved_buffer ≡ []
  pub sent_all : s.send_queue ≡ []
  pub not_busy : s.is_send_busy ≡ false
  pub no_task : s.received_messages.callbacks_queue ≡ []
  pub on : s.received_messages.quit ≡ false

on_read-buffer :
    (s : WsSession) (message : Bytes)
    → s.recieved_buffer ≡ message
    → 0 < length message
    → length message ≤ 2 ^ 30
    → on_read true operation_callbacks success s ≡ (
      record (handle_incoming_data operation_callbacks s message).0 { recieved_buffer = [] },
      start_read ∷ [],
    )
unfolding on_read
on_read-buffer s message e some_bytes small =
    let size : length s.recieved_buffer ≡ length message = ap length e in
    let some_read : (length s.recieved_buffer == 0) ≡ false = ground arith in
    let fits : ltb (2 ^ 30) (length s.recieved_buffer) ≡ false = ground arith in
    subst
      (λ m. on_read true operation_callbacks success s ≡ (
        record (handle_incoming_data operation_callbacks s m).0 { recieved_buffer = [] },
        start_read ∷ [],
      ))
      e (rw (some_read, fits) refl)

-- A message that fits is read and queued with its callback.
pub on_read-queued :
    (s : WsSession) (c : ℕ) (rest : Bytes) (callback : Callback)
    → s.recieved_buffer ≡ []
    → c < 256
    → callback_of c ≡ some callback
    → 0 < length rest
    → length rest < 2 ^ 30
    → on_read true operation_callbacks success (take_read s (c ∷ rest))
      ≡ (record (queued (some callback) s (c ∷ rest)).0 { recieved_buffer = [] }, start_read ∷ [])
on_read-queued s c rest callback unread byte named some_rest small =
    let long : (length rest == 0) ≡ false = ground arith in
    on_read-buffer (take_read s (c ∷ rest)) (c ∷ rest) (ap (λ xs. xs ++ c ∷ rest) unread)
      (omega arith) (omega arith)
    ∙ (rw (handle_incoming_data_lem (take_read s (c ∷ rest)) c rest byte, named, long) refl)

-- One message on an idle, open session is written at once.
pub send-idle :
    (s : WsSession) (text : Bytes)
    → s.send_queue ≡ []
    → s.is_send_busy ≡ false
    → 0 < length text
    → length text ≤ 2 ^ 30
    → send true s text
      ≡ (record s { send_queue = text ∷ []; is_send_busy = true }, start_write text ∷ [])
unfolding send
send-idle s text empty idle some_text small = ground (arith, empty, idle)

settled :
    (s : WsSession)
    → IsIdle s
    → record s {
      recieved_buffer = [];
      received_messages = record s.received_messages { callbacks_queue = [] };
    }
      ≡ s
settled s idle =
    ap
      (λ xs. record s {
        recieved_buffer = xs;
        received_messages = record s.received_messages { callbacks_queue = [] };
      })
      (sym idle.unread)
    ∙ ap
        (λ xs. record s { received_messages = record s.received_messages { callbacks_queue = xs } })
        (sym idle.no_task)

abbrev pub writing : Bytes → WsSession → WsSession
writing text s = record s { send_queue = text ∷ []; is_send_busy = true }

-- The write completes.
pub on_write-writing :
    (s : WsSession) (text : Bytes) → IsIdle s → on_write true success (writing text s) ≡ (s, [])
unfolding on_write
on_write-writing s text idle =
    ap (λ xs. (record s { send_queue = xs; is_send_busy = false }, [])) (sym idle.sent_all)
    ∙ ap (λ b. (record s { is_send_busy = b }, [])) (sym idle.not_busy)

-- An idle session has queued a message with its callback, and the dispatch runs that.
pub dispatch-queued :
    {Time : Type 0} (dates : Dates Time) (rounds fuel : ℕ) (s : WsSession) (callback : Callback)
    (message : Bytes) (r : Step)
    → IsIdle s
    → 1 < rounds
    → run_callback dates fuel true callback s message ≡ ok r
    → dispatch_session dates rounds fuel true
        (record (queued (some callback) s message).0 { recieved_buffer = [] })
      ≡ ok r
unfolding dispatch
dispatch-queued dates rounds fuel s callback message r idle enough run =
    dispatch_session-one dates rounds fuel true
      (record (queued (some callback) s message).0 { recieved_buffer = [] }) s.received_messages
      (record { callback = callback; message = message }) r
      (ap
        (λ xs. record s.received_messages {
          callbacks_queue = xs ++ record { callback = callback; message = message } ∷ [];
        })
        idle.no_task)
      idle.on enough
      (subst (λ u. run_callback dates fuel true callback u message ≡ ok r) (sym (settled s idle))
        run)
