-- ===== src/Program/Exchange.antt =====
-- A client and a server together: a table goes from net/websockets/WsSession.cpp of the one to that
-- of the other, through the callbacks of net/websockets/WsServer.cpp, and the answer comes back.
use boost_server_example.Base.{
  ◌*◌, if◌then◌else◌, false, ℕ, ◌^◌, ◌≤◌, ◌<◌, ◌≡◌, refl, sym, ap, subst, ◌∙◌, true, [], ◌∷◌, ◌++◌,
  some, Bytes, length, arith,
}
use boost_server_example.Base.Result.{ok}
use boost_server_example.Csv.Table.{table, fields_fit}
use boost_server_example.Csv.Table.Size.{table-Short}
use boost_server_example.Opcode.{csv_analize, opcode_to_str}
use boost_server_example.Opcode.Laws.{NoNul, c_str-eq_iff}
use boost_server_example.WsCallbacks.{
  Dates, operation_callbacks, to_string, dispatch_session, run_callback, csv_answer_message,
}
use boost_server_example.WsCallbacks.Answer.{Analizable, csv_analize_message_lem}
use boost_server_example.WsCallbacks.Laws.{callback_of}
use boost_server_example.WsCallbacks.Numeral.{to_string_lem, to_string_some}
use boost_server_example.WsSession.{
  WsSession, Step, Callback, success, other, start_write, csv_analize_callback, csv_answer_callback,
  send, send_shared, on_write,
}
use boost_server_example.WsSession.Conn.{may_read, take_read}
use boost_server_example.WsSession.Incoming.{on_read}
use boost_server_example.Program.Idle.{
  IsIdle, writing, on_read-queued, send-idle, on_write-writing, dispatch-queued,
}

-- The limit of messages that the constructor sets.
abbrev pub limit : ℕ
limit = 64 * 1024 * 1024

-- What a session does with a message that its peer has written: one that is too long fails, and the
-- socket is no longer open then.
abbrev pub reads : WsSession → Bytes → WsSession
reads s message =
    if may_read success s message
    then (on_read true operation_callbacks success (take_read s message)).0
    else (on_read false operation_callbacks (other 0) s).0

abbrev pub written : WsSession → WsSession
written s = (on_write true success s).0

-- The text is sent behind the byte of its operation.
pub asks :
    (client : WsSession) (text : Bytes)
    → IsIdle client
    → NoNul text
    → length text < 2 ^ 30
    → send_shared true client (opcode_to_str csv_analize ++ text)
      ≡ (writing (b'1' ∷ text) client, start_write (b'1' ∷ text) ∷ [])
unfolding send_shared opcode_to_str
asks client text idle clean small =
    ap (send true client) ((c_str-eq_iff (b'1' ∷ text)).1 (omega arith, clean))
    ∙ send-idle client (b'1' ∷ text) idle.sent_all idle.not_busy (omega arith) (omega arith)

module _ {Time : Type 0} (dates : Dates Time) (rounds fuel : ℕ) where
  -- An idle session reads a message, and the dispatch runs its callback.
  dispatch-reads :
      (s : WsSession) (c : ℕ) (rest : Bytes) (callback : Callback) (r : Step)
      → IsIdle s
      → 1 < rounds
      → c < 256
      → callback_of c ≡ some callback
      → 0 < length rest
      → length rest < limit
      → s.read_message_max ≡ limit
      → run_callback dates fuel true callback s (c ∷ rest) ≡ ok r
      → dispatch_session dates rounds fuel true (reads s (c ∷ rest)) ≡ ok r
  dispatch-reads s c rest callback r idle enough byte named some_rest small most run =
      let fits : may_read success s (c ∷ rest) ≡ true = ground arith in
      rw fits (
        subst (λ (step : Step). dispatch_session dates rounds fuel true step.0 ≡ ok r)
          (sym (on_read-queued s c rest callback idle.unread byte named some_rest (omega arith)))
          (dispatch-queued dates rounds fuel s callback (c ∷ rest) r idle enough run))

  answers :
      (server : WsSession) (text : Bytes)
      → IsIdle server
      → server.read_message_max ≡ limit
      → 1 < rounds
      → length text < fuel
      → 0 < length text
      → length text < limit
      → fields_fit b',' text ≡ true
      → Analizable dates (table b',' text)
      → let answer = b'2' ∷ to_string (length (table b',' text)) in
        dispatch_session dates rounds fuel true (reads server (b'1' ∷ text))
        ≡ ok (writing answer server, start_write answer ∷ [])
  answers server text idle most enough blocks some_text small fit rows =
      let answer = b'2' ∷ to_string (length (table b',' text)) in
      let size = (table-Short b',' text).0 in
      let few = (to_string_lem (length (table b',' text)) (omega arith)).1 in
      dispatch-reads server b'1' text csv_analize_callback
        (writing answer server, start_write answer ∷ []) idle enough (omega arith) refl some_text
        small most
        (unfold run_callback in
          csv_analize_message_lem dates fuel true server b'1' text (omega arith) blocks fit rows
          ∙ ap ok (send-idle server answer idle.sent_all idle.not_busy (omega arith) (omega arith)))

  hears :
      (client : WsSession) (digits : Bytes)
      → IsIdle client
      → client.read_message_max ≡ limit
      → 1 < rounds
      → 0 < length digits
      → length digits ≤ 10
      → dispatch_session dates rounds fuel true (reads client (b'2' ∷ digits)) ≡ ok (client, [])
  hears client digits idle most enough some_digits few =
      dispatch-reads client b'2' digits csv_answer_callback (client, []) idle enough (omega arith)
        refl some_digits (omega arith) most (unfold run_callback csv_answer_message in refl)

  -- A client with an idle session sends a table to a server whose session with it is idle, both
  -- sockets being open, and both with the limit of 64 MiB for a message that the constructor sets; a
  -- dispatch has two rounds at least, and a load one for each byte of the text and one more. The
  -- text is not empty, has less than 64 MiB and no zero byte, no field of it has more than 1024, and
  -- each of its rows has three fields or more, the first a date that can be read, the second and the
  -- third numbers. Then the client writes the byte of the operation and the text; the server, when
  -- it has read that and dispatched its queue, writes the byte of the answer and, in decimal, the
  -- number of rows; and the client, when its write has completed and it has read and dispatched
  -- that, has nothing more to write. Both sessions end as they began.
  pub exchange_lem :
      (client server : WsSession) (text : Bytes)
      → IsIdle client
      → IsIdle server
      → client.read_message_max ≡ limit
      → server.read_message_max ≡ limit
      → 1 < rounds
      → length text < fuel
      → 0 < length text
      → length text < limit
      → NoNul text
      → fields_fit b',' text ≡ true
      → Analizable dates (table b',' text)
      → let message = b'1' ∷ text in
        let answer = b'2' ∷ to_string (length (table b',' text)) in
        (asking answering : WsSession) × (send_shared true client
            (opcode_to_str csv_analize ++ text)
          ≡ (asking, start_write message ∷ []))
        × (dispatch_session dates rounds fuel true (reads server message)
            ≡ ok (answering, start_write answer ∷ []))
        × (dispatch_session dates rounds fuel true (reads (written asking) answer)
            ≡ ok (client, []))
        × (written answering ≡ server)
  exchange_lem client server text ci si most_c most_s enough blocks some_text small clean fit rows =
      let answer = b'2' ∷ to_string (length (table b',' text)) in
      let back = ap (λ (r : Step). r.0) (on_write-writing client (b'1' ∷ text) ci) in
      let size = (table-Short b',' text).0 in
      (
        writing (b'1' ∷ text) client,
        writing answer server,
        asks client text ci clean (omega arith),
        answers server text si most_s enough blocks some_text small fit rows,
        subst (λ s. dispatch_session dates rounds fuel true (reads s answer) ≡ ok (client, []))
            (sym back)
            (hears client (to_string (length (table b',' text))) ci most_c enough
              (to_string_some (length (table b',' text)))
              (to_string_lem (length (table b',' text)) (omega arith)).1),
        ap (λ (r : Step). r.0) (on_write-writing server answer si),
      )
