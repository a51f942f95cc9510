-- ===== src/WsCallbacks.antt =====
-- The callbacks of net/websockets/WsServer.cpp: what the thread of the main loop does with a message
-- that a session has queued. Dates and the conversion to floating-point numbers are an argument, which
-- `system_dates` fills with the dates of StringUtils; what is only logged is left out.
pub mod Laws
pub mod Numeral
pub mod Answer
pub mod Faults
mod Echo
pub mod Pings
mod Tests
use boost_server_example.Base.{
  ℕ, zero, suc, ◌+◌, ◌/◌, ◌%◌, Bool, List, [], ◌∷◌, ◌++◌, Bytes, ltb, true, false, if◌then◌else◌,
}
use boost_server_example.Base.Int.{ℤ, pos, negsuc}
use boost_server_example.Base.Result.{Result, ok, err, ◌>>=◌, ◌>>◌, require, thrown}
use boost_server_example.Callbacks.{Callbacks, add_callback}
use boost_server_example.Csv.{Csv, new_csv, load_from_memory}
use boost_server_example.Csv.Access.{get_at}
use boost_server_example.DispatchQueue.{DispatchQueue, Runner, dispatch_queued}
use boost_server_example.Opcode.{
  WsOpcode, ping, csv_analize, csv_answer, opcode_to_str, new_operation,
}
use boost_server_example.StringUtils.Dates.{Zone, date_time_from_str}
use boost_server_example.WsSession.{
  WsSession, Step, Callback, Task, ping_callback, csv_analize_callback, csv_answer_callback, send,
  send_shared,
}

-- `later a b` is `a > b`, `epoch` the default `time_point`; `date_time_from_str` faults on a date that
-- no `time_point` reaches; `is_double` tells whether
-- `boost::lexical_cast<double>` converts the text, and does not throw.
pub record Dates (Time : Type 0) : Type 0 where
  pub epoch : Time
  pub later : Time → Time → Bool
  pub date_time_from_str : Bytes → Result Time
  pub is_double : Bytes → Bool

-- `a > b`
abbrev pub is_later : ℤ → ℤ → Bool
is_later (pos a) (pos b) = ltb b a
is_later (pos a) (negsuc b) = true
is_later (negsuc a) (pos b) = false
is_later (negsuc a) (negsuc b) = ltb a b

-- The dates of the program.
unfoldable pub system_dates : Zone → (Bytes → Bool) → Dates ℤ
unfolding date_time_from_str
system_dates zone converts = record {
  epoch = pos 0;
  later = is_later;
  date_time_from_str = date_time_from_str zone;
  is_double = converts;
}

-- The table of the constructor of WSServer.
unfoldable pub operation_callbacks : Callbacks Callback
unfolding add_callback new_operation
operation_callbacks =
    add_callback
      (add_callback (add_callback [] (new_operation ping (opcode_to_str ping)) ping_callback)
        (new_operation csv_analize (opcode_to_str csv_analize)) csv_analize_callback)
      (new_operation csv_answer (opcode_to_str csv_answer)) csv_answer_callback

-- `messageBuffer->substr(1, messageBuffer->size() - 1)`, which throws on an empty string.
abbrev pub payload : Bytes → Result Bytes
payload [] = err thrown
payload (c ∷ cs) = ok cs

-- The decimal digits, in front of `acc`.
pub digits : ℕ → ℕ → Bytes → Bytes
digits zero n acc = acc
digits (suc fuel) n acc =
    let rest = digits fuel (n / 10) ((b'0' + n % 10) ∷ acc) in
    if ltb n 10 then (b'0' + n) ∷ acc else rest

-- `std::to_string` of an `unsigned int`, which has at most ten digits.
unfoldable pub to_string : ℕ → Bytes
unfolding digits
to_string n = digits 10 n []

module _ {Time : Type 0} (dates : Dates Time) where
  open dates use {epoch, later, date_time_from_str, is_double}

  -- A row of a later date.
  abbrev pub later_row : Csv → ℕ → Time → Result Time
  later_row csv i date = do
    d1 ← get_at csv i 1
    require (is_double d1) thrown
    d2 ← get_at csv i 2
    require (is_double d2) thrown
    ok date

  -- The body of the loop of `csvAnalizeCallback`, for row `i`; the result is `maxDate`.
  unfoldable pub analize_row : Csv → ℕ → Time → Result Time
  analize_row csv i max_date = do
    text ← get_at csv i 0
    date ← date_time_from_str text
    if later date max_date then later_row csv i date else ok max_date

  -- `n` more rows, from row `i` on.
  unfoldable pub analize_rows : Csv → ℕ → ℕ → Time → Result Time
  unfolding analize_row
  analize_rows csv zero i max_date = ok max_date
  analize_rows csv (suc n) i max_date =
      analize_row csv i max_date >>= λ found. analize_rows csv n (i + 1) found

  -- `fuel` is for the blocks of the loop in `loadFromMemory`.
  unfoldable pub csv_analize_message : ℕ → Bool → WsSession → Bytes → Result Step
  unfolding analize_rows load_from_memory new_csv send to_string opcode_to_str
  csv_analize_message fuel is_open s message = do
    text ← payload message
    csv ← load_from_memory fuel (new_csv b',' 0 0) text
    max_date ← analize_rows csv csv.rows_count 0 epoch
    ok (send is_open s (opcode_to_str csv_answer ++ to_string csv.rows_count))

  unfoldable pub ping_message : Bool → WsSession → Bytes → Result Step
  unfolding send_shared
  ping_message is_open s message = ok (send_shared is_open s message)

  -- The payload is logged.
  unfoldable pub csv_answer_message : WsSession → Bytes → Result Step
  csv_answer_message s message = payload message >>= λ text. ok (s, [])

  unfoldable pub run_callback : ℕ → Bool → Callback → WsSession → Bytes → Result Step
  unfolding ping_message csv_analize_message csv_answer_message
  run_callback fuel is_open ping_callback s message = ping_message is_open s message
  run_callback fuel is_open csv_analize_callback s message =
      csv_analize_message fuel is_open s message
  run_callback fuel is_open csv_answer_callback s message = csv_answer_message s message

  -- The queue of a session, whose tasks call back into the session.
  unfoldable pub task_runner : ℕ → Bool → Runner Task Step
  unfolding run_callback
  task_runner fuel is_open = record {
    queue = λ st. st.0.received_messages;
    with_queue = λ st q. (record st.0 { received_messages = q }, st.1);
    call =
        λ t st. run_callback fuel is_open t.callback st.0 t.message >>= λ r. ok (r.0, st.1 ++ r.1);
  }

  -- `session->getReceivedMessages()->DispatchQueued()`
  unfoldable pub dispatch_session : ℕ → ℕ → Bool → WsSession → Result Step
  unfolding task_runner dispatch_queued
  dispatch_session rounds fuel is_open s = dispatch_queued (task_runner fuel is_open) rounds (s, [])
