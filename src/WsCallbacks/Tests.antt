-- ===== src/WsCallbacks/Tests.antt =====
-- Runs of the callbacks of net/websockets/WsServer.cpp.
use boost_server_example.Base.{
  ℕ, ◌-◌, ◌*◌, ◌^◌, ◌≡◌, refl, sym, subst, true, false, [], ◌∷◌, none, Bytes, length, ltb, ◌==◌,
  arith,
}
use boost_server_example.Base.Result.{ok, err, int_overflow, thrown, terminated}
use boost_server_example.Base.Int.{ℤ, pos}
use boost_server_example.Base.Text.{codes}
use boost_server_example.Csv.Table.{table, fields_fit}
use boost_server_example.WsCallbacks.{
  Dates, system_dates, to_string, dispatch_session, csv_analize_message,
}
use boost_server_example.WsCallbacks.Answer.{Analizable, csv_analize_message_lem}
use boost_server_example.WsCallbacks.Faults.{csv_analize_message-faults}
use boost_server_example.WsCallbacks.Pings.{pings_in_order}
use boost_server_example.WsCallbacks.Echo.{come_in, complete}
use boost_server_example.StringUtils.Dates.{Zone, zero_tm, date_time_from_str}
use boost_server_example.WsSession.{start_write, Step, WsSession, send, alive}

-- A date is its text's length, and the texts "1" and "2" are the numbers.
abbrev lengths : Dates ℕ
lengths = record {
  epoch = 0;
  later = λ a b. ltb b a;
  date_time_from_str = λ text. ok (length text);
  is_double = λ text. length text == 1;
}

abbrev session : WsSession
session = record {
  id = codes "id";
  is_fully_created = true;
  recieved_buffer = [];
  timer_expiry = none;
  is_send_busy = false;
  send_queue = [];
  ping_state = alive;
  received_messages = record { name = []; threads = 0; callbacks_queue = []; quit = false };
  read_message_max = 64 * 1024 * 1024;
}

digits_of_205 : to_string 205 ≡ codes "205"
unfolding to_string
digits_of_205 = refl

pings_in_order_example :
    (after : Step) × (dispatch_session lengths 3 0 true
        (come_in session (codes "0hello" ∷ codes "0b" ∷ []))
      ≡ ok after)
    × (after.0.send_queue ≡ codes "0hello" ∷ codes "0b" ∷ [])
    × (complete 2 after ≡ (session, start_write (codes "0hello") ∷ start_write (codes "0b") ∷ []))
pings_in_order_example =
    pings_in_order lengths 0 3 session (codes "0hello" ∷ codes "0b" ∷ []) refl refl refl refl
      (
        (refl, omega arith, omega arith, ground arith),
        ((refl, omega arith, omega arith, ground arith), tt),
      )
      (omega arith)

abbrev dated : Bytes
dated = codes "d,1,2\ndd,2,1,x\n"

dated-table :
    (table b',' dated
      ≡ (codes "d" ∷ codes "1" ∷ codes "2" ∷ [])
        ∷ (codes "dd" ∷ codes "2" ∷ codes "1" ∷ codes "x" ∷ [])
        ∷ [])
    × (fields_fit b',' dated ≡ true)
unfolding table fields_fit
dated-table = (refl, refl)

dated-Analizable : Analizable lengths (table b',' dated)
dated-Analizable =
    subst (Analizable lengths) (sym dated-table.0)
      ((1, refl), refl, refl, ((2, refl), refl, refl, tt))

csv_analize_message_lem_example :
    csv_analize_message lengths 20 true session (b'1' ∷ dated)
    ≡ ok (send true session (b'2' ∷ to_string (length (table b',' dated))))
csv_analize_message_lem_example =
    csv_analize_message_lem lengths 20 true session b'1' dated (omega arith) (omega arith)
      dated-table.1 dated-Analizable

-- A year of 1970 or later is one of 31556952 seconds, and the days in it do not count.
abbrev years : Zone
years = record { mktime = λ tm. pos ((tm.tm_year - 1970) * 31556952); localtime = λ t. zero_tm }

abbrev system : Dates ℤ
system = system_dates years (λ text. length text == 1)

abbrev far_text : Bytes
far_text = codes "01.01.2300\n"

far_text_fits : fields_fit b',' far_text ≡ true
unfolding fields_fit
far_text_fits = refl

in_2020 : system.date_time_from_str (codes "01.01.2020") ≡ ok (pos (50 * 31556952 * 10 ^ 9))
unfolding system_dates date_time_from_str
in_2020 = refl

later_2020 : system.later (pos (50 * 31556952 * 10 ^ 9)) system.epoch ≡ true
unfolding system_dates
later_2020 = refl

-- A year that 64 bits of nanoseconds do not reach.
in_2300 : system.date_time_from_str (codes "01.01.2300") ≡ err int_overflow
unfolding system_dates date_time_from_str
in_2300 = refl

csv_analize_message-faults_example :
    (table b',' far_text ≡ (codes "01.01.2020" ∷ []) ∷ []
      → csv_analize_message system 12 true session (b'1' ∷ far_text) ≡ err terminated)
    × (table b',' far_text ≡ (codes "01.01.2020" ∷ codes "xx" ∷ codes "1" ∷ []) ∷ []
        → system.is_double (codes "xx") ≡ false
        → csv_analize_message system 12 true session (b'1' ∷ far_text) ≡ err thrown)
    × (table b',' far_text ≡ (codes "01.01.2300" ∷ []) ∷ []
        → system.date_time_from_str (codes "01.01.2300") ≡ err int_overflow
        → csv_analize_message system 12 true session (b'1' ∷ far_text) ≡ err int_overflow)
csv_analize_message-faults_example =
    csv_analize_message-faults system 12 true session b'1' far_text (codes "01.01.2020")
      (codes "xx") (codes "1") (codes "01.01.2300") [] [] (pos (50 * 31556952 * 10 ^ 9))
      int_overflow (omega arith) (omega arith) far_text_fits in_2020 later_2020

far_text_ends : csv_analize_message system 12 true session (b'1' ∷ far_text) ≡ err int_overflow
unfolding table
far_text_ends = csv_analize_message-faults_example.2 refl in_2300
