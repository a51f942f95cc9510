-- ===== src/Program/Tests.antt =====
-- Runs of main.cpp and client/main.cpp, and of a client with a server.
use boost_server_example.Base.{
  ℕ, ◌+◌, ◌≡◌, refl, sym, subst, true, false, [], ◌∷◌, ◌++◌, some, Bytes, length, ltb, ◌==◌, arith,
}
use boost_server_example.Base.Result.{ok, ◌>>=◌}
use boost_server_example.Base.Text.{codes}
use boost_server_example.Csv.{Csv, new_csv, load_from_memory}
use boost_server_example.Csv.Table.{table, fields_fit}
use boost_server_example.Opcode.{csv_analize, opcode_to_str}
use boost_server_example.Program.{Around, exits, fails, exit_failure, exit_success, run_main}
use boost_server_example.Program.Client.{Connecting, client_main, start_sending, csv_file_path}
use boost_server_example.Program.Client.Sends.{waiting, client_main_lem}
use boost_server_example.Program.Exchange.{limit, reads, written, exchange_lem}
use boost_server_example.Program.Idle.{IsIdle}
use boost_server_example.Storage.{FileSystem, get_file_contents}
use boost_server_example.WsCallbacks.{Dates, dispatch_session, to_string}
use boost_server_example.WsCallbacks.Answer.{Analizable}
use boost_server_example.WsListener.{NetworkManager, Setup, finish}
use boost_server_example.WsSession.{WsSession, start_write, send_shared, new_session}
use boost_server_example.WsSession.Connect.{Stops}

abbrev text : Bytes
text = codes "d,1,2\ndd,2,1\n"

-- A date is its text's length, and the texts "1" and "2" are the numbers.
abbrev lengths : Dates ℕ
lengths = record {
  epoch = 0;
  later = λ a b. ltb b a;
  date_time_from_str = λ text. ok (length text);
  is_double = λ text. length text == 1;
}

abbrev files : FileSystem
files = record {
  program_location = codes "/d/p";
  parent_path = λ path. codes "/d";
  is_relative = λ path. true;
  join = λ a b. a ++ codes "/" ++ b;
  exists = λ path. some (length path == 4);
  file_size = λ path. some (length text);
  contents = λ path. text;
}

abbrev all_succeed : Setup
all_succeed = record { opens = true; sets_option = true; binds = true; listens = true }

-- Nobody connects, and nothing happens in the network.
abbrev around : Around ℕ
around = record {
  dates = lengths;
  file_system = files;
  acceptor = λ address ws_port. all_succeed;
  is_open = λ n p. true;
  network = λ n nm. nm;
  busy = true;
  runs_out = true;
  rounds = 2;
  fuel = 20;
}

-- The connection is there at the third look.
abbrev meeting : Connecting
meeting = record {
  dispatch_name = [];
  connecting = λ nm. nm;
  clock = λ i. i + i;
  connected = λ i. ltb 2 i;
  open_now = λ p. true;
  now = 7;
  waits = 1001;
}

abbrev begun : NetworkManager
begun = waiting [] all_succeed

usage : client_main around meeting 3 (codes "client" ∷ []) ≡ ok (fails exit_failure)
unfolding client_main
usage = refl

file_read : get_file_contents files (csv_file_path files (codes "t")) ≡ ok text
unfolding get_file_contents csv_file_path
file_read = refl

abbrev loaded : Csv
loaded = record (new_csv b',' 0 0) {
  rows_count = 2;
  cols_count = 3;
  rows_deque =
      (codes "d" ∷ codes "1" ∷ codes "2" ∷ []) ∷ (codes "dd" ∷ codes "2" ∷ codes "1" ∷ []) ∷ [];
}

file_loaded : load_from_memory 20 (new_csv b',' 0 0) text ≡ ok loaded
unfolding load_from_memory new_csv
file_loaded = refl

client_main_lem_example :
    let ends = client_main around meeting 3 (codes "client" ∷ codes "t" ∷ []) in
    (client_main around meeting 3 [] ≡ ok (fails exit_failure))
    × (client_main around meeting 3 (codes "client" ∷ []) ≡ ok (fails exit_failure))
    × ((last : ℕ) × Stops meeting.connected meeting.clock (meeting.clock 0 + 1000) last
        × (meeting.connected (last + 1) ≡ false
            → ends ≡ ok (exits exit_success (finish true true begun)))
        × (meeting.connected (last + 1) ≡ true
            → ends ≡ (
                start_sending around meeting text 0 begun >>= λ sending.
                run_main around 3 sending)))
client_main_lem_example =
    client_main_lem around meeting 3 (codes "client") (codes "t") [] text loaded file_read
      file_loaded (λ j. omega arith) (omega arith)

abbrev client : WsSession
client = new_session [] (codes "clientSideServerId")

client-IsIdle : IsIdle client
unfolding new_session
client-IsIdle = record {
  unread = refl;
  sent_all = refl;
  not_busy = refl;
  no_task = refl;
  on = refl;
}

client-limit : client.read_message_max ≡ limit
unfolding new_session
client-limit = refl

text-table :
    (table b',' text
      ≡ (codes "d" ∷ codes "1" ∷ codes "2" ∷ []) ∷ (codes "dd" ∷ codes "2" ∷ codes "1" ∷ []) ∷ [])
    × (fields_fit b',' text ≡ true)
unfolding table fields_fit
text-table = (refl, refl)

text-Analizable : Analizable lengths (table b',' text)
text-Analizable =
    subst (Analizable lengths) (sym text-table.0)
      ((1, refl), refl, refl, ((2, refl), refl, refl, tt))

exchange_lem_example :
    let answer = b'2' ∷ to_string (length (table b',' text)) in
    (asking answering : WsSession) × (send_shared true client (opcode_to_str csv_analize ++ text)
      ≡ (asking, start_write (b'1' ∷ text) ∷ []))
    × (dispatch_session lengths 2 20 true (reads client (b'1' ∷ text))
        ≡ ok (answering, start_write answer ∷ []))
    × (dispatch_session lengths 2 20 true (reads (written asking) answer) ≡ ok (client, []))
    × (written answering ≡ client)
exchange_lem_example =
    exchange_lem lengths 2 20 client client text client-IsIdle client-IsIdle client-limit
      client-limit (omega arith) (omega arith) (omega arith) (omega arith) (ground arith)
      text-table.1 text-Analizable
