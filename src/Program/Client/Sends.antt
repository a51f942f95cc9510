-- ===== src/Program/Client/Sends.antt =====
-- What `main` of client/main.cpp does: how it ends early, and what it sends.
use boost_server_example.Base.{
  ℕ, ◌+◌, ◌<◌, ◌≡◌, refl, ap, ◌∙◌, true, false, List, [], ◌∷◌, some, Bytes, arith,
}
use boost_server_example.Base.Result.{ok, ◌>>=◌, or_fault, no_fuel}
use boost_server_example.Base.Text.{codes}
use boost_server_example.Config.{new_server_config}
use boost_server_example.Csv.{Csv, new_csv, load_from_memory}
use boost_server_example.Program.{Around, exits, fails, exit_success, exit_failure, run_main}
use boost_server_example.Program.Client.{
  Connecting, csv_file_path, client_config, client_main, client_session, client_waited,
  start_sending,
}
use boost_server_example.Storage.{get_file_contents}
use boost_server_example.WsListener.{
  Setup, NetworkManager, run, new_listener, do_accept, is_accepting, configure_acceptor,
  run_network, run_ioc_ws_listener, finish, add_client_session,
}
use boost_server_example.WsServer.{new_server, run_threads}
use boost_server_example.WsSession.{new_session, start_resolve}
use boost_server_example.WsSession.Connect.{wait_for_connect, Sleeps, Stops, wait_for_connect-Ends}

need_close-run : (setup : Setup) → (run (new_listener setup)).need_close ≡ false
unfolding run new_listener do_accept is_accepting configure_acceptor
need_close-run setup = ground arith

abbrev pub client_id : Bytes
client_id = codes "clientSideServerId"

-- The manager when the client begins to wait for the connection: one session, known by its id, which
-- has begun to resolve the server's address.
abbrev pub waiting : Bytes → Setup → NetworkManager
waiting dispatch_name setup = record {
  ws_server = record new_server {
    sessions = (client_id, some 0) ∷ [];
    store = new_session dispatch_name client_id ∷ [];
    calls = (0, start_resolve (codes "127.0.0.1") (codes "8080")) ∷ [];
    ws_threads = record { joinable = true } ∷ [];
  };
  ws_listener = record (run (new_listener setup)) { socket_open = false };
}

module _ {Time : Type 0} (around : Around Time) (meeting : Connecting) where
  open around use {file_system, acceptor, busy, runs_out, fuel}
  open meeting use {dispatch_name, connecting, clock, connected, waits}

  abbrev pub setup : Setup
  setup = acceptor (codes "127.0.0.1") 0

  abbrev pub begun : NetworkManager
  begun = waiting dispatch_name setup

  abbrev running : NetworkManager
  running = record {
    ws_server = record new_server { ws_threads = record { joinable = true } ∷ [] };
    ws_listener = run (new_listener setup);
  }

  starts : run_network acceptor (client_config file_system) ≡ ok running
  unfolding run_network client_config new_server_config run_threads run_ioc_ws_listener new_server
  starts = refl

  adds : add_client_session dispatch_name client_id running.ws_listener running.ws_server ≡ (
    record (run (new_listener setup)) { socket_open = false },
    record begun.ws_server { calls = [] },
    some 0,
  )
  unfolding add_client_session new_server new_session
  adds = rw (need_close-run setup) refl

  connects :
      (loops : ℕ) (contents : Bytes)
      → client_session around meeting loops contents (
        record (run (new_listener setup)) { socket_open = false },
        record begun.ws_server { calls = [] },
        some 0,
      )
        ≡ (or_fault (wait_for_connect connected clock waits 1000) no_fuel >>= λ is_connected.
            client_waited around meeting loops contents 0 (connecting begun) is_connected)
  unfolding client_session
  connects loops contents = unfold new_server new_session in refl

  pub reaches :
      (loops : ℕ) (name path : Bytes) (more : List Bytes) (contents : Bytes) (csv : Csv)
      → get_file_contents file_system (csv_file_path file_system path) ≡ ok contents
      → load_from_memory fuel (new_csv b',' 0 0) contents ≡ ok csv
      → client_main around meeting loops (name ∷ path ∷ more) ≡ (
          or_fault (wait_for_connect connected clock waits 1000) no_fuel >>= λ is_connected.
          client_waited around meeting loops contents 0 (connecting begun) is_connected)
  unfolding client_main
  reaches loops name path more contents csv reading loading =
      ap
        (λ m. m >>= λ text. load_from_memory fuel (new_csv b',' 0 0) text >>= λ csv.
          run_network acceptor (client_config file_system) >>= λ nm.
          client_session around meeting loops text
            (add_client_session dispatch_name client_id nm.ws_listener nm.ws_server))
        reading
      ∙ ap
          (λ m. m >>= λ csv. run_network acceptor (client_config file_system) >>= λ nm.
            client_session around meeting loops contents
              (add_client_session dispatch_name client_id nm.ws_listener nm.ws_server))
          loading
      ∙ ap
          (λ m. m >>= λ nm.
            client_session around meeting loops contents
              (add_client_session dispatch_name client_id nm.ws_listener nm.ws_server))
          starts
      ∙ ap (client_session around meeting loops contents) adds
      ∙ connects loops contents

  -- With fewer than two arguments the client returns EXIT_FAILURE. Else, if the file can be read
  -- and the table loaded, and the clock goes on while the client waits, for which there are more
  -- than 1000 rounds, it adds a session under its id, begins to connect it to the port 8080 of
  -- 127.0.0.1, and waits until the session is open or a second is over. If it is not open at the
  -- look behind that, it returns EXIT_SUCCESS once the network is finished; if it is, the client
  -- goes on to send the table.
  pub client_main_lem :
      (loops : ℕ) (name path : Bytes) (more : List Bytes) (contents : Bytes) (csv : Csv)
      → get_file_contents file_system (csv_file_path file_system path) ≡ ok contents
      → load_from_memory fuel (new_csv b',' 0 0) contents ≡ ok csv
      → Sleeps connected clock
      → 1000 < waits
      → let ends = client_main around meeting loops (name ∷ path ∷ more) in
        (client_main around meeting loops [] ≡ ok (fails exit_failure))
        × (client_main around meeting loops (name ∷ []) ≡ ok (fails exit_failure))
        × ((last : ℕ) × Stops connected clock (clock 0 + 1000) last
            × (connected (last + 1) ≡ false
                → ends ≡ ok (exits exit_success (finish busy runs_out (connecting begun))))
            × (connected (last + 1) ≡ true
                → ends ≡ (
                    start_sending around meeting contents 0 (connecting begun) >>= λ sending.
                    run_main around loops sending)))
  unfolding client_main client_waited
  client_main_lem loops name path more contents csv reading loading slept enough =
      let (last, above, stops, e) = wait_for_connect-Ends connected clock waits 1000 slept enough in
      (
        refl,
        refl,
        (
          last,
          stops,
          λ shut. reaches loops name path more contents csv reading loading ∙ rw (e, shut) refl,
          λ opened. reaches loops name path more contents csv reading loading ∙ rw (e, opened) refl,
        ),
      )
