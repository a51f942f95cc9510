-- ===== src/Program/Client.antt =====
-- `main` of client/main.cpp: it sends the table in a file to the server.
pub mod Sends
pub mod First
pub mod Runs
use boost_server_example.Base.{
  ℕ, Bool, true, false, List, [], ◌∷◌, ◌++◌, Option, none, some, Bytes, if◌then◌else◌,
}
use boost_server_example.Base.Result.{Result, ok, ◌>>=◌, or_fault, no_fuel}
use boost_server_example.Base.Text.{codes}
use boost_server_example.Config.{ServerConfig, new_server_config}
use boost_server_example.Csv.{new_csv, load_from_memory}
use boost_server_example.Opcode.{csv_analize, opcode_to_str}
use boost_server_example.Program.{Around, Ended, exits, fails, exit_success, exit_failure, run_main}
use boost_server_example.Storage.{FileSystem, get_this_binary_directory_path, get_file_contents}
use boost_server_example.WsListener.{
  WsListener, NetworkManager, run_network, finish, add_client_session,
}
use boost_server_example.WsServer.{WsServer, run_handler}
use boost_server_example.WsSession.{connect_as_client, run_as_client, send_shared}
use boost_server_example.WsSession.Connect.{wait_for_connect}

-- What a client finds besides. `dispatch_name` is the name of the queues. While `main` waits for the
-- connection, the threads of the network do `connecting`, the clock shows `clock`, in milliseconds,
-- and `connected` tells whether the socket of the new session is open, both at each look; `now` is
-- the time behind the wait, and `open_now` tells which sockets are open then. `waits` is the fuel of
-- the wait.
pub record Connecting : Type 0 where
  pub dispatch_name : Bytes
  pub connecting : NetworkManager → NetworkManager
  pub clock : ℕ → ℕ
  pub connected : ℕ → Bool
  pub open_now : ℕ → Bool
  pub now : ℕ
  pub waits : ℕ

-- The path of the table.
unfoldable pub csv_file_path : FileSystem → Bytes → Bytes
unfolding get_this_binary_directory_path
csv_file_path fs path =
    if fs.is_relative path then fs.join (get_this_binary_directory_path fs) path else path

-- Port 0 stands for a random port.
unfoldable pub client_config : FileSystem → ServerConfig
unfolding new_server_config get_this_binary_directory_path
client_config fs = record (new_server_config (get_this_binary_directory_path fs)) { ws_port = 0 }

-- A method of the session `p` is called.
abbrev pub with_server : NetworkManager → Result WsServer → Result NetworkManager
with_server nm result = result >>= λ server. ok (record nm { ws_server = server })

module _ {Time : Type 0} (around : Around Time) (meeting : Connecting) where
  open around use {file_system, acceptor, busy, runs_out, fuel}
  open meeting use {dispatch_name, connecting, clock, connected, open_now, now, waits}

  -- From `runAsClient` to the call of `send`.
  unfoldable pub start_sending : Bytes → ℕ → NetworkManager → Result NetworkManager
  unfolding run_handler run_as_client send_shared opcode_to_str
  start_sending contents p nm = with_server nm (
      run_handler (λ s. ok (run_as_client (open_now p) now s)) p nm.ws_server >>= λ server.
      run_handler (λ s. ok (send_shared (open_now p) s (opcode_to_str csv_analize ++ contents))) p
        server)

  -- From the end of `waitForConnect` on.
  unfoldable pub client_waited : ℕ → Bytes → ℕ → NetworkManager → Bool → Result Ended
  unfolding finish start_sending run_main
  client_waited loops contents p nm false = ok (exits exit_success (finish busy runs_out nm))
  client_waited loops contents p nm true =
      start_sending contents p nm >>= λ sending. run_main around loops sending

  -- From `connectAsClient` on.
  unfoldable pub client_connects : ℕ → Bytes → ℕ → NetworkManager → Result Ended
  unfolding run_handler connect_as_client wait_for_connect client_waited
  client_connects loops contents p nm =
      with_server nm (
        run_handler (λ s. ok (connect_as_client (codes "127.0.0.1") (codes "8080") s)) p
          nm.ws_server)
      >>= λ begun.
          or_fault (wait_for_connect connected clock waits 1000) no_fuel >>= λ is_connected.
          client_waited loops contents p (connecting begun) is_connected

  -- From the test of the new session on.
  unfoldable pub client_session : ℕ → Bytes → WsListener × WsServer × Option ℕ → Result Ended
  unfolding finish client_connects
  client_session loops contents (l, server, none) =
      ok
        (exits exit_success (finish busy runs_out (record { ws_server = server; ws_listener = l })))
  client_session loops contents (l, server, some p) =
      client_connects loops contents p (record { ws_server = server; ws_listener = l })

  -- `main` with the arguments `argv`. The table is loaded, and what the test of it finds is logged.
  unfoldable pub client_main : ℕ → List Bytes → Result Ended
  unfolding csv_file_path client_config run_network client_session get_file_contents
      load_from_memory new_csv add_client_session
  client_main loops (name ∷ path ∷ more) = do
    contents ← get_file_contents file_system (csv_file_path file_system path)
    csv ← load_from_memory fuel (new_csv b',' 0 0) contents
    nm ← run_network acceptor (client_config file_system)
    client_session loops contents
        (add_client_session dispatch_name (codes "clientSideServerId") nm.ws_listener nm.ws_server)
  client_main loops _ = ok (fails exit_failure)
