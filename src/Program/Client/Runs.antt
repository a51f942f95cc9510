-- ===== src/Program/Client/Runs.antt =====
-- The client of client/main.cpp from its start on, when it reaches the server.
use boost_server_example.Csv.{Csv}
use boost_server_example.Program.{Around}
use boost_server_example.Program.Client.{Connecting}
use boost_server_example.Program.Client.Sends.{client_id, begun}
use boost_server_example.WsListener.{NetworkManager}
use boost_server_example.WsSession.{WsSession, new_session}

module _ {Time : Type 0} (around : Around Time) (meeting : Connecting) where
  open around use {file_system, dates, fuel}
  open meeting use {dispatch_name, connecting, clock, connected, open_now, now, waits}

  abbrev opening : NetworkManager
  opening = begun around meeting

  abbrev session : WsSession
  session = new_session dispatch_name client_id
