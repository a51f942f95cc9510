-- ===== src/WsListener/Tests.antt =====
-- Runs of the listener of net/websockets/WsListener.cpp and of the manager of net/NetworkManager.cpp.
use boost_server_example.Base.{
  List, ◌||◌, ℕ, ◌≡◌, ◌↔◌, refl, Bool, true, false, [], ◌∷◌, none, some, Bytes, length, ◌==◌,
  if◌then◌else◌,
}
use boost_server_example.Base.Int.{pos, negsuc}
use boost_server_example.Base.Result.{ok, err, thrown}
use boost_server_example.Base.Text.{codes}
use boost_server_example.Config.{ServerConfig}
use boost_server_example.WsListener.{
  NetworkManager, Setup, accept_completes, run_network, run, new_listener, do_accept, is_accepting,
  configure_acceptor, run_ioc_ws_listener, finish,
}
use boost_server_example.WsListener.Laws.{
  Serves, Events, accept_all, is_client, is_found, accept_all-Serves, failed_accept_lem,
}
use boost_server_example.WsListener.Start.{run_network_lem}
use boost_server_example.WsServer.Owned.{WellFormed}
use boost_server_example.WsServer.{new_server, run_threads, finish_threads}

abbrev all_succeed : Setup
all_succeed = record { opens = true; sets_option = true; binds = true; listens = true }

-- The port is taken.
abbrev bind_fails : Setup
bind_fails = record { opens = true; sets_option = true; binds = false; listens = true }

-- A configuration for a bind that fails at this port.
abbrev config : ServerConfig
config = record { workdir = []; address = codes "h"; ws_port = 80; threads = pos 2 }

abbrev acceptor : Bytes → ℕ → Setup
acceptor address ws_port = if ws_port == 80 then bind_fails else all_succeed

run_network_lem_example :
    ((n : ℕ) → config.threads ≡ negsuc n → run_network acceptor config ≡ err thrown)
    × ((n : ℕ)
        → config.threads ≡ pos n
        → (nm : NetworkManager) × (run_network acceptor config ≡ ok nm)
          × (length nm.ws_server.ws_threads ≡ n)
          × WellFormed nm.ws_server
          × (bind_fails.opens ≡ true → Serves nm)
          × (bind_fails.opens ≡ false → nm.ws_listener.accepts ≡ 0)
          × ((nm.ws_listener.listening ≡ true) ↔ (
              (bind_fails.opens ≡ true)
              × (bind_fails.sets_option ≡ true)
              × (bind_fails.binds ≡ true)
              × (bind_fails.listens ≡ true))))
run_network_lem_example = run_network_lem acceptor config

abbrev manager : NetworkManager
manager = record {
  ws_server = record new_server { ws_threads = record { joinable = true } ∷ [] };
  ws_listener = run (new_listener all_succeed);
}

runs_network : run_network acceptor (record config { ws_port = 81; threads = pos 1 }) ≡ ok manager
unfolding run_network run_threads run_ioc_ws_listener
runs_network = refl

running : Serves manager
unfolding new_server run new_listener do_accept is_accepting configure_acceptor
running = record {
  well_formed = record { valid = tt; owned = tt };
  opened = refl;
  going_on = refl;
  free = refl;
  one = refl;
}

waits : finish false false manager ≡ none
unfolding finish finish_threads new_server run new_listener
waits = refl

-- No acceptor could be opened, so the threads had nothing to do.
abbrev deserted : NetworkManager
deserted = record manager { ws_listener = record manager.ws_listener { accepts = 0 } }

returns_at_once :
    finish false false deserted
    ≡ some (record deserted {
      ws_server = record deserted.ws_server { ws_threads = record { joinable = false } ∷ [] };
    })
unfolding finish finish_threads new_server
returns_at_once = refl

abbrev is_open : ℕ → Bool
is_open p = true

-- Two clients.
abbrev clients : List (Bytes × ℕ)
clients = (codes "a", 3) ∷ (codes "b", 8) ∷ []

accept_all-Serves_example :
    (after : NetworkManager) × (accept_all [] is_open clients manager ≡ ok after)
    × Serves after
    × ((id : Bytes) → is_found after id ≡ (is_client id clients || is_found manager id))
accept_all-Serves_example = accept_all-Serves [] is_open clients manager running

failed_accept_lem_example :
    (next : NetworkManager) × (accept_completes []
        (codes "id")
        is_open
        3
        true
        manager.ws_listener
        manager.ws_server
      ≡ ok (next.ws_listener, next.ws_server))
    × ((later : NetworkManager)
        → Events [] next later
        → (later.ws_listener.accepts ≡ 0) × (later.ws_server ≡ manager.ws_server))
failed_accept_lem_example = failed_accept_lem [] (codes "id") is_open 3 manager running
