-- ===== src/WsListener/Start.antt =====
-- What the start of the network in net/NetworkManager.cpp leads to.
use boost_server_example.Base.{
  ℕ, ◌≡◌, ◌↔◌, refl, true, false, List, Bytes, length, replicate, length-replicate, arith,
}
use boost_server_example.Base.Int.{pos, negsuc}
use boost_server_example.Base.Result.{ok, err, thrown}
use boost_server_example.WsListener.{
  Setup, run, new_listener, do_accept, is_accepting, configure_acceptor, NetworkManager,
  run_network, run_ioc_ws_listener,
}
use boost_server_example.Config.{ServerConfig}
use boost_server_example.WsServer.{Thread, new_server, run_threads}
use boost_server_example.WsServer.Owned.{WellFormed}
use boost_server_example.WsListener.Laws.{Serves}

-- The listener that `NetworkManager::run` starts.
pub started :
    (setup : Setup) (threads : List Thread)
    → let nm : NetworkManager = record {
      ws_server = record new_server { ws_threads = threads };
      ws_listener = run (new_listener setup);
    } in
      (setup.opens ≡ true → Serves nm) × (setup.opens ≡ false → nm.ws_listener.accepts ≡ 0)
unfolding run new_listener do_accept is_accepting configure_acceptor new_server
started setup threads = (
  λ h. record {
    well_formed = record { valid = tt; owned = tt };
    opened = ground (arith, h);
    going_on = ground (arith, h);
    free = ground (arith, h);
    one = ground (arith, h);
  },
  λ h. ground (arith, h),
)

listens_iff :
    (setup : Setup)
    → ((run (new_listener setup)).listening ≡ true) ↔ (
        (setup.opens ≡ true)
        × (setup.sets_option ≡ true)
        × (setup.binds ≡ true)
        × (setup.listens ≡ true))
unfolding run new_listener do_accept is_accepting configure_acceptor
listens_iff setup = ground arith

-- The start throws if the configuration has a negative number of threads. Else it returns a manager
-- with as many threads and a registry that is true to the sessions. A listener whose acceptor could be opened accepts then, even if it could not
-- be bound or does not listen; one whose acceptor could not be opened accepts nothing. It listens
-- exactly if all four steps of its set-up succeed.
pub run_network_lem :
    (acceptor : Bytes → ℕ → Setup) (config : ServerConfig)
    → let setup = acceptor config.address config.ws_port in
      ((n : ℕ) → config.threads ≡ negsuc n → run_network acceptor config ≡ err thrown)
      × ((n : ℕ)
          → config.threads ≡ pos n
          → (nm : NetworkManager) × (run_network acceptor config ≡ ok nm)
            × (length nm.ws_server.ws_threads ≡ n)
            × WellFormed nm.ws_server
            × (setup.opens ≡ true → Serves nm)
            × (setup.opens ≡ false → nm.ws_listener.accepts ≡ 0)
            × ((nm.ws_listener.listening ≡ true) ↔ (
                (setup.opens ≡ true)
                × (setup.sets_option ≡ true)
                × (setup.binds ≡ true)
                × (setup.listens ≡ true))))
unfolding run_network run_threads run_ioc_ws_listener
run_network_lem acceptor config =
    let setup = acceptor config.address config.ws_port in
    (
      λ n e. rw e refl,
      λ n e.
          let threads : List Thread = replicate n (record { joinable = true }) in
          (
            record {
              ws_server = record new_server { ws_threads = threads };
              ws_listener = run (new_listener setup);
            },
            (unfold new_server in rw e refl),
            length-replicate n (record { joinable = true }),
            (unfold new_server in record { valid = tt; owned = tt }),
            (started setup threads).0,
            (started setup threads).1,
            listens_iff setup,
          ),
    )
