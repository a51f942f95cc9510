-- ===== src/Program.antt =====
-- main.cpp and client/main.cpp: the two programs over the network manager. What the threads of the
-- network do, the sockets and the file system are arguments; what is only logged is left out.
pub mod Client
pub mod Laws
pub mod Idle
pub mod Exchange
mod Tests
use boost_server_example.Base.{ℕ, zero, suc, true, false, ◌+◌, Bool, Option, none, some, Bytes}
use boost_server_example.Base.Result.{Result, ok, ◌>>=◌}
use boost_server_example.Base.Text.{codes}
use boost_server_example.Config.{new_server_config}
use boost_server_example.Storage.{FileSystem, get_this_binary_directory_path}
use boost_server_example.TickManager.{
  TickHandler, TickManager, new_tick_manager, add_tick_handler, tick,
}
use boost_server_example.WsCallbacks.{Dates}
use boost_server_example.WsListener.{NetworkManager, Setup, run_network, handle_network, finish}

-- What stands around the program. `acceptor` tells how the set-up of an acceptor goes at an address
-- and a port, `is_open n p` whether the socket of the session `p` is open at the tick `n`, `network n`
-- what the threads of the network do before it. `busy` tells whether operations of the
-- sessions have kept the threads of the network running up to the end, and `runs_out` whether the
-- operations under way then run out; `rounds` and `fuel` are for the callbacks of a tick and the blocks of a text.
pub record Around (Time : Type 0) : Type 0 where
  pub dates : Dates Time
  pub file_system : FileSystem
  pub acceptor : Bytes → ℕ → Setup
  pub is_open : ℕ → ℕ → Bool
  pub network : ℕ → NetworkManager → NetworkManager
  pub busy : Bool
  pub runs_out : Bool
  pub rounds : ℕ
  pub fuel : ℕ

-- What the handler of the tick manager works on.
pub record Running : Type 0 where
  pub ticks : ℕ
  pub manager : NetworkManager

-- How `main` ends. `exits`: it returns a status, `none` if it waits for the threads for ever instead.
-- `fails`: it returns one at once. `runs`: it still runs, the fuel for the loop is used up.
pub data Ended : Type 0 where
  exits : ℕ → Option NetworkManager → Ended
  fails : ℕ → Ended
  runs : Running → Ended

abbrev pub exit_success : ℕ
exit_success = 0

abbrev pub exit_failure : ℕ
exit_failure = 1

module _ {Time : Type 0} (around : Around Time) where
  open around use {dates, file_system, acceptor, is_open, network, busy, runs_out, rounds, fuel}

  -- The network's turn, and then the function that both programs register.
  unfoldable pub handle_tick : Running → Result Running
  unfolding handle_network
  handle_tick r =
      handle_network dates rounds fuel (is_open r.ticks) (network r.ticks r.manager) >>= λ nm.
      ok (record { ticks = r.ticks + 1; manager = nm })

  -- The tick manager of both programs, with its only handler.
  unfoldable pub ticker : TickManager (Result Running)
  unfolding add_tick_handler new_tick_manager handle_tick
  ticker =
      add_tick_handler new_tick_manager
        (record { id = codes "handleAllPlayerMessages"; fn = λ r. r >>= handle_tick })

  -- The loop, and what stands behind it. A tick that faults ends the program.
  unfoldable pub loop : ℕ → Running → Result Ended
  unfolding tick ticker finish
  loop zero r = ok (runs r)
  loop (suc loops) r = elim ticker.need_server_run [
    | true ↦ tick ticker (ok r) >>= λ next. loop loops next
    | false ↦ ok (exits exit_success (finish busy runs_out r.manager))
  ]

  -- From the registration of the handler on.
  unfoldable pub run_main : ℕ → NetworkManager → Result Ended
  unfolding loop
  run_main loops nm = loop loops (record { ticks = 0; manager = nm })

  -- `main` of the server.
  unfoldable pub server_main : ℕ → Result Ended
  unfolding run_main run_network new_server_config get_this_binary_directory_path
  server_main loops =
      run_network acceptor (new_server_config (get_this_binary_directory_path file_system))
      >>= λ nm. run_main loops nm
