-- ===== src/TickManager.antt =====
-- algo/TickManager.hpp, and the loop over it in main.cpp. A handler is a function on the state of
-- the program outside the manager; sleeping is left out.
pub mod Laws
use boost_server_example.Base.{
  ℕ, zero, suc, Bool, true, false, List, [], ◌∷◌, ◌++◌, Option, none, some, Bytes,
}

pub record TickHandler {ℓ} (S : Type ℓ) : Type ℓ where
  pub id : Bytes
  pub fn : S → S

pub record TickManager {ℓ} (S : Type ℓ) : Type ℓ where
  pub tick_handlers : List (TickHandler S)
  pub need_server_run : Bool

module _ {ℓ} {S : Type ℓ} where
  unfoldable pub new_tick_manager : TickManager S
  new_tick_manager = record { tick_handlers = []; need_server_run = true }

  pub run_handlers : List (TickHandler S) → S → S
  run_handlers [] s = s
  run_handlers (h ∷ hs) s = run_handlers hs (h.fn s)

  unfoldable pub tick : TickManager S → S → S
  unfolding run_handlers
  tick tm s = run_handlers tm.tick_handlers s

  unfoldable pub stop : TickManager S → TickManager S
  stop tm = record tm { need_server_run = false }

  unfoldable pub add_tick_handler : TickManager S → TickHandler S → TickManager S
  add_tick_handler tm h = record tm { tick_handlers = tm.tick_handlers ++ h ∷ [] }

  -- `while (tm.needServerRun()) { tm.tick(); }`; `none`: the fuel ran out. A handler has no access
  -- to the manager, so the test is the same in each round.
  unfoldable pub main_loop : ℕ → TickManager S → S → Option S
  unfolding tick
  main_loop zero tm s = none
  main_loop (suc fuel) tm s = elim tm.need_server_run [
    | true ↦ main_loop fuel tm (tick tm s)
    | false ↦ some s
  ]
