-- ===== src/TickManager/Laws.antt =====
-- The order of the handlers of algo/TickManager.hpp, and the end of the loop of main.cpp.
use boost_server_example.Base.{ℕ, zero, suc, ◌≡◌, refl, true, List, [], ◌∷◌, ◌++◌, none, some}
use boost_server_example.TickManager.{
  TickHandler, TickManager, run_handlers, tick, stop, add_tick_handler, main_loop,
}

module _ {ℓ} {S : Type ℓ} where
  run_handlers-append :
      (hs : List (TickHandler S)) (h : TickHandler S) (s : S)
      → run_handlers (hs ++ h ∷ []) s ≡ h.fn (run_handlers hs s)
  unfolding run_handlers
  run_handlers-append [] h s = refl
  run_handlers-append (g ∷ hs) h s = run_handlers-append hs h (g.fn s)

  -- A handler that is added runs once in each tick, after those added before it.
  pub tick-add_tick_handler :
      (tm : TickManager S) (h : TickHandler S) (s : S)
      → tick (add_tick_handler tm h) s ≡ h.fn (tick tm s)
  unfolding tick add_tick_handler
  tick-add_tick_handler tm h s = run_handlers-append tm.tick_handlers h s

  -- The loop ends exactly if the manager is stopped before it, and then with no tick: nothing in it
  -- stops the manager.
  pub main_loop_lem :
      (fuel : ℕ) (tm : TickManager S) (s : S)
      → (tm.need_server_run ≡ true → main_loop fuel tm s ≡ none)
        × (main_loop (suc fuel) (stop tm) s ≡ some s)
  unfolding main_loop stop
  main_loop_lem fuel tm s = (go fuel s, refl)
    where
      go : (n : ℕ) (s : S) → tm.need_server_run ≡ true → main_loop n tm s ≡ none
      go zero s h = refl
      go (suc n) s h = rw (h, main_loop) (go n (tick tm s) h)
