-- ===== src/DispatchQueue/Workers/Tests.antt =====
-- A run of two worker threads of algo/DispatchQueue.cpp.
use boost_server_example.Base.{ℕ, ◌≡◌, refl, true, false, List, [], ◌∷◌, map, some, get_elem?}
use boost_server_example.DispatchQueue.{DispatchQueue}
use boost_server_example.DispatchQueue.Workers.{
  Worker, waiting, running, stopped, worker_step, destroy, Pool, Moves, here, next, steps, InOrder,
  Moves-InOrder, quit_stops,
}

abbrev idle : Pool ℕ
idle = record {
  queue = record { name = []; threads = 2; callbacks_queue = 4 ∷ 5 ∷ []; quit = false };
  workers = waiting ∷ waiting ∷ [];
  started = [];
  pushed = 4 ∷ 5 ∷ [];
}

-- The second thread has taken the first callback.
abbrev busy : Pool ℕ
busy = record {
  queue = record { name = []; threads = 2; callbacks_queue = 5 ∷ []; quit = false };
  workers = waiting ∷ running 4 ∷ [];
  started = 4 ∷ [];
  pushed = 4 ∷ 5 ∷ [];
}

idle-busy : Moves idle busy
unfolding worker_step
idle-busy = next here (steps 1 waiting (waiting ∷ running 4 ∷ []) refl refl)

Moves-InOrder_example : InOrder busy
Moves-InOrder_example = Moves-InOrder idle-busy refl

abbrev quitting : Pool ℕ
quitting = record busy { queue = record busy.queue { quit = true } }

abbrev left : Pool ℕ
left = record quitting { workers = stopped ∷ running 4 ∷ [] }

quitting-left : Moves quitting left
unfolding worker_step
quitting-left = next here (steps 0 waiting (stopped ∷ running 4 ∷ []) refl refl)

quit_stops_example :
    (left.started ≡ quitting.started)
    × ((i : ℕ) (w : Worker ℕ)
        → get_elem? left.workers i ≡ some w
        → worker_step left.queue w ≡ (left.queue, stopped))
    × ((q : DispatchQueue ℕ) (ws : List (Worker ℕ))
        → destroy q ws ≡ (record q { quit = true }, map (λ w. stopped) ws))
quit_stops_example = quit_stops quitting-left refl
