-- ===== src/DispatchQueue/Workers.antt =====
-- The worker threads of algo/DispatchQueue.cpp. A thread holds the lock but while it waits for the
-- condition and while it runs a callback, so between these a thread makes one step.
mod Tests
use boost_server_example.Base.{
  ℕ, zero, suc, ◌≡◌, refl, sym, ap, ◌∙◌, Bool, true, false, List, [], ◌∷◌, ◌++◌, map, Option, none,
  some, if◌then◌else◌, get_elem?, set?, append_assoc, append-nil, arith, Bool-cases, inl, inr,
}
use boost_server_example.DispatchQueue.{DispatchQueue, dispatch, signal_quit}

pub data Worker {ℓ} (A : Type ℓ) : Type ℓ where
  waiting stopped : Worker A
  running : A → Worker A

module _ {ℓ} {A : Type ℓ} where
  -- A waiting thread that has the lock: the body of the loop as far as the callback.
  take_front : DispatchQueue A → List A → DispatchQueue A × Worker A
  take_front q [] = (q, waiting)
  take_front q (a ∷ rest) = (record q { callbacks_queue = rest }, running a)

  -- The next step of a thread in `dispatch_loop`, by where it is.
  unfoldable pub worker_step : DispatchQueue A → Worker A → DispatchQueue A × Worker A
  unfolding take_front
  worker_step q waiting = if q.quit then (q, stopped) else take_front q q.callbacks_queue
  worker_step q (running a) = if q.quit then (q, stopped) else (q, waiting)
  worker_step q stopped = (q, stopped)

  -- The destructor joins the threads one after another: it waits for the next step of each, which
  -- is its last if the queue was told to quit.
  join_threads : DispatchQueue A → List (Worker A) → DispatchQueue A × List (Worker A)
  unfolding worker_step
  join_threads q [] = (q, [])
  join_threads q (w ∷ ws) =
      let (q', w') = worker_step q w in let (q'', ws') = join_threads q' ws in (q'', w' ∷ ws')

  -- The destructor.
  unfoldable pub destroy : DispatchQueue A → List (Worker A) → DispatchQueue A × List (Worker A)
  unfolding join_threads signal_quit
  destroy q ws = join_threads (signal_quit q) ws

-- A queue and its threads. `started` are the callbacks that threads have begun to run, `pushed` those
-- that were dispatched, the first ones first.
pub record Pool {ℓ} (A : Type ℓ) : Type ℓ where
  pub queue : DispatchQueue A
  pub workers : List (Worker A)
  pub started : List A
  pub pushed : List A

module _ {ℓ} {A : Type ℓ} where
  -- The callback that a step began to run.
  abbrev pub begun : Worker A → Worker A → List A
  begun waiting (running a) = a ∷ []
  begun _ _ = []

  pub data Move (p : Pool A) : Pool A → Type ℓ where
    dispatches :
        (a : A) → Move p (record p { queue = dispatch p.queue a; pushed = p.pushed ++ a ∷ [] })
    steps :
        (i : ℕ) (w : Worker A) (ws : List (Worker A))
        → get_elem? p.workers i ≡ some w
        → set? p.workers i (worker_step p.queue w).1 ≡ some ws
        → Move p (record {
          queue = (worker_step p.queue w).0;
          workers = ws;
          started = p.started ++ begun w (worker_step p.queue w).1;
          pushed = p.pushed;
        })
    quits : Move p (record p { queue = signal_quit p.queue })

  pub data Moves (p : Pool A) : Pool A → Type ℓ where
    here : Moves p p
    next : {mid after : Pool A} → Moves p mid → Move mid after → Moves p after

  -- Nothing is lost or doubled.
  abbrev pub InOrder : Pool A → Type ℓ
  InOrder p = p.pushed ≡ p.started ++ p.queue.callbacks_queue

  take_front-InOrder :
      (q : DispatchQueue A) (xs : List A)
      → q.callbacks_queue ≡ xs
      → xs ≡ begun waiting (take_front q xs).1 ++ (take_front q xs).0.callbacks_queue
  unfolding take_front
  take_front-InOrder q [] e = sym e
  take_front-InOrder q (a ∷ rest) e = refl

  waiting-InOrder :
      (quit : Bool) (q : DispatchQueue A)
      → q.callbacks_queue
        ≡ begun waiting (if quit then (q, stopped) else take_front q q.callbacks_queue).1
          ++ (if quit then (q, stopped) else take_front q q.callbacks_queue).0.callbacks_queue
  waiting-InOrder true q = refl
  waiting-InOrder false q = take_front-InOrder q q.callbacks_queue refl

  step-InOrder :
      (q : DispatchQueue A) (w : Worker A)
      → q.callbacks_queue ≡ begun w (worker_step q w).1 ++ (worker_step q w).0.callbacks_queue
  unfolding worker_step
  step-InOrder q waiting = waiting-InOrder q.quit q
  step-InOrder q (running a) = ground arith
  step-InOrder q stopped = refl

  Move-InOrder : {p after : Pool A} → Move p after → InOrder p → InOrder after
  unfolding dispatch signal_quit
  Move-InOrder {p} (dispatches a) e =
      ap (λ xs. xs ++ a ∷ []) e ∙ append_assoc p.started p.queue.callbacks_queue (a ∷ [])
  Move-InOrder {p} (steps i w ws f g) e =
      e
      ∙ ap (◌++◌ p.started) (step-InOrder p.queue w)
      ∙ sym (
          append_assoc p.started (begun w (worker_step p.queue w).1)
            (worker_step p.queue w).0.callbacks_queue)
  Move-InOrder quits e = e

  -- The callbacks that threads have begun to run, in the order in which they have, and then those
  -- still queued are those that were dispatched: if this holds at first, it holds whatever steps the
  -- threads, the callers of `dispatch` and the destructor make. None is lost, run twice or overtaken.
  pub Moves-InOrder : {p after : Pool A} → Moves p after → InOrder p → InOrder after
  Moves-InOrder here e = e
  Moves-InOrder (next r m) e = Move-InOrder m (Moves-InOrder r e)

  step-quit : (q : DispatchQueue A) (w : Worker A) → q.quit ≡ true → worker_step q w ≡ (q, stopped)
  unfolding worker_step
  step-quit q waiting h = rw h refl
  step-quit q (running a) h = rw h refl
  step-quit q stopped h = refl

  begun_stopped : (w : Worker A) → begun w stopped ≡ []
  begun_stopped waiting = refl
  begun_stopped (running a) = refl
  begun_stopped stopped = refl

  Move-quit :
      {p after : Pool A}
      → Move p after
      → p.queue.quit ≡ true
      → (after.queue.quit ≡ true) × (after.started ≡ p.started)
  unfolding dispatch signal_quit
  Move-quit (dispatches a) h = (h, refl)
  Move-quit {p} (steps i w ws f g) h =
      rw (step-quit p.queue w h, begun_stopped w) (h, append-nil p.started)
  Move-quit quits h = (refl, refl)

  join_threads-quit :
      (q : DispatchQueue A) (ws : List (Worker A))
      → q.quit ≡ true
      → join_threads q ws ≡ (q, map (λ w. stopped) ws)
  unfolding join_threads
  join_threads-quit q [] h = refl
  join_threads-quit q (w ∷ ws) h = rw (step-quit q w h, join_threads-quit q ws h) refl

  -- Once the queue was told to quit, no thread begins another callback, and a thread that is waiting,
  -- or was running one, leaves its loop with its next step. The destructor, whenever it comes, tells
  -- the queue to quit and ends with every thread stopped, and the callbacks still queued are not run.
  pub quit_stops :
      {p after : Pool A}
      → Moves p after
      → p.queue.quit ≡ true
      → (after.started ≡ p.started)
        × ((i : ℕ) (w : Worker A)
            → get_elem? after.workers i ≡ some w
            → worker_step after.queue w ≡ (after.queue, stopped))
        × ((q : DispatchQueue A) (ws : List (Worker A))
            → destroy q ws ≡ (record q { quit = true }, map (λ w. stopped) ws))
  quit_stops {p} {after} r h =
      let (quit, same) = go r in
      (
        same,
        λ i w e. step-quit after.queue w quit,
        λ q ws. unfold destroy in join_threads-quit (record q { quit = true }) ws refl,
      )
    where
      go : {mid : Pool A} → Moves p mid → (mid.queue.quit ≡ true) × (mid.started ≡ p.started)
      go here = (h, refl)
      go (next r m) =
          let (quit, same) = go r in let (quit', same') = Move-quit m quit in (quit', same' ∙ same)
