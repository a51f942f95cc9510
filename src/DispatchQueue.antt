-- ===== src/DispatchQueue.antt =====
-- algo/DispatchQueue.hpp and .cpp. The lock is held through each method but for the call of a
-- callback, so a method is one step here. `Workers` has the threads, of which no queue of the
-- program is made with one.
pub mod Drain
pub mod Keeps
pub mod Workers
use boost_server_example.Base.Result.{Result, ok, err, ◌>>=◌, no_fuel}
use boost_server_example.Base.{
  ℕ, zero, suc, ◌≡◌, refl, Bool, true, false, not, ◌&&◌, List, [], ◌∷◌, ◌++◌, Option, none, some,
  Bytes, ltb, ◌==◌, if◌then◌else◌, length,
}

pub record DispatchQueue {ℓ} (A : Type ℓ) : Type ℓ where
  pub name : Bytes
  pub threads : ℕ
  pub callbacks_queue : List A
  pub quit : Bool

module _ {ℓ} {A : Type ℓ} where
  -- The constructor, without the start of the threads.
  unfoldable pub new_dispatch_queue : Bytes → ℕ → DispatchQueue A
  new_dispatch_queue name thread_cnt = record {
    name = name;
    threads = thread_cnt;
    callbacks_queue = [];
    quit = false;
  }

  -- Both overloads.
  unfoldable pub dispatch : DispatchQueue A → A → DispatchQueue A
  dispatch q op = record q { callbacks_queue = q.callbacks_queue ++ op ∷ [] }

  unfoldable pub pop_all : List A → List A
  pop_all [] = []
  pop_all (x ∷ xs) = pop_all xs

  pub pop_all-nil : (xs : List A) → pop_all xs ≡ []
  unfolding pop_all
  pop_all-nil [] = refl
  pop_all-nil (x ∷ xs) = pop_all-nil xs

  unfoldable pub clear : DispatchQueue A → DispatchQueue A
  unfolding pop_all
  clear q = record q { callbacks_queue = pop_all q.callbacks_queue }

  -- `isEmpty` asks for the threads.
  unfoldable pub is_empty : DispatchQueue A → Bool
  is_empty q = q.threads == 0

  -- The destructor's signal to the threads.
  unfoldable pub signal_quit : DispatchQueue A → DispatchQueue A
  signal_quit q = record q { quit = true }

-- A queue that is part of a state on which its callbacks work. A callback can fault.
pub record Runner {ℓ} (A : Type ℓ) (S : Type ℓ) : Type ℓ where
  pub queue : S → DispatchQueue A
  pub with_queue : S → DispatchQueue A → S
  pub call : A → S → Result S

module _ {ℓ} {A S : Type ℓ} (r : Runner A S) where
  open r use {queue, with_queue, call}

  -- The body of the loop of `DispatchQueued`, on the callbacks queued.
  take_one : List A → S → Result S
  take_one [] s = ok s
  take_one (a ∷ rest) s = call a (with_queue s (record (queue s) { callbacks_queue = rest }))

  pub dispatch_one : S → Result S
  unfolding take_one
  dispatch_one s = if not (queue s).quit then take_one (queue s).callbacks_queue s else ok s

  -- The test of the loop.
  abbrev pub has_more : S → Bool
  has_more s = ltb 0 (length (queue s).callbacks_queue) && not (queue s).quit

  -- `DispatchQueued`, a do-while loop. A fault of a callback leaves it.
  unfoldable pub dispatch_queued : ℕ → S → Result S
  unfolding dispatch_one
  dispatch_queued zero s = err no_fuel
  dispatch_queued (suc fuel) s = dispatch_one s >>= λ s'.
      let rest = dispatch_queued fuel s' in if has_more s' then rest else ok s'
