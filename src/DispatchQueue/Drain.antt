-- ===== src/DispatchQueue/Drain.antt =====
-- `DispatchQueued` of algo/DispatchQueue.cpp runs what is queued, in order, and ends.
use boost_server_example.Base.Result.{Result, ok, err, ◌>>=◌, >>=-eq-ok, ok-injective}
use boost_server_example.Base.{
  ℕ, zero, suc, ◌<◌, ◌≡◌, refl, sym, subst, ap, ◌∙◌, Bool, true, false, not, ◌&&◌, List, [], ◌∷◌,
  ltb, if◌then◌else◌, length, arith, Bool-cases, inl, inr,
}
use boost_server_example.DispatchQueue.{
  DispatchQueue, Runner, dispatch_one, has_more, take_one, dispatch_queued,
}

-- The queue is a part of the state, and no callback that returns has reached it.
pub record IsLawful {ℓ} {A S : Type ℓ} (r : Runner A S) : Type ℓ where
  pub queue-with_queue : (s : S) (q : DispatchQueue A) → r.queue (r.with_queue s q) ≡ q
  pub queue-call : (a : A) (s t : S) → r.call a s ≡ ok t → r.queue t ≡ r.queue s

module _ {ℓ} {A S : Type ℓ} (r : Runner A S) where
  open r use {queue, with_queue, call}

  -- Take the callbacks off the queue one by one and call each; stop at the first fault.
  abbrev pub call_all : DispatchQueue A → List A → S → Result S
  call_all q [] s = ok s
  call_all q (a ∷ rest) s =
      call a (with_queue s (record q { callbacks_queue = rest })) >>= λ t. call_all q rest t

if_on {ℓ} : {A : Type ℓ} (b : Bool) (x y : A) → b ≡ false → (if not b then x else y) ≡ x
if_on b x y h = ground arith

more-cons : (n : ℕ) (b : Bool) → b ≡ false → (ltb 0 (suc n) && not b) ≡ true
more-cons n b h = ground arith

module _ {ℓ} {A S : Type ℓ} (r : Runner A S) (lawful : IsLawful r) where
  open r use {queue, with_queue, call}

  abbrev Holds : DispatchQueue A → List A → S → Type ℓ
  Holds q xs s = queue s ≡ record q { callbacks_queue = xs }

  abbrev called : DispatchQueue A → A → List A → S → Result S
  called q a rest s = call a (with_queue s (record q { callbacks_queue = rest }))

  called-Holds :
      (q : DispatchQueue A) (a : A) (rest : List A) (s t : S)
      → called q a rest s ≡ ok t
      → Holds q rest t
  called-Holds q a rest s t e = lawful.queue-call a _ t e ∙ lawful.queue-with_queue s _

  one-nil : (q : DispatchQueue A) (s : S) → Holds q [] s → dispatch_one r s ≡ ok s
  unfolding dispatch_one
  one-nil q s e = rw e (elim (Bool-cases q.quit) [ inl quits ↦ rw quits | inr on ↦ rw on ])

  one-cons :
      (q : DispatchQueue A) (a : A) (rest : List A) (s : S)
      → Holds q (a ∷ rest) s
      → q.quit ≡ false
      → dispatch_one r s ≡ called q a rest s
  unfolding dispatch_one
  one-cons q a rest s e on = rw (e, take_one, e) (if_on q.quit (called q a rest s) (ok s) on)

  one-quit : (s : S) → (queue s).quit ≡ true → dispatch_one r s ≡ ok s
  unfolding dispatch_one
  one-quit s e = rw e

  has_more-nil : (q : DispatchQueue A) (s : S) → Holds q [] s → has_more r s ≡ false
  has_more-nil q s e = rw e

  has_more-cons :
      (q : DispatchQueue A) (x : A) (xs : List A) (s : S)
      → Holds q (x ∷ xs) s
      → q.quit ≡ false
      → has_more r s ≡ true
  has_more-cons q x xs s e on = rw e (more-cons (length xs) q.quit on)

  -- The rest of the loop, behind a call.
  turn : ℕ → S → Result S
  turn fuel t = let rest = dispatch_queued r fuel t in if has_more r t then rest else ok t

  turn-eq :
      (fuel : ℕ) (m : Result S) (spec : S → Result S)
      → ((t : S) → m ≡ ok t → turn fuel t ≡ spec t)
      → (m >>= turn fuel) ≡ (m >>= spec)
  turn-eq fuel (ok t) spec h = h t refl
  turn-eq fuel (err e) spec h = refl

  turn-last : (fuel : ℕ) (t : S) → has_more r t ≡ false → turn fuel t ≡ ok t
  unfolding turn
  turn-last fuel t h = rw h

  turn-more : (fuel : ℕ) (t : S) → has_more r t ≡ true → turn fuel t ≡ dispatch_queued r fuel t
  unfolding turn
  turn-more fuel t h = rw h

  round-cons :
      (fuel : ℕ) (q : DispatchQueue A) (a : A) (rest : List A) (s : S)
      → Holds q (a ∷ rest) s
      → q.quit ≡ false
      → dispatch_queued r (suc fuel) s ≡ (called q a rest s >>= turn fuel)
  unfolding dispatch_queued turn
  round-cons fuel q a rest s e on = rw (one-cons q a rest s e on)

  drain :
      (fuel : ℕ) (q : DispatchQueue A) (xs : List A) (s : S)
      → Holds q xs s
      → q.quit ≡ false
      → length xs < fuel
      → dispatch_queued r fuel s ≡ call_all r q xs s
  drain zero q xs s e on h = absurd (omega arith)
  drain (suc fuel) q [] s e on h = unfold dispatch_queued in rw (one-nil q s e, has_more-nil q s e)
  drain (suc fuel) q (a ∷ []) s e on h =
      round-cons fuel q a [] s e on
      ∙ turn-eq fuel (called q a [] s) (call_all r q [])
          λ t m. turn-last fuel t (has_more-nil q t (called-Holds q a [] s t m))
  drain (suc fuel) q (a ∷ b ∷ rest) s e on h =
      round-cons fuel q a (b ∷ rest) s e on
      ∙ turn-eq fuel (called q a (b ∷ rest) s) (call_all r q (b ∷ rest)) λ t m.
        let holds = called-Holds q a (b ∷ rest) s t m in
        turn-more fuel t (has_more-cons q b rest t holds on)
        ∙ drain fuel q (b ∷ rest) t holds on (omega arith)

  call_all-Holds :
      (q : DispatchQueue A) (xs : List A) (s t : S)
      → Holds q xs s
      → call_all r q xs s ≡ ok t
      → Holds q [] t
  call_all-Holds q [] s t e m = subst (Holds q []) (ok-injective m) e
  call_all-Holds q (a ∷ rest) s t e m =
      let (u, first, later) = >>=-eq-ok (called q a rest s) (call_all r q rest) m in
      call_all-Holds q rest u t (called-Holds q a rest s u first) later

  -- With one round for each callback, and one more, `dispatch_queued` ends: it has called the
  -- callbacks that were queued, the oldest first, each once, up to the first that faults. If none
  -- does, the queue is empty then. On a queue that was told to quit it does nothing.
  pub dispatch_queued-call_all :
      (fuel : ℕ) (s : S)
      → length (queue s).callbacks_queue < fuel
      → ((queue s).quit ≡ false
          → dispatch_queued r fuel s ≡ call_all r (queue s) (queue s).callbacks_queue s)
        × ((queue s).quit ≡ false
            → (t : S) → dispatch_queued r fuel s ≡ ok t
            → (queue t).callbacks_queue ≡ [])
        × ((queue s).quit ≡ true → dispatch_queued r fuel s ≡ ok s)
  dispatch_queued-call_all fuel s h = (runs, empties, quits fuel h)
    where
      runs :
          (queue s).quit ≡ false
          → dispatch_queued r fuel s ≡ call_all r (queue s) (queue s).callbacks_queue s
      runs on = drain fuel (queue s) (queue s).callbacks_queue s refl on h

      empties :
          (queue s).quit ≡ false
          → (t : S) → dispatch_queued r fuel s ≡ ok t
          → (queue t).callbacks_queue ≡ []
      empties on t m =
          ap (λ q. q.callbacks_queue)
            (call_all-Holds (queue s) (queue s).callbacks_queue s t refl (sym (runs on) ∙ m))

      quits :
          (n : ℕ)
          → length (queue s).callbacks_queue < n
          → (queue s).quit ≡ true
          → dispatch_queued r n s ≡ ok s
      quits zero lt e = absurd (omega arith)
      quits (suc n) lt e = unfold dispatch_queued in rw (one-quit s e) (ground arith)
