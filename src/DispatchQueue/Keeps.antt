-- ===== src/DispatchQueue/Keeps.antt =====
-- What every callback keeps, `DispatchQueued` of algo/DispatchQueue.cpp keeps, with any fuel.
use boost_server_example.Base.{ℕ, zero, suc, ◌≡◌, subst, List, [], ◌∷◌, Bool-cases, inl, inr}
use boost_server_example.Base.Result.{ok, >>=-eq-ok, ok-injective}
use boost_server_example.DispatchQueue.{
  DispatchQueue, Runner, dispatch_one, has_more, take_one, dispatch_queued,
}

module _ {ℓ} {A S : Type ℓ} (r : Runner A S) (Kept : S → Type ℓ)
    (with_queue-Kept : (s : S) (q : DispatchQueue A) → Kept s → Kept (r.with_queue s q))
    (call-Kept : (a : A) (s t : S) → r.call a s ≡ ok t → Kept s → Kept t) where
  take_one-Kept : (xs : List A) (s t : S) → take_one r xs s ≡ ok t → Kept s → Kept t
  unfolding take_one
  take_one-Kept [] s t e k = subst Kept (ok-injective e) k
  take_one-Kept (a ∷ rest) s t e k =
      call-Kept a _ t e (with_queue-Kept s (record (r.queue s) { callbacks_queue = rest }) k)

  dispatch_one-Kept : (s t : S) → dispatch_one r s ≡ ok t → Kept s → Kept t
  unfolding dispatch_one
  dispatch_one-Kept s t e k = elim (Bool-cases (r.queue s).quit) [
    | inl quits ↦ subst Kept (ok-injective (rw quits at e)) k
    | inr on ↦ take_one-Kept (r.queue s).callbacks_queue s t (rw on at e) k
  ]

  pub dispatch_queued-Kept :
      (fuel : ℕ) (s t : S) → dispatch_queued r fuel s ≡ ok t → Kept s → Kept t
  unfolding dispatch_queued
  dispatch_queued-Kept zero s t e k = cc
  dispatch_queued-Kept (suc fuel) s t e k =
      let (mid, first, later) = >>=-eq-ok (dispatch_one r s) _ e in
      let kept = dispatch_one-Kept s mid first k in
      elim (Bool-cases (has_more r mid)) [
        | inl more ↦ dispatch_queued-Kept fuel mid t (rw more at later) kept
        | inr done ↦ subst Kept (ok-injective (rw done at later)) kept
      ]
