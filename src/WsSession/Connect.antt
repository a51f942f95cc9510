-- ===== src/WsSession/Connect.antt =====
-- `waitForConnect` of net/websockets/WsSession.cpp. The clock, in milliseconds, and `ws_.is_open()`
-- are sequences: what the look with a number sees.
use boost_server_example.Base.{
  ℕ, zero, suc, ◌+◌, ◌≤◌, ◌<◌, ◌≡◌, ◌⊎◌, inl, inr, refl, Bool, true, not, ◌&&◌, Option, none, some,
  ltb, if◌then◌else◌, arith, Bool-cases, ltb→lt,
}

module _ (is_open : ℕ → Bool) (clock : ℕ → ℕ) where
  -- The loop from the look `i` on, and the last look behind it; `none`: the fuel ran out.
  unfoldable pub wait_loop : ℕ → ℕ → ℕ → Option Bool
  wait_loop zero end_time i = none
  wait_loop (suc fuel) end_time i =
      let rest = wait_loop fuel end_time (i + 1) in
      if not (is_open i) && ltb (clock i) end_time then rest else some (is_open (i + 1))

  -- The end is counted from the look 0 at the clock.
  unfoldable pub wait_for_connect : ℕ → ℕ → Option Bool
  unfolding wait_loop
  wait_for_connect fuel max_wait_ms = wait_loop fuel (clock 0 + max_wait_ms) 1

  -- Where the loop stops: the session is open there, or the time is over.
  abbrev pub Stops : ℕ → ℕ → Type 0
  Stops end_time i = (is_open i ≡ true) ⊎ (end_time ≤ clock i)

  -- The clock goes on by a millisecond in each round, as the sleep is that long at least.
  abbrev pub Sleeps : Type 0
  Sleeps = (j : ℕ) → clock j + 1 ≤ clock (j + 1)

  abbrev pub Ends : Option Bool → ℕ → ℕ → Type 0
  Ends result end_time i =
      (last : ℕ) × (i ≤ last) × Stops end_time last × (result ≡ some (is_open (last + 1)))

  wait_loop-Ends :
      (fuel end_time i : ℕ)
      → Sleeps
      → 0 < fuel
      → end_time < fuel + clock i
      → Ends (wait_loop fuel end_time i) end_time i
  unfolding wait_loop
  wait_loop-Ends zero end_time i slept some_fuel enough = absurd (omega arith)
  wait_loop-Ends (suc fuel) end_time i slept some_fuel enough = elim (Bool-cases (is_open i)) [
    | inl opened ↦ (i, omega arith, inl opened, rw opened refl)
    | inr shut ↦ elim (Bool-cases (ltb (clock i) end_time)) [
      | inl early ↦
          let lt = ltb→lt (clock i) end_time early in
          let (last, above, stops, e) =
            wait_loop-Ends fuel end_time (i + 1) slept (omega arith) (omega (arith, slept i)) in
          (last, omega arith, stops, rw (shut, early) e)
      | inr late ↦ (i, omega arith, inr (ground arith), rw (shut, late) refl)
    ]
  ]

  -- If the clock goes on by a millisecond at least in each round, the wait ends within one round for
  -- each millisecond of the limit and one more: at a look that sees the session open, or once the
  -- time is over. The result is what the next look sees.
  pub wait_for_connect-Ends :
      (fuel max_wait_ms : ℕ)
      → Sleeps
      → max_wait_ms < fuel
      → Ends (wait_for_connect fuel max_wait_ms) (clock 0 + max_wait_ms) 1
  unfolding wait_for_connect
  wait_for_connect-Ends fuel max_wait_ms slept enough =
      wait_loop-Ends fuel (clock 0 + max_wait_ms) 1 slept (omega arith) (omega (arith, slept 0))
