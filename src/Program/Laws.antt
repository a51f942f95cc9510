-- ===== src/Program/Laws.antt =====
-- How `main` of main.cpp goes on.
use boost_server_example.Base.{
  ℕ, zero, suc, ◌<◌, ◌+◌, ◌≡◌, ◌⊎◌, inl, inr, refl, true, List, [], ◌∷◌, arith,
}
use boost_server_example.Base.Text.{codes}
use boost_server_example.Base.Result.{Result-cases, Result, Fault, ok, err, >>=-eq-ok, ok-injective}
use boost_server_example.Program.{Around, Running, Ended, runs, handle_tick, ticker, loop}
use boost_server_example.TickManager.{tick}
use boost_server_example.WsListener.{Setup, NetworkManager, handle_network, run, new_listener}
use boost_server_example.WsServer.{Thread, new_server, handle_incoming_messages}
use boost_server_example.WsCallbacks.{dispatch_session}
use boost_server_example.WsServer.Blame.{Faults, handle_incoming_messages_returns}
use boost_server_example.WsServer.Owned.{WellFormed}
use boost_server_example.WsServer.System.{
  Reach, later, handles_messages, Moves, Reach-Moves, Reach-WellFormed,
}

module _ {Time : Type 0} (around : Around Time) where
  open around use {dates, acceptor, network, rounds, fuel, is_open}

  -- A tick is one run of the handler.
  pub tick-ticker : (r : Running) → tick (ticker around) (ok r) ≡ handle_tick around r
  unfolding tick ticker
  tick-ticker r = refl

  -- The dispatch of some registered session's queue faults, in the tick that follows on `r`.
  abbrev pub DispatchFaults : Running → Type 0
  DispatchFaults r =
      let server = (network r.ticks r.manager).ws_server in
      Faults (λ p s. dispatch_session dates rounds fuel (is_open r.ticks p) s) server.store
        server.sessions

  -- `after n` is the program after `n` ticks, the first of which is the tick `begin`. It runs on: after
  -- `ticks` ticks it runs, in a state that can be reached; or it ran after fewer, and the next tick
  -- ended it, by a dispatch that faults.
  abbrev pub RunsFrom : ℕ → (ℕ → Result Ended) → ℕ → Type 0
  RunsFrom begin after ticks =
      ((r : Running) × (after ticks ≡ ok (runs r))
        × (r.ticks ≡ begin + ticks)
        × Reach dates r.manager.ws_server
        × WellFormed r.manager.ws_server)
      ⊎ ((n : ℕ) × (r : Running) × (f : Fault) × (n < ticks)
          × (after n ≡ ok (runs r))
          × DispatchFaults r
          × (after ticks ≡ err f))

  abbrev pub RunsOn : (ℕ → Result Ended) → ℕ → Type 0
  RunsOn after ticks = RunsFrom 0 after ticks

  -- The threads of the network do nothing to the server but accept clients and run handlers of
  -- sessions and methods of the server.
  abbrev pub Networks : Type 0
  Networks = (n : ℕ) (nm : NetworkManager) → Moves dates nm.ws_server (network n nm).ws_server

  handle_tick-Reach :
      (r next : Running)
      → Networks
      → Reach dates r.manager.ws_server
      → handle_tick around r ≡ ok next
      → Reach dates next.manager.ws_server × (next.ticks ≡ r.ticks + 1)
  unfolding handle_tick handle_network
  handle_tick-Reach r next acts w e =
      let (nm, e1, f1) =
        >>=-eq-ok (handle_network dates rounds fuel (is_open r.ticks) (network r.ticks r.manager)) _
          e in
      let (server, e2, f2) =
        >>=-eq-ok
          (handle_incoming_messages dates rounds fuel (is_open r.ticks)
            (network r.ticks r.manager).ws_server)
          _ e1 in
      let reached =
        later (Reach-Moves dates w (acts r.ticks r.manager))
          (handles_messages rounds fuel (is_open r.ticks) e2) in
      rw (← ok-injective f1, ← ok-injective f2) (reached, refl)

  handle_tick-faults :
      (r : Running) (f : Fault)
      → Networks
      → Reach dates r.manager.ws_server
      → handle_tick around r ≡ err f
      → DispatchFaults r
  unfolding handle_tick handle_network
  handle_tick-faults r f acts w e =
      let server = (network r.ticks r.manager).ws_server in
      let good = Reach-WellFormed dates (Reach-Moves dates w (acts r.ticks r.manager)) in
      elim (handle_incoming_messages_returns dates rounds fuel (is_open r.ticks) server good) [
        | inr fault ↦ fault
        | inl (after, returns) ↦
            let returned : handle_tick around r
                ≡ ok (record {
                  ticks = r.ticks + 1;
                  manager = record (network r.ticks r.manager) { ws_server = after };
                }) =
              rw returns refl in
            absurd (cc (returned, e))
      ]

  RunsFrom-suc :
      (r next : Running) (loops : ℕ)
      → handle_tick around r ≡ ok next
      → next.ticks ≡ r.ticks + 1
      → RunsFrom next.ticks (λ n. loop around n next) loops
      → RunsFrom r.ticks (λ n. loop around n r) (suc loops)
  unfolding loop ticker
  RunsFrom-suc r next loops e one (inl (q, runs_q, count, w, good)) =
      inl (q, rw (tick-ticker r, e) runs_q, omega arith, w, good)
  RunsFrom-suc r next loops e one (inr (n, q, f, few, runs_q, faults, ends)) =
      inr
        (suc n, q, f, omega arith, rw (tick-ticker r, e) runs_q, faults, rw (tick-ticker r, e) ends)

  pub loop-RunsFrom :
      (loops : ℕ) (r : Running)
      → Networks
      → Reach dates r.manager.ws_server
      → RunsFrom r.ticks (λ n. loop around n r) loops
  unfolding loop ticker
  loop-RunsFrom zero r acts w = inl (r, refl, omega arith, w, Reach-WellFormed dates w)
  loop-RunsFrom (suc loops) r acts w = elim (Result-cases (handle_tick around r)) [
    | inl (f, e) ↦
        inr
          (0, r, f, omega arith, refl, handle_tick-faults r f acts w e, rw (tick-ticker r, e) refl)
    | inr (next, e) ↦
        let (good, one) = handle_tick-Reach r next acts w e in
        RunsFrom-suc r next loops e one (loop-RunsFrom loops next acts good)
  ]

  abbrev setup : Setup
  setup = acceptor (codes "127.0.0.1") 8080

  abbrev one_thread : List Thread
  one_thread = record { joinable = true } ∷ []

  abbrev begun : NetworkManager
  begun = record {
    ws_server = record new_server { ws_threads = one_thread };
    ws_listener = run (new_listener setup);
  }
