-- ===== src/WsServer/Blame.antt =====
-- When `handleIncomingMessages` of net/websockets/WsServer.cpp does not return: a queue that faults.
use boost_server_example.Base.{
  ℕ, ◌≡◌, ◌⊎◌, inl, inr, refl, sym, ap, subst, ◌∙◌, Bool, true, false, List, [], ◌∷◌, none, some,
  get_elem?, ◌==◌, Bool-cases, arith,
}
use boost_server_example.Base.Result.{Result, Fault, ok, err, Result-cases}
use boost_server_example.SessionManager.{Sessions, same_id}
use boost_server_example.SessionManager.Laws.{Valid, same_id_refl, same_id-eq}
use boost_server_example.WsCallbacks.{Dates, dispatch_session}
use boost_server_example.WsServer.{WsServer, handle_incoming_messages}
use boost_server_example.WsServer.Owned.{
  Owned, registered, registered-cons, registered-absent, WellFormed, some-injective,
}
use boost_server_example.WsServer.Sending.{handle_incoming_messages_lem}
use boost_server_example.WsSession.{WsSession, Step}

module _ (handler : ℕ → WsSession → Result Step) (store : List WsSession) where
  -- A session of the registry for which the handler faults.
  abbrev pub Faults : Sessions ℕ → Type 0
  Faults m =
      (p : ℕ) × (s : WsSession) × (f : Fault) × (get_elem? store p ≡ some s)
      × (registered m s.id p ≡ true)
      × (handler p s ≡ err f)

  abbrev Returns : Sessions ℕ → Type 0
  Returns m =
      (p : ℕ) (s : WsSession)
      → get_elem? store p ≡ some s
      → registered m s.id p ≡ true
      → (step : Step) × (handler p s ≡ ok step)

  Faults-cons :
      (k : List ℕ) (q : ℕ) (rest : Sessions ℕ)
      → Valid ((k, some q) ∷ rest)
      → Faults rest
      → Faults ((k, some q) ∷ rest)
  Faults-cons k q rest v (p, s, f, e, reg, h) = (p, s, f, e, there, h)
    where
      there : registered ((k, some q) ∷ rest) s.id p ≡ true
      there = elim (Bool-cases (same_id k s.id)) [
        | inr differs ↦ registered-cons k q rest s.id p ∙ rw differs reg
        | inl same ↦
            let none_left : registered rest s.id p ≡ false =
              subst (λ j. registered rest j p ≡ false) (same_id-eq k s.id same)
                (registered-absent rest k p v.0) in
            absurd (cc (none_left, reg))
      ]

  Returns-cons :
      (k : List ℕ) (q : ℕ) (rest : Sessions ℕ) (t : WsSession) (step : Step)
      → get_elem? store q ≡ some t
      → handler q t ≡ ok step
      → Returns rest
      → Returns ((k, some q) ∷ rest)
  Returns-cons k q rest t step found h all p s e reg = elim (Bool-cases (same_id k s.id)) [
    | inl same ↦
        let here : (q == p) ≡ true = sym (registered-cons k q rest s.id p ∙ rw same refl) ∙ reg in
        let one : q ≡ p = ground arith in
        let found' : get_elem? store p ≡ some t =
          subst (λ j. get_elem? store j ≡ some t) one found in
        let alike : t ≡ s = some-injective (sym found' ∙ e) in
        (step, subst (λ u. handler p u ≡ ok step) alike (subst (λ j. handler j t ≡ ok step) one h))
    | inr differs ↦ all p s e (sym (registered-cons k q rest s.id p ∙ rw differs refl) ∙ reg)
  ]

  scan : (m : Sessions ℕ) → Valid m → Owned m store → Returns m ⊎ Faults m
  scan [] v o = inl λ p s e reg. absurd (cc (registered-absent [] s.id p refl, reg))
  scan ((k, none) ∷ rest) v o = elim o [ ]
  scan ((k, some q) ∷ rest) v ((t, found, named), o) = elim (Result-cases (handler q t)) [
    | inl (f, h) ↦ inr (
      q,
      t,
      f,
      found,
      registered-cons k q rest t.id q ∙ rw (named, same_id_refl k) (ground arith),
      h,
    )
    | inr (step, h) ↦ elim (scan rest v.1 o) [
      | inl all ↦ inl (Returns-cons k q rest t step found h all)
      | inr fault ↦ inr (Faults-cons k q rest v fault)
    ]
  ]

or_stay : WsSession → Result Step → Step
or_stay s (ok step) = step
or_stay s (err f) = (s, [])

-- On a well-formed server `handleIncomingMessages` returns, or the dispatch of the queue of some
-- registered session faults.
pub handle_incoming_messages_returns :
    {Time : Type 0} (dates : Dates Time) (rounds fuel : ℕ) (is_open : ℕ → Bool) (server : WsServer)
    → WellFormed server
    → ((after : WsServer) × (handle_incoming_messages dates rounds fuel is_open server ≡ ok after))
      ⊎ Faults
          (λ p s. dispatch_session dates rounds fuel (is_open p) s)
          server.store
          server.sessions
unfolding or_stay
handle_incoming_messages_returns dates rounds fuel is_open server w =
    let handler : ℕ → WsSession → Result Step =
      λ p s. dispatch_session dates rounds fuel (is_open p) s in
    elim (scan handler server.store server.sessions w.valid w.owned) [
      | inr fault ↦ inr fault
      | inl all ↦
          let (after, run, kept, calls, stores) =
            handle_incoming_messages_lem dates rounds fuel is_open server
              (λ p s. or_stay s (handler p s)) w
              λ p s e reg. let (step, h) = all p s e reg in h ∙ ap ok (sym (ap (or_stay s) h)) in
          inl (after, run)
    ]
