-- ===== src/WsServer/Each.antt =====
-- What the loops of net/websockets/WsServer.cpp over all sessions do to each of them.
use boost_server_example.Base.{
  ℕ, ◌≡◌, refl, sym, ap, ◌∙◌, ◌++◌, map, Option, append-nil, append_assoc, true, false, List, [],
  ◌∷◌, none, some, Bytes, get_elem?, ◌==◌, if◌then◌else◌, arith, Bool-cases, inl, inr,
}
use boost_server_example.Base.Result.{Result, ok}
use boost_server_example.SessionManager.{Sessions, same_id, get_sess_by_id, do_to_all_sessions}
use boost_server_example.SessionManager.Laws.{has, Valid, same_id-eq, same_id_refl}
use boost_server_example.WsServer.{WsServer, run_handler, run_all}
use boost_server_example.WsServer.Calls.{outward, run_handler-acts}
use boost_server_example.WsSession.{WsSession, Step, Call}
use boost_server_example.WsServer.Owned.{
  registered, Owned, Owned-step, some-injective, found_unique, registered-absent, registered-cons,
}

-- A handler that, on each registered session, does what `g` says, keeps the id and unregisters none.
abbrev pub Does :
    (ℕ → WsSession → Result Step) → (ℕ → WsSession → Step) → Sessions ℕ → List WsSession → Type 0
Does handler g m store =
    (p : ℕ) (s : WsSession)
    → get_elem? store p ≡ some s
    → registered m s.id p ≡ true
    → (handler p s ≡ ok (g p s)) × ((g p s).0.id ≡ s.id) × (outward (g p s).1 ≡ true)

-- The calls that `g` makes on the session `p` of a store.
abbrev pub calls_at : (ℕ → WsSession → Step) → ℕ → Option WsSession → List (ℕ × Call)
calls_at g p none = []
calls_at g p (some s) = map (λ c. (p, c)) (g p s).1

-- The calls that it makes on all registered sessions, in the order of the registry.
abbrev pub calls_of : (ℕ → WsSession → Step) → Sessions ℕ → List WsSession → List (ℕ × Call)
calls_of g [] store = []
calls_of g ((k, none) ∷ rest) store = calls_of g rest store
calls_of g ((k, some p) ∷ rest) store = calls_at g p (get_elem? store p) ++ calls_of g rest store

-- The entries behind an entry of the key `k`.
module _ (k : Bytes) (q : ℕ) (rest : Sessions ℕ) (fresh : has rest k ≡ false) where
  pub registered-own :
      (id : Bytes) (p : ℕ)
      → id ≡ k
      → (p == q) ≡ true
      → (registered ((k, some q) ∷ rest) id p ≡ true) × (registered rest id p ≡ false)
  registered-own id p named here = (
    rw (registered-cons k q rest id p, named, same_id_refl k) (ground arith),
    rw named (registered-absent rest k p fresh),
  )

  pub registered-other :
      (id : Bytes) (p : ℕ)
      → (p == q) ≡ false
      → registered ((k, some q) ∷ rest) id p ≡ registered rest id p
  registered-other id p there = registered-cons k q rest id p ∙ elim (Bool-cases (same_id k id)) [
    | inl same ↦ rw (same, ← same_id-eq k id same, registered-absent rest k p fresh) (ground arith)
    | inr differs ↦ rw differs refl
  ]

-- Calls made in two parts.
gather :
    {A : Type 0} (base one more' : List A) {mid all one' more : List A}
    → all ≡ mid ++ more
    → mid ≡ base ++ one
    → more ≡ more'
    → one' ≡ one
    → all ≡ base ++ (one' ++ more')
gather base one more' {more} e f h i =
    e
    ∙ ap (λ xs. xs ++ more) f
    ∙ append_assoc base one more
    ∙ ap (◌++◌ base) (ap (◌++◌ one) h ∙ ap (λ xs. xs ++ more') (sym i))

-- What a loop over the entries `m` does.
abbrev pub Done :
    (ℕ → WsSession → Result Step) → (ℕ → WsSession → Step) → Sessions ℕ → WsServer → Type 0
Done handler g m server =
    (after : WsServer) × (run_all handler m server ≡ ok after)
    × (after.sessions ≡ server.sessions)
    × (after.calls ≡ server.calls ++ calls_of g m server.store)
    × ((p : ℕ) (s : WsSession)
        → get_elem? server.store p ≡ some s
        → get_elem? after.store p ≡ some (if registered m s.id p then (g p s).0 else s))

module _ (handler : ℕ → WsSession → Result Step) (g : ℕ → WsSession → Step) where
  run_all-cons :
      (k : Bytes) (q : ℕ) (rest : Sessions ℕ) (server mid after : WsServer)
      → run_handler (handler q) q server ≡ ok mid
      → run_all handler rest mid ≡ ok after
      → run_all handler ((k, some q) ∷ rest) server ≡ ok after
  unfolding run_all do_to_all_sessions
  run_all-cons k q rest server mid after e f = rw (e, f) refl

  -- Once the first entry's session has run, the rest is as before.
  Does-rest :
      (k : Bytes) (q : ℕ) (rest : Sessions ℕ) (store mid : List WsSession) (t : WsSession)
      → has rest k ≡ false
      → t.id ≡ k
      → ((j : ℕ) → get_elem? mid j ≡ (if j == q then some t else get_elem? store j))
      → Does handler g ((k, some q) ∷ rest) store
      → Does handler g rest mid
  Does-rest k q rest store mid t fresh named change does p s e reg = elim (Bool-cases (p == q)) [
    | inl here ↦
        let same : t ≡ s = some-injective (rw here refl ∙ sym (change p) ∙ e) in
        let not_it =
          (registered-own k q rest fresh s.id p (ap (λ (v : WsSession). v.id) (sym same) ∙ named)
            here).1 in
        cc
    | inr there ↦
        does p s (rw there refl ∙ sym (change p) ∙ e)
          (registered-other k q rest fresh s.id p there ∙ reg)
  ]

  -- That session is none of the rest.
  calls_of-rest :
      (k : Bytes) (q : ℕ) (rest : Sessions ℕ) (store mid : List WsSession) (s t : WsSession)
      → has rest k ≡ false
      → get_elem? store q ≡ some s
      → s.id ≡ k
      → ((j : ℕ) → get_elem? mid j ≡ (if j == q then some t else get_elem? store j))
      → Owned rest store
      → calls_of g rest mid ≡ calls_of g rest store
  calls_of-rest k q [] store mid s t fresh e named change o = refl
  calls_of-rest k q ((l, none) ∷ rest) store mid s t fresh e named change o = elim o [ ]
  calls_of-rest k q ((l, some p) ∷ rest) store mid s t fresh e named change ((u, found, own), o) =
      elim (Bool-cases (same_id l k)) [
        | inl same ↦ let no : true ≡ false = rw same at fresh in cc
        | inr differs ↦ elim (Bool-cases (p == q)) [
          | inl here ↦
              let same : s ≡ u = found_unique store q p e found here in
              let one : k ≡ l = sym named ∙ ap (λ (v : WsSession). v.id) same ∙ own in
              let no : true ≡ false = sym (same_id_refl l) ∙ ap (same_id l) (sym one) ∙ differs in
              cc
          | inr there ↦
              rw (change p, there)
                (ap (◌++◌ (calls_at g p (get_elem? store p)))
                  (calls_of-rest k q rest store mid s t (rw differs at fresh) e named change o))
        ]
      ]

  -- The loop returns, and each session ends as the handler leaves it if it is registered under its
  -- id, and as it was if not. The calls made are those of the handlers, in the registry's order.
  pub each :
      (m : Sessions ℕ) (server : WsServer)
      → Valid m
      → Owned m server.store
      → Does handler g m server.store
      → Done handler g m server
  each [] server v o does = (
    server,
    unfold run_all in refl,
    refl,
    sym (append-nil server.calls),
    λ p s e. unfold get_sess_by_id in e,
  )
  each ((k, none) ∷ rest) server v o does = elim o [ ]
  each ((k, some q) ∷ rest) server (fresh, v) ((s, e, named), o) does =
      let (h, idk, quiet) =
        does q s e (registered-own k q rest fresh s.id q named (ground arith)).0 in
      let (mid, run1, kept, made, change) =
        run_handler-acts (handler q) q server s (g q s) e h quiet in
      let (after, run2, kept2, made2, others) =
        each rest mid v (Owned-step rest server.store mid.store q s (g q s).0 e idk change o)
          (Does-rest k q rest server.store mid.store (g q s).0 fresh (idk ∙ named) change does) in
      (
        after,
        run_all-cons k q rest server mid after run1 run2,
        kept2 ∙ kept,
        gather server.calls (map (λ c. (q, c)) (g q s).1) (calls_of g rest server.store) made2 made
            (calls_of-rest k q rest server.store mid.store s (g q s).0 fresh e named change o)
            (ap (calls_at g q) e),
        λ p t et. elim (Bool-cases (p == q)) [
          | inl here ↦
              let same : s ≡ t = found_unique server.store q p e et here in
              let (own, gone) =
                registered-own k q rest fresh t.id p
                  (ap (λ (u : WsSession). u.id) (sym same) ∙ named) here in
              let gone' = (registered-own k q rest fresh (g q s).0.id p (idk ∙ named) here).1 in
              let one : p ≡ q = ground arith in
              others p (g q s).0 (change p ∙ rw here refl) ∙ rw (gone', own, one, same) refl
          | inr there ↦
              others p t (change p ∙ rw there et)
              ∙ rw (registered-other k q rest fresh t.id p there) refl
        ],
      )
