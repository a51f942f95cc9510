-- ===== src/WsServer/Owned.antt =====
-- The registry of net/websockets/WsServer.cpp against the store of its sessions.
use boost_server_example.Base.{
  ℕ, ◌≡◌, refl, sym, subst, ap, ◌∙◌, Bool, true, false, List, [], ◌∷◌, none, some, Bytes, get_elem?,
  ◌==◌, if◌then◌else◌, arith, Bool-cases, inl, inr,
}
use boost_server_example.SessionManager.{Sessions, same_id, find_session, get_sess_by_id}
use boost_server_example.SessionManager.Laws.{has, Valid, same_id-eq, get-absent}
use boost_server_example.WsServer.{WsServer, perform, unregister}
use boost_server_example.WsSession.{WsSession, Call, unregister_session}

-- The registry has the session `p` under the id.
abbrev pub registered : Sessions ℕ → Bytes → ℕ → Bool
registered m id p = elim (get_sess_by_id m id) [ none ↦ false | some q ↦ q == p ]

-- Every entry leads to a session, whose id it stands under.
abbrev pub Owned : Sessions ℕ → List WsSession → Type 0
Owned [] store = Unit {0}
Owned ((k, none) ∷ rest) store = ⊥
Owned ((k, some p) ∷ rest) store =
    ((s : WsSession) × (get_elem? store p ≡ some s) × (s.id ≡ k)) × Owned rest store

pub record WellFormed (server : WsServer) : Type 0 where
  pub valid : Valid server.sessions
  pub owned : Owned server.sessions server.store

pub perform-store :
    (p : ℕ) (calls : List Call) (server : WsServer) → (perform p calls server).store ≡ server.store
unfolding perform unregister
perform-store p [] server = refl
perform-store p (unregister_session id ∷ rest) server = perform-store p rest (unregister id server)
perform-store p (call ∷ rest) server = perform-store p rest _

pub some-injective {ℓ} : {A : Type ℓ} {s t : A} → some s ≡ some t → s ≡ t
some-injective h = cc

pub found_unique :
    (store : List WsSession) (p q : ℕ) {s u : WsSession}
    → get_elem? store p ≡ some s
    → get_elem? store q ≡ some u
    → (q == p) ≡ true
    → s ≡ u
found_unique store p q e f here =
    let one : p ≡ q = ground arith in some-injective (sym e ∙ ap (get_elem? store) one ∙ f)

-- A step that changes the session `p` alone, and not its id.
pub Owned-step :
    (m : Sessions ℕ) (store after : List WsSession) (p : ℕ) (s t : WsSession)
    → get_elem? store p ≡ some s
    → t.id ≡ s.id
    → ((j : ℕ) → get_elem? after j ≡ (if j == p then some t else get_elem? store j))
    → Owned m store
    → Owned m after
Owned-step [] store after p s t e same change o = tt
Owned-step ((k, none) ∷ rest) store after p s t e same change o = elim o [ ]
Owned-step ((k, some q) ∷ rest) store after p s t e same change ((u, found, named), o) = (
  elim (Bool-cases (q == p)) [
    | inl here ↦ (
      t,
      change q ∙ rw here refl,
      same ∙ ap (λ (v : WsSession). v.id) (found_unique store p q e found here) ∙ named,
    )
    | inr there ↦ (u, change q ∙ rw there found, named)
  ],
  Owned-step rest store after p s t e same change o,
)

pub registered-absent :
    (m : Sessions ℕ) (id : Bytes) (p : ℕ) → has m id ≡ false → registered m id p ≡ false
registered-absent m id p h = rw (registered, get-absent m id h) refl

pub registered-cons :
    (k : Bytes) (q : ℕ) (rest : Sessions ℕ) (id : Bytes) (p : ℕ)
    → registered ((k, some q) ∷ rest) id p ≡ (if same_id k id then q == p else registered rest id p)
unfolding get_sess_by_id find_session
registered-cons k q rest id p = ground arith

-- The session that an id finds exists, and has the id.
pub Owned-get :
    (m : Sessions ℕ) (store : List WsSession) (id : Bytes) (p : ℕ)
    → Owned m store
    → get_sess_by_id m id ≡ some p
    → (s : WsSession) × (get_elem? store p ≡ some s) × (s.id ≡ id)
unfolding get_sess_by_id find_session
Owned-get [] store id p o e = cc
Owned-get ((k, none) ∷ rest) store id p o e = elim o [ ]
Owned-get ((k, some q) ∷ rest) store id p ((s, found, named), o) e =
    elim (Bool-cases (same_id k id)) [
      | inl same ↦
          let one : some q ≡ some p = rw same at e in
          (
            s,
            subst (λ r. get_elem? store r ≡ some s) (some-injective one) found,
            named ∙ same_id-eq k id same,
          )
      | inr differs ↦ Owned-get rest store id p o (rw differs at e)
    ]
