-- ===== src/SessionManager/Unordered.antt =====
-- What a `std::unordered_map` of net/SessionManagerBase.hpp promises: which session each id finds, and
-- not where an entry stands. Registries with the same sessions are one element of a quotient.
use boost_server_example.Base.{
  ℕ, suc, ◌-◌, ◌≡◌, refl, sym, ap, subst, ◌∙◌, false, Option, none, some, Bytes, if◌then◌else◌,
  length, arith, Bool-cases, inl, inr,
}
use boost_server_example.SessionManager.{
  same_id, get_sessions_count, get_sess_by_id, add_session, remove_sess_by_id,
}
use boost_server_example.SessionManager.Laws.{
  same_id_comm, same_id-eq, add_session_lem, remove_sess_by_id_lem,
}
use mathlib.Core.Quot
use mathlib.Core.Quot.{Quot, Quot-set}
use boost_server_example.SessionManager.Same.{
  Registry, SameSessions, is_some, has-found, SameSessions-length,
}

abbrev Agree : Registry → Registry → Type 0
Agree a b = SameSessions a.0 b.0

abbrev pub Unordered : Type 0
Unordered = Quot Agree

pub lookup : Unordered → Bytes → Option ℕ
lookup u id = Quot.lift (hlevel) (λ (r : Registry). get_sess_by_id r.0 id) (λ a b same. same id) u

pub count : Unordered → ℕ
unfolding get_sessions_count
count =
    Quot.lift (hlevel) (λ (r : Registry). get_sessions_count r.0)
      λ a b same. SameSessions-length a.0 b.0 a.1 b.1 same

added : Registry → Bytes → ℕ → Registry
added r id p =
    let (null, done, found, valid, size) = add_session_lem r.0 id p in
    ((add_session r.0 id (some p)).0, valid r.1)

removed : Registry → Bytes → Registry
removed r id = ((remove_sess_by_id r.0 id).0, (remove_sess_by_id_lem r.0 id r.1).1)

lookup-added :
    (r : Registry) (id other : Bytes) (p : ℕ)
    → get_sess_by_id (added r id p).0 other
      ≡ (if same_id id other then some p else get_sess_by_id r.0 other)
unfolding added
lookup-added r id other p = (add_session_lem r.0 id p).2 other

lookup-removed :
    (r : Registry) (id other : Bytes)
    → get_sess_by_id (removed r id).0 other
      ≡ (if same_id id other then none else get_sess_by_id r.0 other)
unfolding removed
lookup-removed r id other = (remove_sess_by_id_lem r.0 id r.1).0 other

pub add : Bytes → ℕ → Unordered → Unordered
unfolding added
add id p =
    Quot.lift Quot-set (λ (r : Registry). Quot.mk (added r id p))
      λ a b same. Quot.sound λ other.
        lookup-added a id other p
        ∙ ap (λ o. if same_id id other then some p else o) (same other)
        ∙ sym (lookup-added b id other p)

pub remove : Bytes → Unordered → Unordered
unfolding removed
remove id =
    Quot.lift Quot-set (λ (r : Registry). Quot.mk (removed r id))
      λ a b same. Quot.sound λ other.
        lookup-removed a id other
        ∙ ap (λ o. if same_id id other then none else o) (same other)
        ∙ sym (lookup-removed b id other)

-- Two registries in which every id finds the same are equal.
pub Unordered-ext : (u v : Unordered) → ((id : Bytes) → lookup u id ≡ lookup v id) → u ≡ v
unfolding lookup
Unordered-ext = Quot.ind (λ _. hlevel Quot-set) λ a. Quot.ind (λ _. hlevel Quot-set) λ b. Quot.sound

lookup-add :
    (u : Unordered) (id other : Bytes) (p : ℕ)
    → lookup (add id p u) other ≡ (if same_id id other then some p else lookup u other)
unfolding lookup add
lookup-add u id other p =
    Quot.ind
      {β = λ u. lookup (add id p u) other ≡ (if same_id id other then some p else lookup u other)}
      (λ _. hlevel) (λ r. lookup-added r id other p) u

lookup-remove :
    (u : Unordered) (id other : Bytes)
    → lookup (remove id u) other ≡ (if same_id id other then none else lookup u other)
unfolding lookup remove
lookup-remove u id other =
    Quot.ind
      {β = λ u. lookup (remove id u) other ≡ (if same_id id other then none else lookup u other)}
      (λ _. hlevel) (λ r. lookup-removed r id other) u

count-add :
    (u : Unordered) (id : Bytes) (p : ℕ)
    → count (add id p u) ≡ (if is_some (lookup u id) then count u else suc (count u))
unfolding lookup add count added get_sessions_count
count-add u id p =
    Quot.ind
      {β = λ u. count (add id p u) ≡ (if is_some (lookup u id) then count u else suc (count u))}
      (λ _. hlevel)
      (λ r.
        let (null, done, found, valid, size) = add_session_lem r.0 id p in
        size ∙ ap (λ b. if b then length r.0 else suc (length r.0)) (has-found r.0 id r.1))
      u

count-remove :
    (u : Unordered) (id : Bytes)
    → count (remove id u) ≡ (if is_some (lookup u id) then count u - 1 else count u)
unfolding lookup remove count removed get_sessions_count
count-remove u id =
    Quot.ind
      {β = λ u. count (remove id u) ≡ (if is_some (lookup u id) then count u - 1 else count u)}
      (λ _. hlevel)
      (λ r.
        let (gone, valid, found, size) = remove_sess_by_id_lem r.0 id r.1 in
        size ∙ ap (λ b. if b then length r.0 - 1 else length r.0) (has-found r.0 id r.1))
      u

-- Two ids are not both one third.
pub ifs_comm {ℓ} :
    {A : Type ℓ} (a b other : Bytes) (x y z : A)
    → same_id a b ≡ false
    → (if same_id a other then x else if same_id b other then y else z)
      ≡ (if same_id b other then y else if same_id a other then x else z)
ifs_comm a b other x y z differ = elim (Bool-cases (same_id a other)) [
  | inr there ↦ rw there refl
  | inl here ↦
      let apart : same_id b other ≡ false =
        subst (λ c. same_id b c ≡ false) (same_id-eq a other here) (same_id_comm b a ∙ differ) in
      rw (here, apart) refl
]

-- Registries in which every id finds the same are one. A session that was added is found under its
-- id, one that was removed is not, every other id finds what it found, and the count goes by one if
-- that is new, or was there. So sessions with different ids can be added in either order, and adding
-- a session and removing its id is to remove the id.
pub Unordered_laws :
    (u v : Unordered) (id other : Bytes) (p q : ℕ)
    → (((j : Bytes) → lookup u j ≡ lookup v j) → u ≡ v)
      × (lookup (add id p u) other ≡ (if same_id id other then some p else lookup u other))
      × (lookup (remove id u) other ≡ (if same_id id other then none else lookup u other))
      × (count (add id p u) ≡ (if is_some (lookup u id) then count u else suc (count u)))
      × (count (remove id u) ≡ (if is_some (lookup u id) then count u - 1 else count u))
      × (same_id id other ≡ false → add id p (add other q u) ≡ add other q (add id p u))
      × (remove id (add id p u) ≡ remove id u)
Unordered_laws u v id other p q = (
  Unordered-ext u v,
  lookup-add u id other p,
  lookup-remove u id other,
  count-add u id p,
  count-remove u id,
  λ differ. Unordered-ext (add id p (add other q u)) (add other q (add id p u)) λ j.
      lookup-add (add other q u) id j p
      ∙ ap (λ o. if same_id id j then some p else o) (lookup-add u other j q)
      ∙ ifs_comm id other j (some p) (some q) (lookup u j) differ
      ∙ sym (
          lookup-add (add id p u) other j q
          ∙ ap (λ o. if same_id other j then some q else o) (lookup-add u id j p)),
  Unordered-ext (remove id (add id p u)) (remove id u) λ j.
      lookup-remove (add id p u) id j
      ∙ ap (λ o. if same_id id j then none else o) (lookup-add u id j p)
      ∙ (ground arith)
      ∙ sym (lookup-remove u id j),
)
