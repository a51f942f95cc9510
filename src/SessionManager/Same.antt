-- ===== src/SessionManager/Same.antt =====
-- Registries of net/SessionManagerBase.hpp in which every id finds the same, wherever the entries stand.
use boost_server_example.Base.{
  ℕ, ◌-◌, ◌≡◌, refl, sym, ap, subst, ◌∙◌, Bool, true, false, [], ◌∷◌, Option, none, some, Bytes,
  if◌then◌else◌, length, arith, Bool-cases, inl, inr,
}
use boost_server_example.SessionManager.{
  same_id, Sessions, get_sessions_count, find_session, get_sess_by_id, remove_sess_by_id,
}
use boost_server_example.SessionManager.Laws.{
  has, Valid, same_id_refl, same_id-eq, get-absent, has-length, remove_sess_by_id_lem,
}

-- A registry with one entry for each id. A session is its place.
abbrev pub Registry : Type 0
Registry = (m : Sessions ℕ) × Valid m

abbrev pub SameSessions : Sessions ℕ → Sessions ℕ → Type 0
SameSessions m n = (id : Bytes) → get_sess_by_id m id ≡ get_sess_by_id n id

pub get-cons :
    (k : Bytes) (sess : Option ℕ) (rest : Sessions ℕ) (id : Bytes)
    → get_sess_by_id ((k, sess) ∷ rest) id ≡ (if same_id k id then sess else get_sess_by_id rest id)
unfolding get_sess_by_id find_session
get-cons k sess rest id = ground arith

abbrev pub is_some : Option ℕ → Bool
is_some none = false
is_some (some p) = true

-- A valid entry is found.
pub has-found : (m : Sessions ℕ) (id : Bytes) → Valid m → has m id ≡ is_some (get_sess_by_id m id)
has-found [] id v = unfold get_sess_by_id find_session in refl
has-found ((k, none) ∷ rest) id v = elim v [ ]
has-found ((k, some p) ∷ rest) id v =
    ground (arith, get-cons k (some p) rest id, has-found rest id v.1)

SameSessions-has :
    (m n : Sessions ℕ) (id : Bytes) → Valid m → Valid n → SameSessions m n → has m id ≡ has n id
SameSessions-has m n id v w same = has-found m id v ∙ ap is_some (same id) ∙ sym (has-found n id w)

-- The others of a registry, in one that has the same sessions.
SameSessions-rest :
    (k : Bytes) (p : ℕ) (rest n : Sessions ℕ)
    → Valid ((k, some p) ∷ rest)
    → Valid n
    → SameSessions ((k, some p) ∷ rest) n
    → SameSessions rest (remove_sess_by_id n k).0
SameSessions-rest k p rest n v w same id =
    let (gone, valid, found, size) = remove_sess_by_id_lem n k w in
    elim (Bool-cases (same_id k id)) [
      | inl here ↦
          subst (λ j. get_sess_by_id rest j ≡ none) (same_id-eq k id here) (get-absent rest k v.0)
          ∙ sym (gone id ∙ rw here refl)
      | inr there ↦
          sym (get-cons k (some p) rest id ∙ rw there refl)
          ∙ same id
          ∙ sym (gone id ∙ rw there refl)
    ]

pub SameSessions-length :
    (m n : Sessions ℕ) → Valid m → Valid n → SameSessions m n → length m ≡ length n
SameSessions-length [] n v w same = empty n w λ id. sym (same id)
  where
    empty : (n : Sessions ℕ) → Valid n → SameSessions n [] → 0 ≡ length n
    empty [] w same = refl
    empty ((k, none) ∷ rest) w same = elim w [ ]
    empty ((k, some p) ∷ rest) w same =
        let found : some p ≡ get_sess_by_id [] k =
          sym (get-cons k (some p) rest k ∙ rw (same_id_refl k) refl) ∙ same k in
        let none_left : get_sess_by_id {S = ℕ} [] k ≡ none =
          unfold get_sess_by_id find_session in refl in
        cc
SameSessions-length ((k, none) ∷ rest) n v w same = elim v [ ]
SameSessions-length ((k, some p) ∷ rest) n v w same =
    let there : has n k ≡ true =
      sym (SameSessions-has ((k, some p) ∷ rest) n k v w same) ∙ rw (same_id_refl k) refl in
    let (gone, valid, found, count) = remove_sess_by_id_lem n k w in
    let counted : length (remove_sess_by_id n k).0 ≡ length n - 1 =
      unfold get_sessions_count in count ∙ rw there refl in
    omega (
      arith,
      SameSessions-length rest (remove_sess_by_id n k).0 v.1 valid
          (SameSessions-rest k p rest n v w same),
      counted,
      has-length n k there,
    )
