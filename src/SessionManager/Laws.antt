-- ===== src/SessionManager/Laws.antt =====
-- The sessions of net/SessionManagerBase.hpp as a finite map.
use boost_server_example.Base.{
  suc, ◌-◌, ◌≡◌, refl, sym, ap, subst, ◌<◌, Bool, true, false, [], ◌∷◌, Option, none, some, Bytes,
  if◌then◌else◌, length, arith, Bool-cases, inl, inr,
}
use boost_server_example.SessionManager.{
  same_id, Sessions, get_sessions_count, find_session, get_sess_by_id, store_session, add_session,
  remove_sess_by_id,
}

pub same_id_refl : (a : Bytes) → same_id a a ≡ true
same_id_refl [] = refl
same_id_refl (x ∷ xs) = ground (arith, same_id_refl xs)

pub same_id-eq : (a b : Bytes) → same_id a b ≡ true → a ≡ b
same_id-eq [] [] h = refl
same_id-eq [] (y ∷ ys) h = cc
same_id-eq (x ∷ xs) [] h = cc
same_id-eq (x ∷ xs) (y ∷ ys) h = ground (arith, same_id-eq xs ys)

pub same_id_comm : (a b : Bytes) → same_id a b ≡ same_id b a
same_id_comm [] [] = refl
same_id_comm [] (y ∷ ys) = refl
same_id_comm (x ∷ xs) [] = refl
same_id_comm (x ∷ xs) (y ∷ ys) = ground (arith, same_id_comm xs ys)

module _ {ℓ} {S : Type ℓ} where
  -- Whether there is an entry, be it null.
  abbrev pub has : Sessions S → Bytes → Bool
  has [] id = false
  has ((k, sess) ∷ rest) id = if same_id k id then true else has rest id

  -- No two entries have one id, and no pointer is null.
  abbrev pub Valid : Sessions S → Type 0
  Valid [] = Unit {0}
  Valid ((k, none) ∷ rest) = ⊥
  Valid ((k, some sess) ∷ rest) = (has rest k ≡ false) × Valid rest

  has-same : (m : Sessions S) (a b : Bytes) → same_id a b ≡ true → has m b ≡ has m a
  has-same m a b h = ap (has m) (sym (same_id-eq a b h))

  pub get-absent : (m : Sessions S) (id : Bytes) → has m id ≡ false → get_sess_by_id m id ≡ none
  unfolding get_sess_by_id find_session
  get-absent [] id h = refl
  get-absent ((k, sess) ∷ rest) id h = ground (arith, get-absent rest id)

  has-store :
      (m : Sessions S) (id other : Bytes) (sess : Option S)
      → has (store_session m id sess) other ≡ (if same_id id other then true else has m other)
  unfolding store_session
  has-store [] id other sess = refl
  has-store ((k, old) ∷ rest) id other sess = elim (Bool-cases (same_id k id)) [
    | inr differs ↦ ground (arith, has-store rest id other sess)
    | inl same ↦ rw (same, same_id-eq k id same) (ground arith)
  ]

  store-Valid :
      (m : Sessions S) (id : Bytes) (sess : S) → Valid m → Valid (store_session m id (some sess))
  unfolding store_session
  store-Valid [] id sess v = (refl, tt)
  store-Valid ((k, none) ∷ rest) id sess v = elim v [ ]
  store-Valid ((k, some old) ∷ rest) id sess v = elim (Bool-cases (same_id k id)) [
    | inr differs ↦
        ground (arith, store-Valid rest id sess, has-store rest id k (some sess), same_id_comm id k)
    | inl same ↦ rw same v
  ]

  get-store :
      (m : Sessions S) (id other : Bytes) (sess : Option S)
      → get_sess_by_id (store_session m id sess) other
        ≡ (if same_id id other then sess else get_sess_by_id m other)
  unfolding store_session get_sess_by_id find_session
  get-store [] id other sess = ground arith
  get-store ((k, old) ∷ rest) id other sess = elim (Bool-cases (same_id k id)) [
    | inr differs ↦ ground (
      arith,
      get-store rest id other sess,
      same_id-eq k other,
      same_id-eq id other,
      same_id_refl id,
    )
    | inl same ↦ rw (same, same_id-eq k id same) (ground arith)
  ]

  length-store :
      (m : Sessions S) (id : Bytes) (sess : Option S)
      → length (store_session m id sess) ≡ (if has m id then length m else suc (length m))
  unfolding store_session
  length-store [] id sess = refl
  length-store ((k, old) ∷ rest) id sess = ground (arith, length-store rest id sess)

  -- A null pointer is not added. Any other session is found under its id then, in place of the one
  -- that had it, every other id finds what it found, and the sessions stay valid. The count is
  -- higher by one if the id is new.
  pub add_session_lem :
      (m : Sessions S) (id : Bytes) (sess : S)
      → (add_session m id none ≡ (m, false))
        × ((add_session m id (some sess)).1 ≡ true)
        × ((other : Bytes)
            → get_sess_by_id (add_session m id (some sess)).0 other
              ≡ (if same_id id other then some sess else get_sess_by_id m other))
        × (Valid m → Valid (add_session m id (some sess)).0)
        × (get_sessions_count (add_session m id (some sess)).0
            ≡ (if has m id then get_sessions_count m else suc (get_sessions_count m)))
  unfolding add_session get_sessions_count
  add_session_lem m id sess = (
    refl,
    refl,
    λ other. get-store m id other (some sess),
    store-Valid m id sess,
    length-store m id (some sess),
  )

  remove-has :
      (m : Sessions S) (id other : Bytes)
      → has m other ≡ false
      → has (remove_sess_by_id m id).0 other ≡ false
  unfolding remove_sess_by_id
  remove-has [] id other h = refl
  remove-has ((k, sess) ∷ rest) id other h = ground (arith, remove-has rest id other)

  remove-Valid : (m : Sessions S) (id : Bytes) → Valid m → Valid (remove_sess_by_id m id).0
  unfolding remove_sess_by_id
  remove-Valid [] id v = tt
  remove-Valid ((k, none) ∷ rest) id v = elim v [ ]
  remove-Valid ((k, some sess) ∷ rest) id v = elim (Bool-cases (same_id k id)) [
    | inl same ↦ rw same v.1
    | inr differs ↦ rw differs (remove-has rest id k v.0, remove-Valid rest id v.1)
  ]

  get-remove :
      (m : Sessions S) (id other : Bytes)
      → Valid m
      → get_sess_by_id (remove_sess_by_id m id).0 other
        ≡ (if same_id id other then none else get_sess_by_id m other)
  unfolding remove_sess_by_id get_sess_by_id find_session
  get-remove [] id other v = ground arith
  get-remove ((k, none) ∷ rest) id other v = elim v [ ]
  get-remove ((k, some sess) ∷ rest) id other v = elim (Bool-cases (same_id k id)) [
    | inr differs ↦ ground (
      arith,
      get-remove rest id other v.1,
      same_id-eq k other,
      same_id-eq id other,
      same_id_refl id,
    )
    | inl same ↦
        rw (same, same_id-eq k id same)
          (ground (
            arith,
            get-absent rest other,
            has-same rest id other,
            subst (λ x. has rest x ≡ false) (same_id-eq k id same) v.0,
          ))
  ]

  pub has-length : (m : Sessions S) (id : Bytes) → has m id ≡ true → 0 < length m
  has-length [] id h = cc
  has-length ((k, sess) ∷ rest) id h = omega arith

  length-remove :
      (m : Sessions S) (id : Bytes)
      → ((remove_sess_by_id m id).1 ≡ has m id)
        × (length (remove_sess_by_id m id).0 ≡ (if has m id then length m - 1 else length m))
  unfolding remove_sess_by_id
  length-remove [] id = (refl, refl)
  length-remove ((k, sess) ∷ rest) id = ground (arith, length-remove rest id, has-length rest id)

  -- Of valid sessions, the one removed is found no more, every other id finds what it found, and
  -- they stay valid. The result, and the count, tell whether there was one.
  pub remove_sess_by_id_lem :
      (m : Sessions S) (id : Bytes)
      → Valid m
      → ((other : Bytes)
          → get_sess_by_id (remove_sess_by_id m id).0 other
            ≡ (if same_id id other then none else get_sess_by_id m other))
        × Valid (remove_sess_by_id m id).0
        × ((remove_sess_by_id m id).1 ≡ has m id)
        × (get_sessions_count (remove_sess_by_id m id).0
            ≡ (if has m id then get_sessions_count m - 1 else get_sessions_count m))
  unfolding get_sessions_count
  remove_sess_by_id_lem m id v = (
    λ other. get-remove m id other v,
    remove-Valid m id v,
    (length-remove m id).0,
    (length-remove m id).1,
  )
