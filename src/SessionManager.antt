-- ===== src/SessionManager.antt =====
-- net/SessionManagerBase.hpp: the sessions by id. A pointer to a session is an `Option`, `none` for
-- null. The mutex is held through each method, so a method is one step. The order in which a
-- `std::unordered_map` is walked is that of the list, whichever it is.
pub mod Laws
pub mod Same
pub mod Unordered
mod Tests
use boost_server_example.Base.{
  ℕ, Bool, true, false, ◌&&◌, List, [], ◌∷◌, Option, none, some, Bytes, ◌==◌, if◌then◌else◌, length,
}
use boost_server_example.Base.Result.{Result, ok, ◌>>=◌}

abbrev pub same_id : Bytes → Bytes → Bool
same_id [] [] = true
same_id [] (y ∷ ys) = false
same_id (x ∷ xs) [] = false
same_id (x ∷ xs) (y ∷ ys) = (x == y) && same_id xs ys

abbrev pub Sessions {ℓ} : Type ℓ → Type ℓ
Sessions S = List (Bytes × Option S)

module _ {ℓ} {S : Type ℓ} where
  unfoldable pub get_sessions_count : Sessions S → ℕ
  get_sessions_count sessions = length sessions

  -- `sessions_.find(id)`; the inner `none` is a null pointer.
  unfoldable pub find_session : Sessions S → Bytes → Option (Option S)
  find_session [] id = none
  find_session ((k, sess) ∷ rest) id = if same_id k id then some sess else find_session rest id

  or_null : Option (Option S) → Option S
  or_null none = none
  or_null (some sess) = sess

  unfoldable pub get_sess_by_id : Sessions S → Bytes → Option S
  unfolding or_null find_session
  get_sess_by_id sessions id = or_null (find_session sessions id)

  -- `sessions_[id] = sess`
  unfoldable pub store_session : Sessions S → Bytes → Option S → Sessions S
  store_session [] id sess = (id, sess) ∷ []
  store_session ((k, old) ∷ rest) id sess =
      if same_id k id then (k, sess) ∷ rest else (k, old) ∷ store_session rest id sess

  unfoldable pub add_session : Sessions S → Bytes → Option S → Sessions S × Bool
  unfolding store_session
  add_session sessions id none = (sessions, false)
  add_session sessions id (some sess) = (store_session sessions id (some sess), true)

  -- `sessions_.erase(id)`, and whether there was one.
  unfoldable pub remove_sess_by_id : Sessions S → Bytes → Sessions S × Bool
  remove_sess_by_id [] id = ([], false)
  remove_sess_by_id ((k, sess) ∷ rest) id =
      let (rest', found) = remove_sess_by_id rest id in
      if same_id k id then (rest, true) else ((k, sess) ∷ rest', found)

  -- The function can fault.
  unfoldable pub do_to_all_sessions {κ} :
      {T : Type κ} → (Bytes → S → T → Result T) → Sessions S → T → Result T
  do_to_all_sessions func [] t = ok t
  do_to_all_sessions func ((k, none) ∷ rest) t = do_to_all_sessions func rest t
  do_to_all_sessions func ((k, some sess) ∷ rest) t =
      func k sess t >>= λ u. do_to_all_sessions func rest u
