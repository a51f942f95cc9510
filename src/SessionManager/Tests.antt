-- ===== src/SessionManager/Tests.antt =====
-- Registries of net/SessionManagerBase.hpp up to the order of their entries.
use boost_server_example.Base.{
  suc, ◌-◌, ◌≡◌, refl, false, [], ◌∷◌, none, some, Bytes, if◌then◌else◌,
}
use boost_server_example.Base.Text.{codes}
use boost_server_example.SessionManager.{same_id}
use boost_server_example.SessionManager.Same.{is_some}
use boost_server_example.SessionManager.Unordered.{
  Unordered, lookup, count, add, remove, Unordered_laws,
}
use mathlib.Core.Quot

abbrev one : Unordered
one = Quot.mk ((codes "a", some 4) ∷ [], (refl, tt))

abbrev other_one : Unordered
other_one = add (codes "a") 4 (remove (codes "b") one)

Unordered_laws_example :
    (((j : Bytes) → lookup one j ≡ lookup other_one j) → one ≡ other_one)
    × (lookup (add (codes "a") 7 one) (codes "b")
        ≡ (if same_id (codes "a") (codes "b") then some 7 else lookup one (codes "b")))
    × (lookup (remove (codes "a") one) (codes "b")
        ≡ (if same_id (codes "a") (codes "b") then none else lookup one (codes "b")))
    × (count (add (codes "a") 7 one)
        ≡ (if is_some (lookup one (codes "a")) then count one else suc (count one)))
    × (count (remove (codes "a") one)
        ≡ (if is_some (lookup one (codes "a")) then count one - 1 else count one))
    × (same_id (codes "a") (codes "b") ≡ false
        → add (codes "a") 7 (add (codes "b") 8 one) ≡ add (codes "b") 8 (add (codes "a") 7 one))
    × (remove (codes "a") (add (codes "a") 7 one) ≡ remove (codes "a") one)
Unordered_laws_example = Unordered_laws one other_one (codes "a") (codes "b") 7 8
