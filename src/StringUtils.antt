-- ===== src/StringUtils.antt =====
-- `trim_whitespace` of algo/StringUtils.cpp; its dates stand in StringUtils.Dates.
pub mod Laws
pub mod Dates
use boost_server_example.Base.{
  ℕ, suc, ◌+◌, Bool, not, ◌||◌, List, [], ◌∷◌, Option, none, some, Bytes, ◌==◌, if◌then◌else◌, take,
  drop,
}

-- " \t\f\v\n\r"
abbrev pub is_white : ℕ → Bool
is_white c = c == 32 || c == 9 || c == 12 || c == 11 || c == 10 || c == 13

abbrev shift : Option ℕ → Option ℕ
shift none = none
shift (some i) = some (suc i)

-- `none` is `std::string::npos`.
unfoldable pub find_first_not_of : Bytes → Option ℕ
find_first_not_of [] = none
find_first_not_of (c ∷ cs) = if is_white c then shift (find_first_not_of cs) else some 0

unfoldable pub find_last_not_of : Bytes → Option ℕ
find_last_not_of [] = none
find_last_not_of (c ∷ cs) = elim (find_last_not_of cs) [
  | some i ↦ some (suc i)
  | none ↦ if is_white c then none else some 0
]

-- `str.substr(start, count)`
abbrev pub substr : Bytes → ℕ → ℕ → Bytes
substr str start count = take count (drop start str)

trim_between : Bytes → Option ℕ → Option ℕ → Bytes
trim_between str (some start) (some last) = substr str start (last + 1)
trim_between str _ _ = []

-- The second argument of `substr` is `end + 1`, a count of bytes from `start` on.
unfoldable pub trim_whitespace : Bytes → Bytes
unfolding trim_between find_first_not_of find_last_not_of
trim_whitespace str = trim_between str (find_first_not_of str) (find_last_not_of str)
