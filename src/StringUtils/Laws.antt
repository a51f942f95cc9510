-- ===== src/StringUtils/Laws.antt =====
-- What `trim_whitespace` of algo/StringUtils.cpp leaves.
use boost_server_example.Base.{
  ℕ, suc, ◌+◌, ◌≡◌, refl, ap, true, false, List, [], ◌∷◌, ◌++◌, none, some, Bytes, take, drop,
  length, length-append, arith, append_assoc,
}
use boost_server_example.StringUtils.{
  is_white, find_first_not_of, find_last_not_of, trim_whitespace,
}

abbrev pub AllWhite : Bytes → Type 0
AllWhite [] = Unit {0}
AllWhite (c ∷ cs) = (is_white c ≡ true) × AllWhite cs

first-white :
    (front rest : Bytes) (c : ℕ)
    → AllWhite front
    → is_white c ≡ false
    → find_first_not_of (front ++ (c ∷ rest)) ≡ some (length front)
unfolding find_first_not_of
first-white [] rest c w n = ground arith
first-white (x ∷ front) rest c w n = ground (arith, first-white front rest c w.1 n)

last-white : (tail : Bytes) → AllWhite tail → find_last_not_of tail ≡ none
unfolding find_last_not_of
last-white [] w = refl
last-white (x ∷ tail) w = ground (arith, last-white tail w.1)

last-core :
    (front tail : Bytes) (c : ℕ)
    → is_white c ≡ false
    → AllWhite tail
    → find_last_not_of (front ++ (c ∷ tail)) ≡ some (length front)
unfolding find_last_not_of
last-core [] tail c n w = ground (arith, last-white tail w)
last-core (x ∷ front) tail c n w = ground (arith, last-core front tail c n w)

drop-append {ℓ} : {A : Type ℓ} (xs ys : List A) → drop (length xs) (xs ++ ys) ≡ ys
drop-append [] ys = refl
drop-append (x ∷ xs) ys = drop-append xs ys

take-append {ℓ} :
    {A : Type ℓ} (xs ys : List A) (n : ℕ) → take (length xs + n) (xs ++ ys) ≡ xs ++ take n ys
take-append [] ys n = let e : 0 + n ≡ n = omega arith in rw e
take-append (x ∷ xs) ys n =
    let e : suc (length xs) + n ≡ suc (length xs + n) = omega arith in
    rw e (ap (◌∷◌ x) (take-append xs ys n))

all_white : (str : Bytes) → AllWhite str → trim_whitespace str ≡ []
unfolding trim_whitespace
all_white [] w = refl
all_white (x ∷ str) w = ground (arith, last-white (x ∷ str) w)

trim_between_lem :
    (str front core tail : Bytes) (k : ℕ)
    → str ≡ front ++ (core ++ tail)
    → find_first_not_of str ≡ some (length front)
    → find_last_not_of str ≡ some k
    → k + 1 ≡ length core + length front
    → trim_whitespace str ≡ core ++ take (length front) tail
unfolding trim_whitespace
trim_between_lem str front core tail k e f l c =
    ground (arith, drop-append front (core ++ tail), take-append core tail (length front))

-- Of a string that is `core`, which starts and ends with other bytes, between white space on both
-- sides, the result is `core` and then as much of the white space behind it as there was in front,
-- or all of it, if that is less.
pub trim_whitespace_lem :
    (front core tail inner outer : Bytes) (first last : ℕ)
    → AllWhite front
    → AllWhite tail
    → core ≡ first ∷ inner
    → core ≡ outer ++ last ∷ []
    → is_white first ≡ false
    → is_white last ≡ false
    → trim_whitespace (front ++ (core ++ tail)) ≡ core ++ take (length front) tail
trim_whitespace_lem front core tail inner outer first last wf wt ef el nf nl =
    trim_between_lem (front ++ (core ++ tail)) front core tail (length (front ++ outer)) refl
      (rw ef (first-white front (inner ++ tail) first wf nf))
      (rw (el, append_assoc outer (last ∷ []) tail, ← append_assoc front outer (last ∷ tail))
        (last-core (front ++ outer) tail last nl wt))
      (omega (arith, length-append front outer, length-append outer (last ∷ []), ap length el))

-- A string of white space is trimmed away.
pub trim_whitespace-AllWhite : (str : Bytes) → AllWhite str → trim_whitespace str ≡ []
trim_whitespace-AllWhite = all_white
