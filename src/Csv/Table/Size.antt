-- ===== src/Csv/Table/Size.antt =====
-- How many rows and cells a text of algo/CSV.cpp can have.
use boost_server_example.Base.{
  ℕ, suc, ◌+◌, ◌≤◌, ◌≡◌, refl, Bool, List, [], ◌∷◌, map, Bytes, arith, ◌==◌, length,
}
use boost_server_example.Csv.Table.{split, is_newline, non_empty, cells, lines_of, lines, table}

-- Every list has at most `n` elements.
abbrev pub Short {ℓ} : {A : Type ℓ} → ℕ → List (List A) → Type 0
Short n [] = Unit {0}
Short n (x ∷ xs) = (length x ≤ n) × Short n xs

Short-mono {ℓ} : {A : Type ℓ} {m n : ℕ} (xs : List (List A)) → m ≤ n → Short m xs → Short n xs
Short-mono [] h s = tt
Short-mono (x ∷ xs) h s = (omega arith, Short-mono xs h s.1)

length-non_empty-le {ℓ} : {A : Type ℓ} (xs : List (List A)) → length (non_empty xs) ≤ length xs
unfolding non_empty
length-non_empty-le [] = omega arith
length-non_empty-le ([] ∷ xs) = omega (arith, length-non_empty-le xs)
length-non_empty-le ((a ∷ x) ∷ xs) = omega (arith, length-non_empty-le xs)

non_empty-Short {ℓ} :
    {A : Type ℓ} (n : ℕ) (xs : List (List A)) → Short n xs → Short n (non_empty xs)
unfolding non_empty
non_empty-Short n [] s = tt
non_empty-Short n ([] ∷ xs) s = non_empty-Short n xs s.1
non_empty-Short n ((a ∷ x) ∷ xs) s = (s.0, non_empty-Short n xs s.1)

module _ (p : ℕ → Bool) where
  split-Short :
      (t : Bytes)
      → (length (split p t).first ≤ length t)
        × (length (split p t).others ≤ length t)
        × Short (length t) (split p t).others
  unfolding split
  split-Short [] = (omega arith, omega arith, tt)
  split-Short (c ∷ cs) =
      let (a, b, s) = split-Short cs in
      let s' =
        Short-mono {m = length cs} {n = suc (length cs)} (split p cs).others (omega arith) s in
      ground (arith, a, b, s')

lines_of-Short :
    (n : ℕ) (first : Bytes) (others : List Bytes)
    → length first ≤ n
    → Short n others
    → (length (lines_of first others) ≤ length others) × Short n (lines_of first others)
unfolding lines_of
lines_of-Short n first [] h s = (omega arith, tt)
lines_of-Short n first (next ∷ others) h s =
    let (l, s') = lines_of-Short n next others s.0 s.1 in (omega (arith, l), (h, s'))

map-cells-Short :
    (delim n : ℕ) (ls : List Bytes) → Short n ls → Short (n + 1) (map (cells delim) ls)
unfolding cells
map-cells-Short delim n [] s = tt
map-cells-Short delim n (l ∷ ls) s =
    let q = split (λ c. c == delim) l in
    (
      omega (arith, length-non_empty-le (q.first ∷ q.others), (split-Short (λ c. c == delim) l).1),
      map-cells-Short delim n ls s.1,
    )

length-map-cells : (delim : ℕ) (ls : List Bytes) → length (map (cells delim) ls) ≡ length ls
length-map-cells delim [] = refl
length-map-cells delim (l ∷ ls) = omega (arith, length-map-cells delim ls)

pub lines-short : (text : Bytes) → length (lines text) ≤ length text
unfolding lines
lines-short text =
    let q = split is_newline text in
    let (a, b, s) = split-Short is_newline text in
    let (l, s') = lines_of-Short (length text) q.first q.others a s in omega (arith, l, b)

-- A text has no more rows than bytes, and a row at most one cell more.
pub table-Short :
    (delim : ℕ) (text : Bytes)
    → (length (table delim text) ≤ length text) × Short (length text + 1) (table delim text)
unfolding table lines
table-Short delim text =
    let q = split is_newline text in
    let (a, b, s) = split-Short is_newline text in
    let (l, s') = lines_of-Short (length text) q.first q.others a s in
    let ls = lines_of q.first q.others in
    (
      omega (arith, l, b, length-map-cells delim ls, length-non_empty-le (map (cells delim) ls)),
      non_empty-Short (length text + 1) (map (cells delim) ls)
          (map-cells-Short delim (length text) ls s'),
    )
