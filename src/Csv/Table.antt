-- ===== src/Csv/Table.antt =====
-- What algo/CSV.cpp's parser should find in a text, with no scanner: lines, cells and rows.
pub mod Size
use boost_server_example.Base.{
  ℕ, Bool, ◌||◌, List, [], ◌∷◌, map, Bytes, leb, ◌==◌, if◌then◌else◌, length, all,
}

-- The pieces between the bytes that the test picks: one more than there are such bytes.
pub record Pieces : Type 0 where
  pub first : Bytes
  pub others : List Bytes

unfoldable pub split : (ℕ → Bool) → Bytes → Pieces
split p [] = record { first = []; others = [] }
split p (c ∷ cs) =
    let s = split p cs in
    if p c
    then record { first = []; others = s.first ∷ s.others }
    else record { first = c ∷ s.first; others = s.others }

-- A line ends at LF or CR.
abbrev pub is_newline : ℕ → Bool
is_newline c = c == 10 || c == 13

abbrev pub is_sep : ℕ → ℕ → Bool
is_sep delim c = c == delim || is_newline c

unfoldable pub non_empty {ℓ} : {A : Type ℓ} → List (List A) → List (List A)
non_empty [] = []
non_empty ([] ∷ xs) = non_empty xs
non_empty ((a ∷ x) ∷ xs) = (a ∷ x) ∷ non_empty xs

-- The cells of a line; a cell with no bytes is skipped.
unfoldable pub cells : ℕ → Bytes → List Bytes
unfolding split non_empty
cells delim line = let s = split (λ c. c == delim) line in non_empty (s.first ∷ s.others)

-- What stands behind the last line end is no line.
unfoldable pub lines_of : Bytes → List Bytes → List Bytes
lines_of first [] = []
lines_of first (next ∷ others) = first ∷ lines_of next others

unfoldable pub lines : Bytes → List Bytes
unfolding lines_of split
lines text = let s = split is_newline text in lines_of s.first s.others

-- The rows of a text: the cells of its lines; a line with no cells is skipped.
unfoldable pub table : ℕ → Bytes → List (List Bytes)
unfolding non_empty cells lines
table delim text = non_empty (map (cells delim) (lines text))

-- No stretch of a text without a separator is longer than `cur_field`.
unfoldable pub fields_fit : ℕ → Bytes → Bool
unfolding split
fields_fit delim text =
    let s = split (is_sep delim) text in all (λ f. leb (length f) 1024) (s.first ∷ s.others)
