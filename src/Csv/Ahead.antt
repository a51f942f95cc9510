-- ===== src/Csv/Ahead.antt =====
-- What the scanner of algo/CSV.cpp has yet to find in the text ahead, byte by byte.
use boost_server_example.Base.{
  ℕ, ◌+◌, ◌≤◌, ◌≡◌, ◌≢◌, refl, ap, Bool, true, false, ◌&&◌, List, [], ◌∷◌, ◌++◌, Bytes, arith, leb,
  ◌==◌, length, all, append_assoc, append-nil, length-append,
}
use boost_server_example.Csv.{Row}
use boost_server_example.Csv.Scanner.{flushed, non_empty-append}
use boost_server_example.Csv.Table.{split, is_newline, is_sep, non_empty}

-- The cells of a line of which `r` and `f` have been read.
unfoldable pub line_row : ℕ → Row → Bytes → Bytes → Row
line_row delim r f line =
    let s = split (λ c. c == delim) line in r ++ non_empty ((f ++ s.first) ∷ s.others)

unfoldable pub rows_after : ℕ → Row → Bytes → Bytes → List Bytes → List Row
rows_after delim r f first [] = []
rows_after delim r f first (next ∷ others) =
    non_empty (line_row delim r f first ∷ []) ++ rows_after delim [] [] next others

-- The rows that a scanner in the middle of a line finds in the text ahead.
unfoldable pub rows_ahead : ℕ → Row → Bytes → Bytes → List Row
rows_ahead delim r f text = let s = split is_newline text in rows_after delim r f s.first s.others

unfoldable pub fits_ahead : ℕ → Bytes → Bytes → Bool
fits_ahead delim f text =
    let s = split (is_sep delim) text in
    leb (length f + length s.first) 1024 && all (λ p. leb (length p) 1024) s.others

pub non_empty-one {ℓ} : {A : Type ℓ} (x : List A) → x ≢ [] → non_empty (x ∷ []) ≡ x ∷ []
unfolding non_empty
non_empty-one [] ne = absurd (ne refl)
non_empty-one (a ∷ x) ne = refl

pub non_empty-skip {ℓ} : {A : Type ℓ} (xs : List (List A)) → non_empty ([] ∷ xs) ≡ non_empty xs
unfolding non_empty
non_empty-skip xs = refl

pub non_empty_nil {ℓ} : {A : Type ℓ} → non_empty {A = A} [] ≡ []
unfolding non_empty
non_empty_nil = refl

module _ (delim : ℕ) where
  pub line_row-put :
      (r : Row) (f : Bytes) (c : ℕ) (line : Bytes)
      → c ≢ delim
      → line_row delim r f (c ∷ line) ≡ line_row delim r (f ++ c ∷ []) line
  unfolding line_row split
  line_row-put r f c line h =
      ground (arith, append_assoc f (c ∷ []) (split (λ c. c == delim) line).first)

  pub line_row-delim :
      (r : Row) (f : Bytes) (c : ℕ) (line : Bytes)
      → c ≡ delim
      → line_row delim r f (c ∷ line) ≡ line_row delim (flushed r f) [] line
  unfolding line_row split
  line_row-delim r f c line h =
      let s = split (λ c. c == delim) line in
      ground (
        arith,
        append-nil f,
        non_empty-append (f ∷ []) (s.first ∷ s.others),
        append_assoc r (non_empty (f ∷ [])) (non_empty (s.first ∷ s.others)),
      )

  pub line_row-nil : (r : Row) (f : Bytes) → line_row delim r f [] ≡ flushed r f
  unfolding line_row split
  line_row-nil r f = ground (arith, append-nil f)

  rows_after-put :
      (r : Row) (f : Bytes) (c : ℕ) (line : Bytes) (others : List Bytes)
      → c ≢ delim
      → rows_after delim r f (c ∷ line) others ≡ rows_after delim r (f ++ c ∷ []) line others
  unfolding rows_after
  rows_after-put r f c line [] h = refl
  rows_after-put r f c line (next ∷ others) h =
      ap (λ x. non_empty (x ∷ []) ++ rows_after delim [] [] next others) (line_row-put r f c line h)

  rows_after-delim :
      (r : Row) (f : Bytes) (c : ℕ) (line : Bytes) (others : List Bytes)
      → c ≡ delim
      → rows_after delim r f (c ∷ line) others ≡ rows_after delim (flushed r f) [] line others
  unfolding rows_after
  rows_after-delim r f c line [] h = refl
  rows_after-delim r f c line (next ∷ others) h =
      ap (λ x. non_empty (x ∷ []) ++ rows_after delim [] [] next others)
        (line_row-delim r f c line h)

  pub rows_ahead_put :
      (r : Row) (f : Bytes) (c : ℕ) (cs : Bytes)
      → is_sep delim c ≡ false
      → rows_ahead delim r f (c ∷ cs) ≡ rows_ahead delim r (f ++ c ∷ []) cs
  unfolding rows_ahead split
  rows_ahead_put r f c cs h =
      let s = split is_newline cs in ground (arith, rows_after-put r f c s.first s.others)

  pub rows_ahead_delim :
      (r : Row) (f : Bytes) (c : ℕ) (cs : Bytes)
      → c ≡ delim
      → is_newline c ≡ false
      → rows_ahead delim r f (c ∷ cs) ≡ rows_ahead delim (flushed r f) [] cs
  unfolding rows_ahead split
  rows_ahead_delim r f c cs h n =
      let s = split is_newline cs in ground (arith, rows_after-delim r f c s.first s.others)

  pub rows_ahead_newline :
      (r : Row) (f : Bytes) (c : ℕ) (cs : Bytes)
      → is_newline c ≡ true
      → rows_ahead delim r f (c ∷ cs) ≡ non_empty (flushed r f ∷ []) ++ rows_ahead delim [] [] cs
  unfolding rows_ahead rows_after line_row split
  rows_ahead_newline r f c cs h = ground (arith, append-nil f)

  pub fits_ahead_put :
      (f : Bytes) (c : ℕ) (cs : Bytes)
      → is_sep delim c ≡ false
      → fits_ahead delim f (c ∷ cs) ≡ fits_ahead delim (f ++ c ∷ []) cs
  unfolding fits_ahead split
  fits_ahead_put f c cs h = ground (arith, length-append f (c ∷ []))

  pub fits_ahead_sep :
      (f : Bytes) (c : ℕ) (cs : Bytes)
      → is_sep delim c ≡ true
      → length f ≤ 1024
      → fits_ahead delim f (c ∷ cs) ≡ fits_ahead delim [] cs
  unfolding fits_ahead split
  fits_ahead_sep f c cs h l = ground arith

  pub fits_ahead_full :
      (f : Bytes) (c : ℕ) (cs : Bytes)
      → is_sep delim c ≡ false
      → 1024 ≤ length f
      → fits_ahead delim f (c ∷ cs) ≡ false
  unfolding fits_ahead split
  fits_ahead_full f c cs h l = ground arith

  pub fits_ahead_nil : (f : Bytes) → length f ≤ 1024 → fits_ahead delim f [] ≡ true
  unfolding fits_ahead split
  fits_ahead_nil f l = ground arith

  pub rows_ahead_nil : (r : Row) (f : Bytes) → rows_ahead delim r f [] ≡ []
  unfolding rows_ahead rows_after split
  rows_ahead_nil r f = refl
