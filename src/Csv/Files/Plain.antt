-- ===== src/Csv/Files/Plain.antt =====
-- Texts that are joined from plain pieces, and how the format of algo/CSV.cpp splits them again.
use boost_server_example.Base.{
  ℕ, ◌≤◌, ◌≡◌, ◌≢◌, refl, ap, Bool, true, false, List, [], ◌∷◌, ◌++◌, map, Bytes, ◌==◌, length,
  arith, pop_back, ==_iff,
}
use boost_server_example.Csv.{Row}
use boost_server_example.Csv.Files.Print.{join}
use boost_server_example.Csv.Table.{split, is_newline, is_sep, non_empty, cells, lines_of, lines}

-- No byte passes the test.
abbrev pub Free : (ℕ → Bool) → Bytes → Type 0
Free p [] = Unit {0}
Free p (c ∷ cs) = (p c ≡ false) × Free p cs

-- A cell that the format can express: some bytes, no separator, and room in `cur_field`.
abbrev pub IsCell : ℕ → Bytes → Type 0
IsCell delim cell = (cell ≢ []) × Free (is_sep delim) cell × (length cell ≤ 1024)

abbrev pub AllCells : ℕ → Row → Type 0
AllCells delim [] = Unit {0}
AllCells delim (x ∷ xs) = IsCell delim x × AllCells delim xs

-- Rows of such cells, none empty.
abbrev pub Savable : ℕ → List Row → Type 0
Savable delim [] = Unit {0}
Savable delim (r ∷ rs) = (r ≢ []) × AllCells delim r × Savable delim rs

abbrev pub FreeAll : (ℕ → Bool) → List Bytes → Type 0
FreeAll p [] = Unit {0}
FreeAll p (x ∷ xs) = Free p x × FreeAll p xs

module _ (p : ℕ → Bool) where
  pub split-Free : (x : Bytes) → Free p x → split p x ≡ record { first = x; others = [] }
  unfolding split
  split-Free [] f = refl
  split-Free (c ∷ cs) f = ground (arith, split-Free cs f.1)

  pub split-append :
      (x : Bytes) (sep : ℕ) (rest : Bytes)
      → Free p x
      → p sep ≡ true
      → split p (x ++ (sep ∷ rest))
        ≡ record { first = x; others = (split p rest).first ∷ (split p rest).others }
  unfolding split
  split-append [] sep rest f s = ground arith
  split-append (c ∷ cs) sep rest f s = ground (arith, split-append cs sep rest f.1 s)

  -- Splitting undoes joining.
  split-join :
      (sep : ℕ) (x : Bytes) (xs : List Bytes)
      → p sep ≡ true
      → FreeAll p (x ∷ xs)
      → split p (join sep (x ∷ xs)) ≡ record { first = x; others = xs }
  unfolding join
  split-join sep x [] s f = split-Free x f.0
  split-join sep x (y ∷ ys) s f =
      rw (split-append x sep (join sep (y ∷ ys)) f.0 s, split-join sep y ys s f.1)

pub lines_of-pop_back : (l : Bytes) (ls : List Bytes) → lines_of l ls ≡ pop_back (l ∷ ls)
unfolding lines_of
lines_of-pop_back l [] = refl
lines_of-pop_back l (m ∷ ls) = ap (◌∷◌ l) (lines_of-pop_back m ls)

pub lines-join :
    (l : Bytes) (ls : List Bytes)
    → FreeAll is_newline (l ∷ ls)
    → lines (join 10 (l ∷ ls)) ≡ pop_back (l ∷ ls)
unfolding lines
lines-join l ls f = rw (split-join is_newline 10 l ls refl f) (lines_of-pop_back l ls)

pub non_empty-cells : (delim : ℕ) (r : Row) → AllCells delim r → non_empty r ≡ r
unfolding non_empty
non_empty-cells delim [] a = refl
non_empty-cells delim ([] ∷ xs) a = absurd (a.0.0 refl)
non_empty-cells delim ((c ∷ x) ∷ xs) a = ap (◌∷◌ (c ∷ x)) (non_empty-cells delim xs a.1)

module _ (delim : ℕ) where
  Free-delim : (x : Bytes) → Free (is_sep delim) x → Free (λ c. c == delim) x
  Free-delim [] f = tt
  Free-delim (c ∷ cs) f = (ground arith, Free-delim cs f.1)

  Free-newline : (x : Bytes) → Free (is_sep delim) x → Free is_newline x
  Free-newline [] f = tt
  Free-newline (c ∷ cs) f = (ground arith, Free-newline cs f.1)

  cells-FreeAll : (r : Row) → AllCells delim r → FreeAll (λ c. c == delim) r
  cells-FreeAll [] a = tt
  cells-FreeAll (x ∷ xs) a = (Free-delim x a.0.1, cells-FreeAll xs a.1)

  pub cells-join : (r : Row) → r ≢ [] → AllCells delim r → cells delim (join delim r) ≡ r
  unfolding cells
  cells-join [] ne a = absurd (ne refl)
  cells-join (x ∷ xs) ne a =
      rw
        (split-join (λ c. c == delim) delim x xs ((==_iff delim delim).1 refl)
          (cells-FreeAll (x ∷ xs) a))
        (non_empty-cells delim (x ∷ xs) a)

  Free-append : (p : ℕ → Bool) (x y : Bytes) → Free p x → Free p y → Free p (x ++ y)
  Free-append p [] y f g = g
  Free-append p (c ∷ x) y f g = (f.0, Free-append p x y f.1 g)

  join-Free :
      (r : Row) → is_newline delim ≡ false → AllCells delim r → Free is_newline (join delim r)
  unfolding join
  join-Free [] nd a = tt
  join-Free (x ∷ []) nd a = Free-newline x a.0.1
  join-Free (x ∷ y ∷ ys) nd a =
      Free-append is_newline x (delim ∷ join delim (y ∷ ys)) (Free-newline x a.0.1)
        (nd, join-Free (y ∷ ys) nd a.1)

  pub lines-FreeAll :
      (rows : List Row)
      → is_newline delim ≡ false
      → Savable delim rows
      → FreeAll is_newline (map (join delim) rows)
  lines-FreeAll [] nd s = tt
  lines-FreeAll (r ∷ rs) nd s = (join-Free r nd s.1, lines-FreeAll rs nd s.2)
