-- ===== src/Csv/Access/Laws.antt =====
-- What the accessors of algo/CSV.cpp promise on a table whose rows have one width.
use native.Mathlib.Decide.{dec_lt}
use boost_server_example.Base.{
  ◌⊎◌, ℕ, zero, suc, ◌+◌, ◌^◌, ◌≤◌, ◌<◌, ◌≡◌, refl, ◌&&◌, List, [], ◌∷◌, ◌++◌, Bytes, ◌==◌,
  if◌then◌else◌, length, get_elem?, set?, arith, some, length-append, get_elem?-lt, get_elem?-set?,
  length-set?, Option-cases, inl, inr,
}
use boost_server_example.Base.Result.{ok, err, terminated}
use boost_server_example.Csv.{Csv, Row}
use boost_server_example.Csv.Access.{append_row, get_at, set_at}

-- Every row has `n` cells.
abbrev pub Width : ℕ → List Row → Type 0
Width n [] = Unit {0}
Width n (r ∷ rs) = (length r ≡ n) × Width n rs

-- The counters describe the deque.
pub record IsRect (csv : Csv) : Type 0 where
  pub counted : csv.rows_count ≡ length csv.rows_deque
  pub small : length csv.rows_deque < 2 ^ 32
  pub width : Width csv.cols_count csv.rows_deque

Width-append : (n : ℕ) (xs ys : List Row) → Width n xs → Width n ys → Width n (xs ++ ys)
Width-append n [] ys w v = v
Width-append n (x ∷ xs) ys w v = (w.0, Width-append n xs ys w.1 v)

-- Appending keeps a table of fewer than 2^32 - 1 rows rectangular, whatever the width of the row.
pub append_row-IsRect :
    (csv : Csv) (row : Row)
    → IsRect csv
    → length csv.rows_deque + 1 < 2 ^ 32
    → IsRect (append_row csv row)
unfolding append_row
append_row-IsRect csv row v room = ground (
  arith,
  length-append csv.rows_deque (row ∷ []),
  Width-append csv.cols_count csv.rows_deque (row ∷ []) v.width,
)

Width-get :
    (n : ℕ) (rows : List Row) (i : ℕ) {r : Row}
    → Width n rows
    → get_elem? rows i ≡ some r
    → length r ≡ n
Width-get n [] i w e = cc
Width-get n (x ∷ xs) zero w e = ground arith
Width-get n (x ∷ xs) (suc i) w e = Width-get n xs i w.1 e

-- On a rectangular table a read inside the counters finds a field, and any other read ends the
-- program.
pub get_at_total :
    (csv : Csv) (i j : ℕ)
    → IsRect csv
    → (i < csv.rows_count → j < csv.cols_count → (field : Bytes) × (get_at csv i j ≡ ok field))
      × ((csv.rows_count ≤ i) ⊎ (csv.cols_count ≤ j) → get_at csv i j ≡ err terminated)
get_at_total csv i j v = (inside, outside)
  where
    inside : i < csv.rows_count → j < csv.cols_count → (field : Bytes) × (get_at csv i j ≡ ok field)
    inside hi hj =
        let (r, e) = get_elem?-lt csv.rows_deque i (omega (arith, v.counted)) in
        let w = Width-get csv.cols_count csv.rows_deque i v.width e in
        let (f, g) = get_elem?-lt r j (omega (arith, w)) in
        (f, unfold get_at in ground (arith, e, g))

    outside : (csv.rows_count ≤ i) ⊎ (csv.cols_count ≤ j) → get_at csv i j ≡ err terminated
    outside (inl h) = unfold get_at in ground arith
    outside (inr h) = elim (dec_lt i csv.rows_count) [
      | yes below ↦
          let (r, e) = get_elem?-lt csv.rows_deque i (omega (arith, v.counted)) in
          unfold get_at in ground (arith, e)
      | no above ↦ unfold get_at in ground arith
    ]

Width-set? :
    (n : ℕ) (rows : List Row) (i : ℕ) (r : Row) {rows' : List Row}
    → length r ≡ n
    → Width n rows
    → set? rows i r ≡ some rows'
    → Width n rows'
Width-set? n [] i r l w e = cc
Width-set? n (x ∷ xs) zero r l w e = ground arith
Width-set? n (x ∷ xs) (suc i) r l w e = elim (Option-cases (set? xs i r)) [
  | inl failed ↦ ground (arith, failed)
  | inr (zs, done) ↦ ground (arith, done, Width-set? n xs i r l w.1 done)
]

set?-lt {ℓ} :
    {A : Type ℓ} (xs : List A) (i : ℕ) (v : A)
    → i < length xs
    → (ys : List A) × (set? xs i v ≡ some ys)
set?-lt [] i v h = absurd (omega arith)
set?-lt (x ∷ xs) zero v h = (v ∷ xs, refl)
set?-lt (x ∷ xs) (suc i) v h =
    let (ys, e) = set?-lt xs i v (omega arith) in (x ∷ ys, ground (arith, e))

-- What a successful `set_at` did.
record Wrote (csv : Csv) (i j : ℕ) (value : Bytes) (after : Csv) : Type 0 where
  old : Row
  new : Row
  inside : (i < csv.rows_count) × (j < csv.cols_count)
  found : get_elem? csv.rows_deque i ≡ some old
  written : set? old j value ≡ some new
  stored : set? csv.rows_deque i new ≡ some after.rows_deque
  kept : after ≡ record csv { rows_deque = after.rows_deque }

set_at-Wrote :
    (csv : Csv) (i j : ℕ) (value : Bytes) {after : Csv}
    → set_at csv i j value ≡ ok after
    → Wrote csv i j value after
unfolding set_at
set_at-Wrote csv i j value e = elim (Option-cases (get_elem? csv.rows_deque i)) [
  | inl missing ↦ absurd (ground (arith, missing))
  | inr (old, found) ↦ elim (Option-cases (set? old j value)) [
    | inl missing ↦ absurd (ground (arith, found, missing))
    | inr (new, written) ↦ elim (Option-cases (set? csv.rows_deque i new)) [
      | inl missing ↦ absurd (ground (arith, found, written, missing))
      | inr (rows, stored) ↦ record {
        old = old;
        new = new;
        inside = ground (arith, found, written, stored);
        found = found;
        written = written;
        stored = ground (arith, found, written, stored);
        kept = ground (arith, found, written, stored);
      }
    ]
  ]
]

-- A successful `set_at` changes the field that it names, and no other read.
get_at-set_at :
    (csv : Csv) (i j : ℕ) (value : Bytes) {after : Csv}
    → set_at csv i j value ≡ ok after
    → (k l : ℕ) → get_at after k l ≡ (if k == i && l == j then ok value else get_at csv k l)
unfolding get_at
get_at-set_at csv i j value {after} e k l =
    let w = set_at-Wrote csv i j value e in
    ground (
      arith,
      w.found,
      w.kept,
      w.inside,
      get_elem?-set? csv.rows_deque i w.new k w.stored,
      get_elem?-set? w.old j value l w.written,
    )

-- On a rectangular table a write inside the counters succeeds, is read back, and keeps the table
-- rectangular with the counters as they were.
set_at-IsRect :
    (csv : Csv) (i j : ℕ) (value : Bytes)
    → IsRect csv
    → i < csv.rows_count
    → j < csv.cols_count
    → (after : Csv) × (set_at csv i j value ≡ ok after)
      × IsRect after
      × (get_at after i j ≡ ok value)
      × (after.rows_count ≡ csv.rows_count)
      × (after.cols_count ≡ csv.cols_count)
set_at-IsRect csv i j value v hi hj =
    let (r, e) = get_elem?-lt csv.rows_deque i (omega (arith, v.counted)) in
    let w = Width-get csv.cols_count csv.rows_deque i v.width e in
    let (r', f) = set?-lt r j value (omega (arith, w)) in
    let (rows, g) = set?-lt csv.rows_deque i r' (omega (arith, v.counted)) in
    let done : set_at csv i j value ≡ ok (record csv { rows_deque = rows }) =
      unfold set_at in ground (arith, e, f, g) in
    let same = length-set? csv.rows_deque i r' g in
    let wide = length-set? r j value f in
    (
      record csv { rows_deque = rows },
      done,
      record {
        counted = omega (arith, same, v.counted);
        small = omega (arith, same, v.small);
        width = Width-set? csv.cols_count csv.rows_deque i r' (omega (arith, w, wide)) v.width g;
      },
      ground (arith, get_at-set_at csv i j value done i j),
      refl,
      refl,
    )
