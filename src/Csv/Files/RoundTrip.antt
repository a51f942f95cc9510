-- ===== src/Csv/Files/RoundTrip.antt =====
-- `saveToFile` of algo/CSV.cpp followed by `loadFromMemory`.
use boost_server_example.Base.{
  ℕ, zero, suc, ◌+◌, ◌^◌, ◌≤◌, ◌<◌, ◌≡◌, ◌≢◌, refl, ap, ◌∙◌, Bool, true, false, List, [], ◌∷◌, ◌++◌,
  map, some, Bytes, length, arith, take, append_assoc, length-append, pop_back, pop_back-append,
  le→leb,
}
use boost_server_example.Base.Result.{ok}
use boost_server_example.Csv.{Csv, Row, new_csv, load_from_memory}
use boost_server_example.Csv.Access.Laws.{Width, IsRect}
use boost_server_example.Csv.Files.Print.{join, render, save_to_file-render}
use boost_server_example.Csv.Files.{save_to_file, load_from_file}
use boost_server_example.Csv.Load.{load_from_memory-eq-table}
use boost_server_example.Csv.Parse.{of_rows}
use boost_server_example.Csv.Table.{split, is_newline, is_sep, non_empty, cells, table, fields_fit}
use boost_server_example.Csv.Files.Plain.{
  Free, FreeAll, AllCells, Savable, split-Free, split-append, lines-join, cells-join, lines-FreeAll,
}

map-pop_back {ℓ κ} :
    {A : Type ℓ} {B : Type κ} (f : A → B) (xs : List A) → map f (pop_back xs) ≡ pop_back (map f xs)
map-pop_back f [] = refl
map-pop_back f (x ∷ []) = refl
map-pop_back f (x ∷ y ∷ ys) = ap (◌∷◌ (f x)) (map-pop_back f (y ∷ ys))

module _ (delim : ℕ) where
  cells-lines :
      (rows : List Row) → Savable delim rows → map (cells delim) (map (join delim) rows) ≡ rows
  cells-lines [] s = refl
  cells-lines (r ∷ rs) s = rw (cells-join delim r s.0 s.1, cells-lines rs s.2)

  non_empty-Savable : (rows : List Row) → Savable delim rows → non_empty rows ≡ rows
  unfolding non_empty
  non_empty-Savable [] s = refl
  non_empty-Savable ([] ∷ rs) s = absurd (s.0 refl)
  non_empty-Savable ((x ∷ xs) ∷ rs) s = ap (◌∷◌ (x ∷ xs)) (non_empty-Savable rs s.2)

  pop_back-Savable : (rows : List Row) → Savable delim rows → Savable delim (pop_back rows)
  pop_back-Savable [] s = tt
  pop_back-Savable (r ∷ []) s = tt
  pop_back-Savable (r ∷ r' ∷ rs) s = (s.0, s.1, pop_back-Savable (r' ∷ rs) s.2)

  -- Behind the last row there is no line end, so it is no line.
  table-render :
      (rows : List Row)
      → rows ≢ []
      → is_newline delim ≡ false
      → Savable delim rows
      → table delim (render delim rows) ≡ pop_back rows
  unfolding table render
  table-render [] ne nd s = absurd (ne refl)
  table-render (r ∷ rs) ne nd s =
      let ls = map (join delim) rs in
      ap (λ xs. non_empty (map (cells delim) xs))
        (lines-join (join delim r) ls (lines-FreeAll delim (r ∷ rs) nd s))
      ∙ ap non_empty
          (map-pop_back (cells delim) (join delim r ∷ ls) ∙ ap pop_back (cells-lines (r ∷ rs) s))
      ∙ non_empty-Savable (pop_back (r ∷ rs)) (pop_back-Savable (r ∷ rs) s)

  join-newline :
      (l : Bytes) (ls : List Bytes) → join 10 (l ∷ ls) ++ 10 ∷ [] ≡ join 10 ((l ∷ ls) ++ [] ∷ [])
  unfolding join
  join-newline l [] = refl
  join-newline l (m ∷ ls) =
      append_assoc l (10 ∷ join 10 (m ∷ ls)) (10 ∷ []) ∙ ap (λ t. l ++ (10 ∷ t)) (join-newline m ls)

  FreeAll-append : (p : ℕ → Bool) (xs : List Bytes) → FreeAll p xs → FreeAll p (xs ++ [] ∷ [])
  FreeAll-append p [] f = (tt, tt)
  FreeAll-append p (x ∷ xs) f = (f.0, FreeAll-append p xs f.1)

  table-render-newline :
      (rows : List Row)
      → rows ≢ []
      → is_newline delim ≡ false
      → Savable delim rows
      → table delim (render delim rows ++ 10 ∷ []) ≡ rows
  unfolding table render
  table-render-newline [] ne nd s = absurd (ne refl)
  table-render-newline (r ∷ rs) ne nd s =
      let ls = map (join delim) rs in
      rw
        (
          join-newline (join delim r) ls,
          lines-join (join delim r) (ls ++ [] ∷ [])
              (FreeAll-append is_newline (join delim r ∷ ls) (lines-FreeAll delim (r ∷ rs) nd s)),
          pop_back-append (join delim r ∷ ls) [],
          cells-lines (r ∷ rs) s,
        )
        (non_empty-Savable (r ∷ rs) s)

  fields_fit-append :
      (x : Bytes) (sep : ℕ) (rest : Bytes)
      → Free (is_sep delim) x
      → is_sep delim sep ≡ true
      → length x ≤ 1024
      → fields_fit delim (x ++ (sep ∷ rest)) ≡ fields_fit delim rest
  unfolding fields_fit
  fields_fit-append x sep rest f s l =
      rw (split-append (is_sep delim) x sep rest f s, le→leb (length x) 1024 l)

  fields_fit-one : (x : Bytes) → Free (is_sep delim) x → length x ≤ 1024 → fields_fit delim x ≡ true
  unfolding fields_fit
  fields_fit-one x f l = rw (split-Free (is_sep delim) x f, le→leb (length x) 1024 l)

  fields_fit-row :
      (x : Bytes) (xs : List Bytes) (rest : Bytes)
      → AllCells delim (x ∷ xs)
      → fields_fit delim (join delim (x ∷ xs) ++ (10 ∷ rest)) ≡ fields_fit delim rest
  unfolding join
  fields_fit-row x [] rest a = fields_fit-append x 10 rest a.0.1 (ground arith) a.0.2
  fields_fit-row x (y ∷ ys) rest a = rw (append_assoc x (delim ∷ join delim (y ∷ ys)) (10 ∷ rest)) (
      fields_fit-append x delim (join delim (y ∷ ys) ++ (10 ∷ rest)) a.0.1 (ground arith) a.0.2
      ∙ fields_fit-row y ys rest a.1)

  fields_fit-last :
      (x : Bytes) (xs : List Bytes)
      → AllCells delim (x ∷ xs)
      → fields_fit delim (join delim (x ∷ xs)) ≡ true
  unfolding join
  fields_fit-last x [] a = fields_fit-one x a.0.1 a.0.2
  fields_fit-last x (y ∷ ys) a =
      fields_fit-append x delim (join delim (y ∷ ys)) a.0.1 (ground arith) a.0.2
      ∙ fields_fit-last y ys a.1

  fields_fit-render :
      (rows : List Row) → Savable delim rows → fields_fit delim (render delim rows) ≡ true
  unfolding render join
  fields_fit-render [] s = unfold fields_fit split in refl
  fields_fit-render ([] ∷ rs) s = absurd (s.0 refl)
  fields_fit-render ((x ∷ xs) ∷ []) s = fields_fit-last x xs s.1
  fields_fit-render ((x ∷ xs) ∷ r ∷ rs) s =
      fields_fit-row x xs (render delim (r ∷ rs)) s.1 ∙ fields_fit-render (r ∷ rs) s.2

  fields_fit-render-newline :
      (rows : List Row)
      → Savable delim rows
      → fields_fit delim (render delim rows ++ 10 ∷ []) ≡ true
  unfolding render join
  fields_fit-render-newline [] s = unfold fields_fit split in ground arith
  fields_fit-render-newline ([] ∷ rs) s = absurd (s.0 refl)
  fields_fit-render-newline ((x ∷ xs) ∷ []) s =
      fields_fit-row x xs [] s.1 ∙ (unfold fields_fit split in refl)
  fields_fit-render-newline ((x ∷ xs) ∷ r ∷ rs) s =
      rw (append_assoc (join delim (x ∷ xs)) (10 ∷ render delim (r ∷ rs)) (10 ∷ [])) (
        fields_fit-row x xs (render delim (r ∷ rs) ++ 10 ∷ []) s.1
        ∙ fields_fit-render-newline (r ∷ rs) s.2)

of_rows-IsRect :
    (csv : Csv) → IsRect csv → 0 < csv.rows_count → of_rows csv.delimiter csv.rows_deque ≡ csv
of_rows-IsRect csv v h = go csv.rows_deque v.counted v.width refl
  where
    go :
        (rows : List Row)
        → csv.rows_count ≡ length rows
        → Width csv.cols_count rows
        → rows ≡ csv.rows_deque
        → of_rows csv.delimiter rows ≡ csv
    go [] c w e = absurd (omega arith)
    go (r ∷ rs) c w e = ground arith

-- A rectangular table of plain cells, with a row and a column at least, a delimiter that is no line
-- end and a text of fewer than 2^31 bytes, is saved without a line end behind its last row. Loaded
-- into a fresh table that text gives all rows but the last; with a line end added it gives back the
-- table.
pub load-save :
    (fuel : ℕ) (csv : Csv)
    → IsRect csv
    → 0 < csv.rows_count
    → 0 < csv.cols_count
    → is_newline csv.delimiter ≡ false
    → Savable csv.delimiter csv.rows_deque
    → length (render csv.delimiter csv.rows_deque) + 1 < fuel
    → length (render csv.delimiter csv.rows_deque) + 1 < 2 ^ 31
    → (text : Bytes) × (save_to_file true csv ≡ ok text)
      × (load_from_memory fuel (new_csv csv.delimiter 0 0) text
          ≡ ok (of_rows csv.delimiter (pop_back csv.rows_deque)))
      × (load_from_memory fuel (new_csv csv.delimiter 0 0) (text ++ 10 ∷ []) ≡ ok csv)
load-save fuel csv v hr hc nd s enough small =
    let rows = csv.rows_deque in
    let d = csv.delimiter in
    let text = render d rows in
    let ne : rows ≢ [] = λ e. absurd (omega (arith, v.counted, ap length e)) in
    let len = length-append text (10 ∷ []) in
    (
      text,
      save_to_file-render csv v hr hc,
      load_from_memory-eq-table fuel d text nd (omega arith) (omega arith)
          ∙ rw (fields_fit-render d rows s, table-render d rows ne nd s),
      load_from_memory-eq-table fuel d (text ++ 10 ∷ []) nd (omega (arith, len))
            (omega (arith, len))
          ∙ rw (fields_fit-render-newline d rows s, table-render-newline d rows ne nd s)
              (ap ok (of_rows-IsRect csv v hr)),
    )

take-append_of_le {ℓ} :
    {A : Type ℓ} (n : ℕ) (xs ys : List A) → n ≤ length xs → take n (xs ++ ys) ≡ take n xs
take-append_of_le zero xs ys h = refl
take-append_of_le (suc n) [] ys h = absurd (omega arith)
take-append_of_le (suc n) (x ∷ xs) ys h = ap (◌∷◌ x) (take-append_of_le n xs ys (omega arith))

-- `load_from_file` looks at the first 2048 bytes of a file only: two files that agree on them load
-- alike, whatever stands behind.
load_from_file-prefix :
    (junk : Bytes) (csv : Csv) (shared more other : Bytes)
    → 2048 ≤ length shared
    → load_from_file junk csv (some (shared ++ more))
      ≡ load_from_file junk csv (some (shared ++ other))
unfolding load_from_file
load_from_file-prefix junk csv shared more other h =
    ground (arith, take-append_of_le 2048 shared more h, take-append_of_le 2048 shared other h)
