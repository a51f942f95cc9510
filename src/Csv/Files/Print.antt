-- ===== src/Csv/Files/Print.antt =====
-- What `saveToFile` of algo/CSV.cpp writes, and what the parser makes of it.
use boost_server_example.Base.{
  ℕ, zero, suc, ◌+◌, ◌-◌, ◌<◌, ◌≡◌, refl, sym, ap, ◌∙◌, true, List, [], ◌∷◌, ◌++◌, map, some, Bytes,
  ltb, if◌then◌else◌, length, get_elem?, arith, lt→ltb, append_assoc, append-nil, length-append,
}
use boost_server_example.Base.Result.{ok}
use boost_server_example.Csv.{Csv, Row}
use boost_server_example.Csv.Access.Laws.{Width, IsRect}
use boost_server_example.Csv.Files.{write_cells, write_rows, save_to_file}

-- The pieces with the separator between them.
unfoldable pub join : ℕ → List Bytes → Bytes
join sep [] = []
join sep (x ∷ []) = x
join sep (x ∷ y ∷ ys) = x ++ (sep ∷ join sep (y ∷ ys))

-- The rows as text, with no line end behind the last.
unfoldable pub render : ℕ → List Row → Bytes
render delim rows = join 10 (map (join delim) rows)

get_elem?-append {ℓ} :
    {A : Type ℓ} (xs : List A) (x : A) (ys : List A) {n : ℕ}
    → n ≡ length xs
    → get_elem? (xs ++ x ∷ ys) n ≡ some x
get_elem?-append [] x ys {n = zero} e = refl
get_elem?-append [] x ys {n = suc n} e = absurd (omega arith)
get_elem?-append (y ∷ xs) x ys {n = zero} e = absurd (omega arith)
get_elem?-append (y ∷ xs) x ys {n = suc n} e = get_elem?-append xs x ys {n = n} (omega arith)

write_cells-step :
    (csv : Csv) (row : Row) (n j : ℕ) {field rest : Bytes}
    → get_elem? row j ≡ some field
    → write_cells csv row n (j + 1) ≡ ok rest
    → write_cells csv row (suc n) j
      ≡ ok (field ++ (if ltb j (csv.cols_count - 1) then csv.delimiter ∷ rest else rest))
unfolding write_cells
write_cells-step csv row n j e h = rw (e, h)

join-cons :
    (sep : ℕ) (x y : Bytes) (ys : List Bytes)
    → join sep (x ∷ y ∷ ys) ≡ x ++ (sep ∷ join sep (y ∷ ys))
unfolding join
join-cons sep x y ys = refl

write_cells-join :
    (csv : Csv) (pre rest : List Bytes) (j : ℕ)
    → j ≡ length pre
    → j + length rest ≡ csv.cols_count
    → write_cells csv (pre ++ rest) (length rest) j ≡ ok (join csv.delimiter rest)
write_cells-join csv pre [] j e w = unfold write_cells join in refl
write_cells-join csv pre (x ∷ []) j e w =
    unfold write_cells join in ground (arith, get_elem?-append pre x [] {n = j} e, append-nil x)
write_cells-join csv pre (x ∷ y ∷ ys) j e w =
    let later = rw (append_assoc pre (x ∷ []) (y ∷ ys)) at (
      write_cells-join csv (pre ++ x ∷ []) (y ∷ ys) (j + 1)
        (omega (arith, length-append pre (x ∷ []))) (omega arith)) in
    let more : ltb j (csv.cols_count - 1) ≡ true = lt→ltb _ _ (omega arith) in
    write_cells-step csv (pre ++ x ∷ y ∷ ys) (length (y ∷ ys)) j
      (get_elem?-append pre x (y ∷ ys) {n = j} e) later
    ∙ rw (more, join-cons csv.delimiter x y ys)

write_row :
    (csv : Csv) (row : Row)
    → length row ≡ csv.cols_count
    → write_cells csv row csv.cols_count 0 ≡ ok (join csv.delimiter row)
write_row csv row w = rw w at (write_cells-join csv [] row 0 refl (omega arith))

write_rows-join :
    (csv : Csv) (pre rest : List Row) (i : ℕ)
    → i ≡ length pre
    → i + length rest ≡ csv.rows_count
    → csv.rows_deque ≡ pre ++ rest
    → Width csv.cols_count rest
    → write_rows csv (length rest) i ≡ ok (render csv.delimiter rest)
unfolding write_rows render join
write_rows-join csv pre [] i e c d w = refl
write_rows-join csv pre (x ∷ []) i e c d w = ground (
  arith,
  ap (λ xs. get_elem? xs i) d ∙ get_elem?-append pre x [] {n = i} e,
  write_row csv x w.0,
  append-nil (join csv.delimiter x),
)
write_rows-join csv pre (x ∷ y ∷ ys) i e c d w = ground (
  arith,
  ap (λ xs. get_elem? xs i) d ∙ get_elem?-append pre x (y ∷ ys) {n = i} e,
  write_row csv x w.0,
  write_rows-join csv (pre ++ x ∷ []) (y ∷ ys) (i + 1) (omega (arith, length-append pre (x ∷ [])))
      (omega arith) (d ∙ sym (append_assoc pre (x ∷ []) (y ∷ ys))) w.1,
)

-- A rectangular table with a row and a column is written as its rows joined.
pub save_to_file-render :
    (csv : Csv)
    → IsRect csv
    → 0 < csv.rows_count
    → 0 < csv.cols_count
    → save_to_file true csv ≡ ok (render csv.delimiter csv.rows_deque)
unfolding save_to_file
save_to_file-render csv v hr hc =
    let written =
      write_rows-join csv [] csv.rows_deque 0 refl (omega (arith, v.counted)) refl v.width in
    ground (arith, rw (← v.counted) at written)
