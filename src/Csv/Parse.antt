-- ===== src/Csv/Parse.antt =====
-- `parseData` of algo/CSV.cpp on a fresh table computes `table`, or overruns its field buffer.
use mathlib.Core.List.{flatten}
use boost_server_example.Base.{
  ℕ, ◌+◌, ◌^◌, ◌≤◌, ◌<◌, ◌≡◌, refl, sym, ap, ◌∙◌, Bool, false, List, [], ◌∷◌, ◌++◌, map, Bytes,
  arith, if◌then◌else◌, length, u32, pop_back, pop_back-append,
}
use boost_server_example.Base.Result.{Result, ok, err, field_overflow, ◌>>=◌, >>=-assoc}
use mathlib.Core.Path.{fun_ext}
use boost_server_example.Csv.{
  scan_char, Csv, Scan, Row, scan_str, scan_blocks, finish_parse, parse_data, new_csv,
}
use boost_server_example.Csv.Ahead.{rows_after, rows_ahead, fits_ahead, line_row}
use boost_server_example.Csv.Run.{Outcome, scan_str-Ahead}
use boost_server_example.Csv.Table.Size.{Short, table-Short}
use boost_server_example.Csv.Scanner.{scan_at, non_empty-append}
use boost_server_example.Csv.Table.{
  split, is_newline, non_empty, cells, lines_of, lines, table, fields_fit,
}

-- A table that holds the rows; the columns are those of the first row.
abbrev pub of_rows : ℕ → List Row → Csv
of_rows delim [] = record { rows_count = 0; cols_count = 0; rows_deque = []; delimiter = delim }
of_rows delim (r ∷ rs) = record {
  rows_count = length (r ∷ rs);
  cols_count = length r;
  rows_deque = r ∷ rs;
  delimiter = delim;
}

non_empty-head {ℓ} :
    {A : Type ℓ} (x : List A) (xs : List (List A))
    → non_empty (x ∷ xs) ≡ non_empty (x ∷ []) ++ non_empty xs
non_empty-head x xs = non_empty-append (x ∷ []) xs

rows_after-table :
    (delim : ℕ) (first : Bytes) (others : List Bytes)
    → rows_after delim [] [] first others ≡ non_empty (map (cells delim) (lines_of first others))
unfolding rows_after line_row lines_of cells
rows_after-table delim first [] = unfold non_empty in refl
rows_after-table delim first (next ∷ others) =
    ap (◌++◌ (non_empty (cells delim first ∷ []))) (rows_after-table delim next others)
    ∙ sym (non_empty-head (cells delim first) (map (cells delim) (lines_of next others)))

rows_ahead-table : (delim : ℕ) (text : Bytes) → rows_ahead delim [] [] text ≡ table delim text
unfolding rows_ahead table lines
rows_ahead-table delim text =
    let s = split is_newline text in rows_after-table delim s.first s.others

pub fits_ahead-fields_fit :
    (delim : ℕ) (text : Bytes) → fits_ahead delim [] text ≡ fields_fit delim text
unfolding fits_ahead fields_fit
fits_ahead-fields_fit delim text = ground arith

scan_str-append :
    (delim n : ℕ) (s : Scan) (xs ys : Bytes)
    → scan_str delim n s (xs ++ ys) ≡ (scan_str delim n s xs >>= λ t. scan_str delim n t ys)
unfolding scan_str
scan_str-append delim n s [] ys = refl
scan_str-append delim n s (c ∷ xs) ys =
    ap (◌>>=◌ (scan_char delim n s c)) (fun_ext (λ s'. scan_str-append delim n s' xs ys))
    ∙ sym (
        >>=-assoc (scan_char delim n s c) (λ s'. scan_str delim n s' xs)
          (λ t. scan_str delim n t ys))

-- The blocks are read as one text.
pub scan_blocks-flatten :
    (delim n : ℕ) (s : Scan) (blocks : List Bytes)
    → scan_blocks delim n s blocks ≡ scan_str delim n s (flatten blocks)
unfolding scan_blocks flatten
scan_blocks-flatten delim n s [] = unfold scan_str in refl
scan_blocks-flatten delim n s (b ∷ bs) =
    ap (◌>>=◌ (scan_str delim n s b)) (fun_ext (λ t. scan_blocks-flatten delim n t bs))
    ∙ sym (scan_str-append delim n s b (flatten bs))

finish_parse-of_rows :
    (delim n : ℕ) (rows : List Row)
    → length rows ≤ n
    → Short (n + 1) rows
    → n < 2 ^ 31
    → finish_parse (new_csv delim 0 0) rows ≡ of_rows delim rows
unfolding finish_parse new_csv
finish_parse-of_rows delim n [] l s h = refl
finish_parse-of_rows delim n (r ∷ rs) l s h =
    let rows_fit : u32 (length (r ∷ rs)) ≡ length (r ∷ rs) = omega arith in
    let cols_fit : u32 (length r) ≡ length r = omega arith in ground (arith, rows_fit, cols_fit)

parse_end :
    (delim : ℕ) (fit : Bool) (rows : List Row) (scanned : Result Scan)
    → Outcome delim fit rows scanned
    → finish_parse (new_csv delim 0 0) rows ≡ of_rows delim rows
    → (scanned >>= λ s. ok (finish_parse (new_csv delim 0 0) (pop_back s.rows)))
      ≡ (if fit then ok (of_rows delim rows) else err field_overflow)
parse_end delim fit rows (ok s) (f, e) finish = rw (f, e, pop_back-append rows [], finish)
parse_end delim fit rows (err x) (f, e) finish = rw (f, e)

-- On a fresh table, `parse_data` finds the rows of the text if no field is longer than 1024 bytes,
-- and otherwise writes past the end of `cur_field`.
pub parse_data-eq-table :
    (delim : ℕ) (blocks : List Bytes)
    → is_newline delim ≡ false
    → length (flatten blocks) < 2 ^ 31
    → parse_data (new_csv delim 0 0) blocks ≡ (
        if fields_fit delim (flatten blocks)
        then ok (of_rows delim (table delim (flatten blocks)))
        else err field_overflow)
unfolding parse_data new_csv
parse_data-eq-table delim blocks nd small =
    let text = flatten blocks in
    let sizes = table-Short delim text in
    let finish =
      finish_parse-of_rows delim (length text) (table delim text) sizes.0 sizes.1 small in
    let scanned = scan_str-Ahead delim nd text [] 0 [] [] refl (omega arith) (omega arith) in
    rw (scan_blocks-flatten delim 0 (scan_at [] 0 [] []) blocks) (
      rw (fits_ahead-fields_fit delim text, rows_ahead-table delim text) at
        (parse_end delim _ _ _ scanned (rw (rows_ahead-table delim text) finish)))
