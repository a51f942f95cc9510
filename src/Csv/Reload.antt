-- ===== src/Csv/Reload.antt =====
-- `loadFromMemory` of algo/CSV.cpp into a table that has rows.
use mathlib.Core.List.{flatten}
use boost_server_example.Base.{
  ℕ, ◌+◌, ◌^◌, ◌<◌, ◌≡◌, refl, sym, ap, ◌∙◌, Bool, false, List, [], ◌∷◌, ◌++◌, map, Bytes, arith,
  if◌then◌else◌, length, length-append, length-drop, replicate, length-replicate, drop,
  append_assoc, u32, pop_back, pop_back-append,
}
use boost_server_example.Base.Result.{Result, ok, err, ◌>>=◌, field_overflow}
use boost_server_example.Csv.{Csv, Row, Scan, scan_str, finish_parse, parse_data, load_from_memory}
use boost_server_example.Csv.Ahead.{line_row}
use boost_server_example.Csv.Load.{split_blocks-drop}
use boost_server_example.Csv.Parse.{fits_ahead-fields_fit, scan_blocks-flatten}
use boost_server_example.Csv.Rescan.{
  later, later-drop, scan_on, rows_on, ahead, Leaves, left, scan_str-On,
}
use boost_server_example.Csv.Table.{split, is_newline, cells, lines, lines_of, fields_fit}
use boost_server_example.Csv.Table.Size.{lines-short}

abbrev width : List Row → ℕ
width [] = 0
width (first ∷ rest) = length first

-- The table with other rows; the columns are those of the first row.
abbrev pub with_rows : Csv → List Row → Csv
with_rows csv rows = record csv {
  rows_deque = rows;
  rows_count = length rows;
  cols_count = u32 (width rows);
}

-- The rows of the lines of a text, blank ones among them, with `n` empty fields in front.
abbrev pub indented : ℕ → ℕ → Bytes → List Row
indented delim n text = map (λ line. replicate n [] ++ cells delim line) (lines text)

-- These rows, behind them the old rows that they do not cover, and then empty ones, as many as lines.
abbrev pub reloaded : Csv → Bytes → List Row
reloaded csv text =
    let new = indented csv.delimiter csv.rows_count text in
    new ++ drop (length new) (csv.rows_deque ++ replicate (length new) [])

rows_on-map :
    (delim n : ℕ) (first : Bytes) (others : List Bytes)
    → rows_on delim n (replicate n []) [] first others
      ≡ map (λ line. replicate n [] ++ cells delim line) (lines_of first others)
unfolding line_row lines_of cells
rows_on-map delim n first [] = refl
rows_on-map delim n first (next ∷ others) =
    ap (λ xs. (replicate n [] ++ cells delim first) ∷ xs) (rows_on-map delim n next others)

ahead-indented :
    (delim n : ℕ) (text : Bytes) → ahead delim n (replicate n []) [] text ≡ indented delim n text
unfolding lines
ahead-indented delim n text = let s = split is_newline text in rows_on-map delim n s.first s.others

length-map {ℓ κ} :
    {A : Type ℓ} {B : Type κ} (f : A → B) (xs : List A) → length (map f xs) ≡ length xs
length-map f [] = refl
length-map f (x ∷ xs) = omega (arith, length-map f xs)

finish_parse-with_rows :
    (csv : Csv) (rows : List Row)
    → 0 < length rows
    → length rows < 2 ^ 32
    → finish_parse csv rows ≡ with_rows csv rows
unfolding finish_parse
finish_parse-with_rows csv [] some_row small = absurd (omega arith)
finish_parse-with_rows csv (r ∷ rs) some_row small =
    let count : u32 (length (r ∷ rs)) ≡ length (r ∷ rs) = omega arith in ground (arith, count)

pop_back-left :
    (delim n : ℕ) (old new : List Row)
    → pop_back (left delim n [] old new)
      ≡ new ++ drop (length new) (old ++ replicate (length new) [])
pop_back-left delim n old new =
    ap pop_back (sym (append_assoc new (later (length new) old) ([] ∷ [])))
    ∙ pop_back-append (new ++ later (length new) old) []
    ∙ ap (◌++◌ new) (later-drop (length new) old)

parse_end :
    (csv : Csv) (delim n : ℕ) (fit : Bool) (rows done : List Row) (scanned : Result Scan)
    → Leaves delim n fit rows scanned
    → finish_parse csv (pop_back rows) ≡ with_rows csv done
    → (scanned >>= λ s. ok (finish_parse csv (pop_back s.rows)))
      ≡ (if fit then ok (with_rows csv done) else err field_overflow)
parse_end csv delim n fit rows done (ok s) (f, e) finish = rw (f, e, finish) refl
parse_end csv delim n fit rows done (err x) (f, e) finish = rw (f, e) refl

length-reloaded :
    (csv : Csv) (text : Bytes)
    → length (reloaded csv text) ≡ length (lines text) + length csv.rows_deque
length-reloaded csv text =
    let new = indented csv.delimiter csv.rows_count text in
    omega (
      arith,
      length-append new (drop (length new) (csv.rows_deque ++ replicate (length new) [])),
      length-drop (length new) (csv.rows_deque ++ replicate (length new) []),
      length-append csv.rows_deque (replicate (length new) []),
      length-replicate {A = Row} (length new) [],
      length-map (λ line. replicate csv.rows_count [] ++ cells csv.delimiter line) (lines text),
    )

parse_data-reloaded :
    (csv : Csv) (blocks : List Bytes)
    → is_newline csv.delimiter ≡ false
    → length csv.rows_deque ≡ csv.rows_count
    → 0 < csv.rows_count
    → csv.rows_count + length (flatten blocks) < 2 ^ 31
    → parse_data csv blocks ≡ (
        if fields_fit csv.delimiter (flatten blocks)
        then ok (with_rows csv (reloaded csv (flatten blocks)))
        else err field_overflow)
unfolding parse_data
parse_data-reloaded csv blocks nd counted some_row small =
    let text = flatten blocks in
    let delim = csv.delimiter in
    let n = csv.rows_count in
    let size = length-reloaded csv text in
    let short = lines-short text in
    let start = scan_on [] 0 [] csv.rows_deque (replicate n []) in
    let scanned =
      scan_str-On delim n nd some_row text [] 0 [] csv.rows_deque (replicate n []) refl
        (omega arith) (omega arith) (omega (arith, length-replicate {A = Bytes} n [])) in
    let old = csv.rows_deque in
    let finish =
      ap (λ new. finish_parse csv (pop_back (left delim n [] old new)))
        (ahead-indented delim n text)
      ∙ ap (finish_parse csv) (pop_back-left delim n old (indented delim n text))
      ∙ finish_parse-with_rows csv (reloaded csv text) (omega arith) (omega arith) in
    ap (λ m. m >>= λ (s : Scan). ok (finish_parse csv (pop_back s.rows)))
      (scan_blocks-flatten delim n start blocks)
    ∙ parse_end csv delim n _ _ (reloaded csv text) (scan_str delim n start text) scanned finish
    ∙ ap
        (λ (fit : Bool). if fit then ok (with_rows csv (reloaded csv text)) else err field_overflow)
        (fits_ahead-fields_fit delim text)

-- A load into a table that has rows, as many as its counter says, does not replace them. If the
-- delimiter is no line end, there is fuel for one round per byte and one more, and the rows and the
-- bytes of the text together are fewer than 2^31, every line of the text, blank ones too, gives a
-- row with as many empty fields in front as the table had rows; these rows overwrite the first of
-- the old ones, and as many empty rows are added at the end. If some stretch without a delimiter or
-- a line end is longer than 1024 bytes, the code writes past the end of `cur_field`.
pub load_from_memory-reloads :
    (fuel : ℕ) (csv : Csv) (text : Bytes)
    → is_newline csv.delimiter ≡ false
    → length csv.rows_deque ≡ csv.rows_count
    → 0 < csv.rows_count
    → csv.rows_count + length text < 2 ^ 31
    → length text < fuel
    → load_from_memory fuel csv text ≡ (
        if fields_fit csv.delimiter text
        then ok (with_rows csv (reloaded csv text))
        else err field_overflow)
unfolding load_from_memory
load_from_memory-reloads fuel csv text nd counted some_row small enough =
    let (bs, e, f) = split_blocks-drop fuel 0 text (omega arith) (omega arith) in
    rw e (rw f at (parse_data-reloaded csv bs nd counted some_row (rw f small)))
