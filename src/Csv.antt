-- ===== src/Csv.antt =====
-- algo/CSV.cpp and algo/CSV.hpp: the table, its accessors, the parser and the printer. Files are
-- arguments. A `char` is compared for equality only, so it is a byte here.
pub mod Table
mod Scanner
mod Ahead
mod Run
pub mod Parse
pub mod Load
mod Rescan
pub mod Reload
pub mod Access
pub mod Files
mod Tests
use boost_server_example.Base.{
  ℕ, zero, suc, ◌+◌, ◌^◌, not, ◌&&◌, List, [], ◌∷◌, ◌++◌, Option, none, some, Bytes, u32, ltb, ◌==◌,
  if◌then◌else◌, length, set?, take, drop, replicate, pop_back,
}
use boost_server_example.Base.Result.{
  Result, ok, ◌>>=◌, ◌>>◌, require, or_fault, field_overflow, bad_index, int_overflow, no_fuel,
}

abbrev pub Row : Type 0
Row = List Bytes

abbrev pub max_field_size : ℕ
max_field_size = 1024

abbrev pub read_block_size : ℕ
read_block_size = 2048

-- `delimiter_` is last in the class; `unparsedBuffer_` and its size are used nowhere.
pub record Csv : Type 0 where
  pub rows_count : ℕ
  pub cols_count : ℕ
  pub rows_deque : List Row
  pub delimiter : ℕ

-- The constructor; `CSV csv;` is `new_csv b',' 0 0`.
unfoldable pub new_csv : ℕ → ℕ → ℕ → Csv
new_csv delim rows cols = record {
  rows_count = rows;
  cols_count = cols;
  rows_deque = replicate rows (replicate cols []);
  delimiter = delim;
}

-- The variables of the loops of `parseData`. `cur_field` holds the `cur_field_size` bytes of the
-- buffer that are in use, `rw` the row that the pointer leads to.
pub record Scan : Type 0 where
  pub cur_field : Bytes
  pub cur_col : ℕ
  pub rows : List Row
  pub rw_row : Row

-- The write to `cur_field[cur_field_size]`.
put_char : Scan → ℕ → Result Scan
put_char s c = do
  require (ltb (length s.cur_field) max_field_size) field_overflow
  ok (record s { cur_field = s.cur_field ++ c ∷ [] })

-- `if (cur_field_size > 0) …`
end_field : Scan → Scan
end_field s =
    if ltb 0 (length s.cur_field)
    then record s { rw_row = s.rw_row ++ s.cur_field ∷ []; cur_field = [] }
    else s

-- The row goes to the deque's place `cur_col`, and a fresh row has `rowsCount_` empty fields.
store_row : ℕ → Scan → Result Scan
store_row rows_count s = do
  stored ← or_fault (set? (s.rows ++ [] ∷ []) s.cur_col s.rw_row) bad_index
  require (ltb (s.cur_col + 1) (2 ^ 31)) int_overflow
  ok (record s { rows = stored; cur_col = s.cur_col + 1; rw_row = replicate rows_count [] })

-- `if (c != delimiter_) { if (rw->size() > 0) … }`
end_row : ℕ → ℕ → Scan → ℕ → Result Scan
end_row delim rows_count s c =
    if not (c == delim) && ltb 0 (length s.rw_row) then store_row rows_count s else ok s

-- The body of the inner loop.
pub scan_char : ℕ → ℕ → Scan → ℕ → Result Scan
unfolding put_char end_field store_row end_row
scan_char delim rows_count s c =
    if not (c == delim) && not (c == 10) && not (c == 13)
    then put_char s c
    else end_row delim rows_count (end_field s) c

pub scan_str : ℕ → ℕ → Scan → Bytes → Result Scan
unfolding scan_char
scan_str delim rows_count s [] = ok s
scan_str delim rows_count s (c ∷ cs) = do
  s' ← scan_char delim rows_count s c
  scan_str delim rows_count s' cs

-- The outer loop.
pub scan_blocks : ℕ → ℕ → Scan → List Bytes → Result Scan
unfolding scan_str
scan_blocks delim rows_count s [] = ok s
scan_blocks delim rows_count s (str ∷ rest) = do
  s' ← scan_str delim rows_count s str
  scan_blocks delim rows_count s' rest

-- The lines behind the loops.
pub finish_parse : Csv → List Row → Csv
finish_parse csv [] = record csv { rows_deque = []; rows_count = 0 }
finish_parse csv (first ∷ rest) = record csv {
  rows_deque = first ∷ rest;
  rows_count = u32 (length (first ∷ rest));
  cols_count = if ltb 0 (u32 (length (first ∷ rest))) then u32 (length first) else csv.cols_count;
}

unfoldable pub parse_data : Csv → List Bytes → Result Csv
unfolding scan_blocks finish_parse
parse_data csv blocks = do
  s ←
      scan_blocks csv.delimiter csv.rows_count
        (record {
          cur_field = [];
          cur_col = 0;
          rows = csv.rows_deque ++ [] ∷ [];
          rw_row = replicate csv.rows_count [];
        })
        blocks
  ok (finish_parse csv (pop_back s.rows))

-- The loop of `loadFromMemory`, whose counter is `unsigned`; `none`: the fuel ran out.
unfoldable pub split_blocks : ℕ → ℕ → Bytes → Option (List Bytes)
split_blocks zero i text = none
split_blocks (suc fuel) i text =
    let rest = split_blocks fuel (u32 (i + read_block_size)) text in
    if ltb i (length text)
    then (elim rest [
      | none ↦ none
      | some blocks ↦ some (take read_block_size (drop i text) ∷ blocks)
    ])
    else some []

unfoldable pub load_from_memory : ℕ → Csv → Bytes → Result Csv
unfolding parse_data split_blocks
load_from_memory fuel csv text = do
  blocks ← or_fault (split_blocks fuel 0 text) no_fuel
  parse_data csv blocks
