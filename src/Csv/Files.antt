-- ===== src/Csv/Files.antt =====
-- The file methods of algo/CSV.cpp. The contents of a file, and what an uninitialised buffer holds,
-- are arguments; `none` is a file that cannot be opened.
pub mod Print
pub mod Plain
pub mod RoundTrip
use boost_server_example.Base.{
  ℕ, zero, suc, ◌+◌, ◌-◌, Bool, not, List, [], ◌∷◌, ◌++◌, Option, none, some, Bytes, ltb, ◌==◌,
  if◌then◌else◌, length, get_elem?, take, drop,
}
use boost_server_example.Base.Result.{
  Result, ok, ◌>>=◌, ◌>>◌, require, or_fault, bad_index, terminated,
}
use boost_server_example.Csv.{Csv, Row, read_block_size, parse_data}

-- What the buffer holds after a read of `contents`.
abbrev fill : Bytes → Bytes → Bytes
fill junk contents = let got = take read_block_size contents in got ++ drop (length got) junk

-- `loadFile`. Both `seekg` calls go to the start of the file, so `fileSize` is 0 (it is -1 for a
-- file that is not open), `blocks_count` is 0, and the loop makes one round.
unfoldable pub load_file : Bytes → Option Bytes → List Bytes
load_file junk none = junk ∷ []
load_file junk (some contents) = fill junk contents ∷ []

unfoldable pub load_from_file : Bytes → Csv → Option Bytes → Result Csv
unfolding load_file
load_from_file junk csv file = parse_data csv (load_file junk file)

-- The loop over the columns, with `n` rounds left.
unfoldable pub write_cells : Csv → Row → ℕ → ℕ → Result Bytes
write_cells csv rw_row zero j = ok []
write_cells csv rw_row (suc n) j = do
  field ← or_fault (get_elem? rw_row j) bad_index
  rest ← write_cells csv rw_row n (j + 1)
  ok (field ++ (if ltb j (csv.cols_count - 1) then csv.delimiter ∷ rest else rest))

-- The loop over the rows, with `n` rounds left.
unfoldable pub write_rows : Csv → ℕ → ℕ → Result Bytes
unfolding write_cells
write_rows csv zero i = ok []
write_rows csv (suc n) i = do
  rw_row ← or_fault (get_elem? csv.rows_deque i) bad_index
  line ← write_cells csv rw_row csv.cols_count 0
  rest ← write_rows csv n (i + 1)
  ok (line ++ (if ltb i (csv.rows_count - 1) then 10 ∷ rest else rest))

-- `saveToFile`: the bytes of the file. The flag says whether the file could be opened.
unfoldable pub save_to_file : Bool → Csv → Result Bytes
unfolding write_rows
save_to_file opened csv = do
  require (not (csv.cols_count == 0)) terminated
  require (not (csv.rows_count == 0)) terminated
  require opened terminated
  write_rows csv csv.rows_count 0
