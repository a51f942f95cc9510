-- ===== src/Csv/Access.antt =====
-- The accessors of algo/CSV.cpp and algo/CSV.hpp: rows, fields and appending.
pub mod Laws
use boost_server_example.Base.{
  ℕ, suc, not, List, [], ◌∷◌, ◌++◌, Bytes, u32, ltb, leb, ◌==◌, if◌then◌else◌, length, get_elem?,
  set?,
}
use boost_server_example.Base.Result.{
  Result, ok, ◌>>=◌, ◌>>◌, require, or_fault, bad_index, terminated,
}
use boost_server_example.Csv.{Csv, Row}

-- A row of the wrong width is refused.
unfoldable pub append_row : Csv → Row → Csv
append_row csv row = if not (length row == csv.cols_count) then csv else record csv {
  rows_deque = csv.rows_deque ++ row ∷ [];
  rows_count = u32 (length (csv.rows_deque ++ row ∷ []));
}

unfoldable pub set_row_num : Csv → ℕ → Csv
set_row_num csv num = record csv { rows_count = num }

unfoldable pub set_col_num : Csv → ℕ → Csv
set_col_num csv num = record csv { cols_count = num }

-- `getRowRef`: its test is on the counter, its access on the deque.
unfoldable pub get_row_ref : Csv → ℕ → Result Row
get_row_ref csv row_n = do
  require (not (leb csv.rows_count row_n)) terminated
  or_fault (get_elem? csv.rows_deque row_n) bad_index

-- The row that `getAtRef` finds, once its tests have passed.
unfoldable pub get_at_row : Csv → ℕ → ℕ → Result Row
unfolding get_row_ref
get_at_row csv row_n col_n = do
  rw_row ← get_row_ref csv row_n
  require (not (leb csv.cols_count col_n)) terminated
  ok rw_row

unfoldable pub get_at : Csv → ℕ → ℕ → Result Bytes
unfolding get_at_row
get_at csv row_n col_n = do
  rw_row ← get_at_row csv row_n col_n
  or_fault (get_elem? rw_row col_n) bad_index

-- `getAtRef(row_n, col_n) = data`.
unfoldable pub set_at : Csv → ℕ → ℕ → Bytes → Result Csv
unfolding get_at_row
set_at csv row_n col_n value = do
  rw_row ← get_at_row csv row_n col_n
  written ← or_fault (set? rw_row col_n value) bad_index
  rows ← or_fault (set? csv.rows_deque row_n written) bad_index
  ok (record csv { rows_deque = rows })
