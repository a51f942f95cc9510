-- ===== src/Csv/Tests.antt =====
-- Runs of algo/CSV.cpp, among them those of tests/server.test.cpp, and the theorems at inputs.
use native.Mathlib.Nat.{pow-suc}
use boost_server_example.Base.{
  ℕ, zero, suc, ◌*◌, ◌^◌, ap, ◌∙◌, length-append, ◌≡◌, refl, true, List, [], ◌∷◌, ◌++◌, Bytes,
  length, arith, if◌then◌else◌,
}
use boost_server_example.Base.Result.{ok, err, field_overflow, no_fuel}
use boost_server_example.Base.Text.{codes}
use boost_server_example.Csv.{Csv, Row, new_csv, load_from_memory}
use boost_server_example.Csv.Access.{set_at}
use boost_server_example.Csv.Access.Laws.{IsRect}
use boost_server_example.Csv.Files.{save_to_file}
use boost_server_example.Csv.Files.Plain.{Savable}
use boost_server_example.Csv.Files.Print.{join, render}
use boost_server_example.Csv.Files.RoundTrip.{load-save}
use boost_server_example.Csv.Load.{load_from_memory-eq-table, load_from_memory-diverges}
use boost_server_example.Csv.Parse.{of_rows}
use boost_server_example.Csv.Reload.{with_rows, reloaded, load_from_memory-reloads}
use boost_server_example.Csv.Table.{table, fields_fit}

abbrev sheet : Bytes
sheet = codes "1,2,3\n2,4,6\r\n\n4,,12\n"

abbrev sheet_rows : List Row
sheet_rows =
    (codes "1" ∷ codes "2" ∷ codes "3" ∷ [])
    ∷ (codes "2" ∷ codes "4" ∷ codes "6" ∷ [])
    ∷ (codes "4" ∷ codes "12" ∷ [])
    ∷ []

load_sheet : load_from_memory 30 (new_csv b',' 0 0) sheet ≡ ok (of_rows b',' sheet_rows)
unfolding load_from_memory new_csv
load_sheet = refl

-- A second load into the same table: each row starts with as many empty fields as the table had
-- rows, and the rows stored first are overwritten.
load_twice :
    load_from_memory 30 (of_rows b',' ((codes "a" ∷ []) ∷ (codes "b" ∷ []) ∷ [])) (codes "x\n")
    ≡ ok (record {
      rows_count = 3;
      cols_count = 3;
      rows_deque = ([] ∷ [] ∷ codes "x" ∷ []) ∷ (codes "b" ∷ []) ∷ [] ∷ [];
      delimiter = b',';
    })
unfolding load_from_memory
load_twice = refl

abbrev a_b : Csv
a_b = of_rows b',' ((codes "a" ∷ []) ∷ (codes "b" ∷ []) ∷ [])

load_from_memory-reloads_example : load_from_memory 5 a_b (codes "x\n\n") ≡ (
    if fields_fit b',' (codes "x\n\n")
    then ok (with_rows a_b (reloaded a_b (codes "x\n\n")))
    else err field_overflow)
load_from_memory-reloads_example =
    load_from_memory-reloads 5 a_b (codes "x\n\n") refl refl (omega arith) (omega arith)
      (omega arith)

abbrev two_rows : Csv
two_rows = record {
  rows_count = 2;
  cols_count = 2;
  rows_deque = (codes "a" ∷ codes "bc" ∷ []) ∷ (codes "d" ∷ codes "e" ∷ []) ∷ [];
  delimiter = b',';
}

two_rows-IsRect : IsRect two_rows
two_rows-IsRect = record { counted = refl; small = omega arith; width = omega arith }

save_two : save_to_file true two_rows ≡ ok (codes "a,bc\nd,e")
unfolding save_to_file
save_two = refl

load_from_memory-eq-table_example :
    load_from_memory 22 (new_csv b',' 0 0) sheet
    ≡ (if fields_fit b',' sheet then ok (of_rows b',' (table b',' sheet)) else err field_overflow)
load_from_memory-eq-table_example =
    load_from_memory-eq-table 22 b',' sheet refl (omega arith) (omega arith)

set_two :
    set_at two_rows 1 0 (codes "z")
    ≡ ok (record two_rows {
      rows_deque = (codes "a" ∷ codes "bc" ∷ []) ∷ (codes "z" ∷ codes "e" ∷ []) ∷ [];
    })
unfolding set_at
set_two = refl

two_rows-Savable : Savable b',' two_rows.rows_deque
two_rows-Savable = grind arith

load-save_example :
    (text : Bytes) × (save_to_file true two_rows ≡ ok text)
    × (load_from_memory 20 (new_csv b',' 0 0) text
        ≡ ok (of_rows b',' ((codes "a" ∷ codes "bc" ∷ []) ∷ [])))
    × (load_from_memory 20 (new_csv b',' 0 0) (text ++ 10 ∷ []) ≡ ok two_rows)
unfolding render join
load-save_example =
    load-save 20 two_rows two_rows-IsRect (omega arith) (omega arith) refl two_rows-Savable
      (omega arith) (omega arith)

-- A text too long to write down.
doubled : ℕ → Bytes → Bytes
doubled zero text = text
doubled (suc n) text = doubled n (text ++ text)

length-doubled : (n : ℕ) (text : Bytes) → length (doubled n text) ≡ length text * 2 ^ n
unfolding doubled
length-doubled zero text = omega arith
length-doubled (suc n) text =
    length-doubled n (text ++ text)
    ∙ omega (
      arith,
      ap (λ (k : ℕ). k * 2 ^ n) (length-append text text),
      ap (λ (k : ℕ). length text * k) (pow-suc 2 n),
    )

load_from_memory-diverges_example :
    load_from_memory 9 (new_csv b',' 0 0) (doubled 32 (0 ∷ [])) ≡ err no_fuel
load_from_memory-diverges_example =
    load_from_memory-diverges 9 (new_csv b',' 0 0) (doubled 32 (0 ∷ []))
      (omega (arith, length-doubled 32 (0 ∷ [])))
