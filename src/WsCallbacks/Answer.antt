-- ===== src/WsCallbacks/Answer.antt =====
-- `csvAnalizeCallback` of net/websockets/WsServer.cpp: which tables are answered.
use boost_server_example.Base.{
  ℕ, suc, ◌+◌, ◌^◌, ◌<◌, ◌≡◌, refl, sym, ap, subst, ◌∙◌, Bool, true, List, [], ◌∷◌, ◌++◌, some,
  Bytes, if◌then◌else◌, length, length-append, get_elem?, append_assoc, arith,
}
use boost_server_example.Base.Result.{Result, ok, err}
use boost_server_example.Csv.{Csv, Row}
use boost_server_example.Csv.Access.{get_at}
use boost_server_example.Csv.Load.{load_from_memory-eq-table}
use boost_server_example.Csv.Parse.{of_rows}
use boost_server_example.Csv.Table.{table, fields_fit}
use boost_server_example.Opcode.{opcode_to_str}
use boost_server_example.WsCallbacks.{
  Dates, to_string, analize_row, analize_rows, csv_analize_message,
}
use boost_server_example.WsSession.{WsSession, send}

get_elem?-append {ℓ} :
    {A : Type ℓ} (xs : List A) (a : A) (ys : List A) → get_elem? (xs ++ a ∷ ys) (length xs) ≡ some a
get_elem?-append [] a ys = refl
get_elem?-append (x ∷ xs) a ys = get_elem?-append xs a ys

-- A field of a table whose first row is at least as wide.
pub get_at-row :
    (first r : Row) (others : List Row) (field : Bytes) (i j : ℕ)
    → i < length (first ∷ others)
    → get_elem? (first ∷ others) i ≡ some r
    → j < length first
    → get_elem? r j ≡ some field
    → get_at (of_rows b',' (first ∷ others)) i j ≡ ok field
unfolding get_at
get_at-row first r others field i j below er wide ef = ground (arith, er, ef)

module _ {Time : Type 0} (dates : Dates Time) where
  open dates use {epoch, later, date_time_from_str, is_double}

  -- Every row has three fields or more, the first a date that can be read, the second and
  -- the third numbers.
  abbrev pub Analizable : List Row → Type 0
  Analizable [] = Unit {0}
  Analizable ((date ∷ a ∷ b ∷ more) ∷ rest) =
      ((t : Time) × (date_time_from_str date ≡ ok t))
      × (is_double a ≡ true)
      × (is_double b ≡ true)
      × Analizable rest
  Analizable (_ ∷ rest) = ⊥

  abbrev newer : Result Time → Time → Time
  newer (ok t) max_date = if later t max_date then t else max_date
  newer (err fault) max_date = max_date

  -- The latest of a date and those of the rows.
  abbrev pub latest : Time → List Row → Time
  latest max_date [] = max_date
  latest max_date ([] ∷ rest) = latest max_date rest
  latest max_date ((text ∷ more) ∷ rest) = latest (newer (date_time_from_str text) max_date) rest

  wide : (first : Row) (others : List Row) → Analizable (first ∷ others) → 2 < length first
  wide [] others ok_rows = elim ok_rows [ ]
  wide (a ∷ []) others ok_rows = elim ok_rows [ ]
  wide (a ∷ b ∷ []) others ok_rows = elim ok_rows [ ]
  wide (a ∷ b ∷ c ∷ more) others ok_rows = omega arith

  analize_row-latest :
      (first : Row) (others : List Row) (date a b : Bytes) (more : Row) (i : ℕ) (max_date t : Time)
      → 2 < length first
      → i < length (first ∷ others)
      → get_elem? (first ∷ others) i ≡ some (date ∷ a ∷ b ∷ more)
      → date_time_from_str date ≡ ok t
      → is_double a ≡ true
      → is_double b ≡ true
      → analize_row dates (of_rows b',' (first ∷ others)) i max_date
        ≡ ok (newer (date_time_from_str date) max_date)
  unfolding analize_row
  analize_row-latest first others date a b more i max_date t w below e dt da db =
      let field : (j : ℕ) (f : Bytes)
          → j < 3
          → get_elem? (date ∷ a ∷ b ∷ more) j ≡ some f
          → get_at (of_rows b',' (first ∷ others)) i j ≡ ok f =
        λ j f lt ef. get_at-row first (date ∷ a ∷ b ∷ more) others f i j below e (omega arith) ef in
      rw
        (
          field 0 date (omega arith) refl,
          field 1 a (omega arith) refl,
          field 2 b (omega arith) refl,
          dt,
          da,
          db,
        )
        (ground arith)

  analize_rows-step :
      (csv : Csv) (n i : ℕ) (max_date : Time) {found last : Time}
      → analize_row dates csv i max_date ≡ ok found
      → analize_rows dates csv n (i + 1) found ≡ ok last
      → analize_rows dates csv (suc n) i max_date ≡ ok last
  unfolding analize_rows
  analize_rows-step csv n i max_date e f = rw (e, f) refl

  -- The rows from the place `length front` on.
  analize_rows-latest :
      (first : Row) (others front rows : List Row) (max_date : Time)
      → 2 < length first
      → first ∷ others ≡ front ++ rows
      → Analizable rows
      → analize_rows dates (of_rows b',' (first ∷ others)) (length rows) (length front) max_date
        ≡ ok (latest max_date rows)
  unfolding analize_rows
  analize_rows-latest first others front [] max_date w e ok_rows = refl
  analize_rows-latest first others front ([] ∷ rest) max_date w e ok_rows = elim ok_rows [ ]
  analize_rows-latest first others front ((a ∷ []) ∷ rest) max_date w e ok_rows = elim ok_rows [ ]
  analize_rows-latest first others front ((a ∷ b ∷ []) ∷ rest) max_date w e ok_rows =
      elim ok_rows [ ]
  analize_rows-latest first others front ((date ∷ a ∷ b ∷ more) ∷ rest) max_date w e
        ((t, dt), da, db, ok_rows) =
      let row : Row = date ∷ a ∷ b ∷ more in
      let size : length (front ++ row ∷ []) ≡ length front + 1 = length-append front (row ∷ []) in
      let below : length front < length (first ∷ others) =
        omega (arith, ap length e, length-append front (row ∷ rest)) in
      let found : Time = newer (date_time_from_str date) max_date in
      analize_rows-step (of_rows b',' (first ∷ others)) (length rest) (length front) max_date
        (analize_row-latest first others date a b more (length front) max_date t w below
          (subst (λ xs. get_elem? xs (length front) ≡ some row) (sym e)
            (get_elem?-append front row rest))
          dt da db)
        (subst
          (λ k.
            analize_rows dates (of_rows b',' (first ∷ others)) (length rest) k found
            ≡ ok (latest found rest))
          size
          (analize_rows-latest first others (front ++ row ∷ []) rest found w
            (e ∙ sym (append_assoc front (row ∷ []) rest)) ok_rows))

  rows_latest :
      (rows : List Row)
      → Analizable rows
      → (analize_rows dates (of_rows b',' rows) (of_rows b',' rows).rows_count 0 epoch
          ≡ ok (latest epoch rows))
        × ((of_rows b',' rows).rows_count ≡ length rows)
  unfolding analize_rows
  rows_latest [] ok_rows = (refl, refl)
  rows_latest (first ∷ others) ok_rows = (
    analize_rows-latest first others [] (first ∷ others) epoch (wide first others ok_rows) refl
        ok_rows,
    refl,
  )

  -- A message whose text, behind its first byte, is shorter than 2^31 bytes, has no field of more
  -- than 1024, and is a table of rows with three fields or more, the first a date that can be read,
  -- the second and the third numbers, is answered: the answer's byte and then, in decimal, how many
  -- rows the text has.
  pub csv_analize_message_lem :
      (fuel : ℕ) (is_open : Bool) (s : WsSession) (c : ℕ) (text : Bytes)
      → length text < 2 ^ 31
      → length text < fuel
      → fields_fit b',' text ≡ true
      → Analizable (table b',' text)
      → csv_analize_message dates fuel is_open s (c ∷ text)
        ≡ ok (send is_open s (b'2' ∷ to_string (length (table b',' text))))
  unfolding csv_analize_message opcode_to_str
  csv_analize_message_lem fuel is_open s c text small enough fit ok_rows =
      rw
        (
          load_from_memory-eq-table fuel b',' text refl small enough,
          fit,
          (rows_latest (table b',' text) ok_rows).0,
          (rows_latest (table b',' text) ok_rows).1,
        )
        refl
