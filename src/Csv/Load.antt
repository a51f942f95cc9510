-- ===== src/Csv/Load.antt =====
-- `loadFromMemory` of algo/CSV.cpp: the loop that cuts a text into blocks, and the whole method.
use mathlib.Core.List.{flatten}
use boost_server_example.Base.{
  ℕ, zero, suc, ◌+◌, ◌-◌, ◌^◌, ◌%◌, ◌≤◌, ◌<◌, ◌≡◌, refl, sym, List, [], ◌∷◌, false, Bytes, arith,
  ltb, if◌then◌else◌, length, u32, Bool-cases, inl, inr, some, none, take, drop, drop-drop,
  take-append-drop, drop-eq-nil, ltb→lt,
}
use boost_server_example.Base.Result.{ok, err, field_overflow, no_fuel}
use boost_server_example.Csv.{Csv, new_csv, split_blocks, load_from_memory}
use boost_server_example.Csv.Parse.{of_rows, parse_data-eq-table}
use boost_server_example.Csv.Table.{is_newline, table, fields_fit}

flatten-block :
    (i : ℕ) (text : Bytes) (bs : List Bytes)
    → flatten bs ≡ drop (i + 2048) text
    → flatten (take 2048 (drop i text) ∷ bs) ≡ drop i text
unfolding flatten
flatten-block i text bs f = rw (f, ← drop-drop 2048 i text) (take-append-drop 2048 (drop i text))

pub split_blocks-drop :
    (fuel i : ℕ) (text : Bytes)
    → length text + 2048 ≤ 2 ^ 32
    → length text - i < fuel
    → (bs : List Bytes) × (split_blocks fuel i text ≡ some bs) × (flatten bs ≡ drop i text)
unfolding split_blocks flatten
split_blocks-drop zero i text small enough = absurd (omega arith)
split_blocks-drop (suc fuel) i text small enough = elim (Bool-cases (ltb i (length text))) [
  | inl more ↦
      let lt = ltb→lt i (length text) more in
      let step : u32 (i + 2048) ≡ i + 2048 = omega arith in
      let (bs, e, f) = split_blocks-drop fuel (i + 2048) text small (omega arith) in
      (take 2048 (drop i text) ∷ bs, ground (arith, step, e), flatten-block i text bs f)
  | inr done ↦ ([], rw done, sym (drop-eq-nil i text (ground arith)))
]

-- For a text within 2048 bytes of 2^32 the counter wraps, and the loop never ends.
split_blocks-none :
    (fuel i : ℕ) (text : Bytes)
    → 2 ^ 32 < length text + 2048
    → i < 2 ^ 32
    → i % 2048 ≡ 0
    → split_blocks fuel i text ≡ none
unfolding split_blocks
split_blocks-none zero i text long below even = refl
split_blocks-none (suc fuel) i text long below even =
    let rest = split_blocks-none fuel (u32 (i + 2048)) text long (omega arith) (omega arith) in
    let more : i < length text = omega arith in ground (arith, rest)

-- With a delimiter that is no line end, and fuel for one round per byte and one more, a text of fewer
-- than 2^31 bytes is loaded into a fresh table whole: the rows of the text, or a write past the end
-- of `cur_field` if some stretch without a delimiter or a line end is longer than 1024 bytes.
pub load_from_memory-eq-table :
    (fuel delim : ℕ) (text : Bytes)
    → is_newline delim ≡ false
    → length text < 2 ^ 31
    → length text < fuel
    → load_from_memory fuel (new_csv delim 0 0) text ≡ (
        if fields_fit delim text then ok (of_rows delim (table delim text)) else err field_overflow)
unfolding load_from_memory
load_from_memory-eq-table fuel delim text nd small enough =
    let (bs, e, f) = split_blocks-drop fuel 0 text (omega arith) (omega arith) in
    rw e (rw f at (parse_data-eq-table delim bs nd (rw f (small))))

-- A text of more than 2^32 - 2048 bytes is never loaded, whatever the rounds.
pub load_from_memory-diverges :
    (fuel : ℕ) (csv : Csv) (text : Bytes)
    → 2 ^ 32 < length text + 2048
    → load_from_memory fuel csv text ≡ err no_fuel
unfolding load_from_memory
load_from_memory-diverges fuel csv text long =
    rw (split_blocks-none fuel 0 text long (omega arith) refl)
