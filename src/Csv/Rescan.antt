-- ===== src/Csv/Rescan.antt =====
-- `parseData` of algo/CSV.cpp on a table that has rows: a row starts with as many empty fields as the
-- table has rows, every line is stored, and the rows are stored from the first place on.
use boost_server_example.Base.{
  ℕ, zero, suc, ◌+◌, ◌^◌, ◌≤◌, ◌<◌, ◌≡◌, ◌≢◌, refl, sym, ap, ◌∙◌, Bool, true, false, List, [], ◌∷◌,
  ◌++◌, Bytes, arith, length, length-append, replicate, length-replicate, drop, append_assoc,
  append-nil, set?-append, lt→ltb, inl, inr,
}
use boost_server_example.Base.Result.{Result, ok, err, field_overflow}
use boost_server_example.Csv.{Scan, Row, scan_char, scan_str, end_field, store_row}
use boost_server_example.Csv.Ahead.{
  line_row, line_row-put, line_row-delim, line_row-nil, fits_ahead, fits_ahead_put, fits_ahead_sep,
  fits_ahead_full, fits_ahead_nil,
}
use boost_server_example.Csv.Run.{Byte-cases}
use boost_server_example.Csv.Scanner.{flushed, scan_char_put, scan_char_full}
use boost_server_example.Csv.Table.{split, is_newline, is_sep, non_empty}
use native.Mathlib.Decide.{dec_lt}

-- The rows that are not yet overwritten: a line takes the first of them and adds an empty one.
abbrev bump : List Row → List Row
bump [] = []
bump (y ∷ ys) = ys ++ [] ∷ []

abbrev pub later : ℕ → List Row → List Row
later zero ys = ys
later (suc m) ys = later m (bump ys)

pub later-drop : (m : ℕ) (ys : List Row) → later m ys ≡ drop m (ys ++ replicate m [])
later-drop zero ys = sym (append-nil ys)
later-drop (suc m) [] = later-drop m []
later-drop (suc m) (y ∷ ys) =
    later-drop m (ys ++ [] ∷ []) ∙ ap (drop m) (append_assoc ys ([] ∷ []) (replicate m []))

abbrev pub scan_on : Bytes → ℕ → List Row → List Row → Row → Scan
scan_on f k done ys r = record {
  cur_field = f;
  cur_col = k;
  rows = done ++ (ys ++ [] ∷ []);
  rw_row = r;
}

end_field-on :
    (f : Bytes) (k : ℕ) (done ys : List Row) (r : Row)
    → end_field (scan_on f k done ys r) ≡ scan_on [] k done ys (flushed r f)
unfolding end_field non_empty
end_field-on [] k done ys r = ground (arith, append-nil r)
end_field-on (c ∷ f) k done ys r = ground arith

module _ (n : ℕ) where
  store_row-on :
      (f : Bytes) (k : ℕ) (done ys : List Row) (r : Row)
      → k ≡ length done
      → k + 1 < 2 ^ 31
      → store_row n (scan_on f k done ys r)
        ≡ ok (scan_on f (k + 1) (done ++ r ∷ []) (bump ys) (replicate n []))
  unfolding store_row
  store_row-on f k done [] r e h =
      rw (append_assoc done ([] ∷ []) ([] ∷ []), set?-append done [] r ([] ∷ []) e, lt→ltb _ _ h)
        (rw (append_assoc done (r ∷ []) ([] ∷ [])))
  store_row-on f k done (y ∷ ys) r e h =
      let rest = ys ++ [] ∷ [] in
      rw
        (
          append_assoc done (y ∷ rest) ([] ∷ []),
          set?-append done y r (rest ++ [] ∷ []) e,
          lt→ltb _ _ h,
        )
        (rw (append_assoc done (r ∷ []) (rest ++ [] ∷ [])))

module _ (delim n : ℕ) where
  -- The rows in the text ahead of a scanner that has read `r` and `f` of a line.
  abbrev pub rows_on : Row → Bytes → Bytes → List Bytes → List Row
  rows_on r f first [] = []
  rows_on r f first (next ∷ others) =
      line_row delim r f first ∷ rows_on (replicate n []) [] next others

  abbrev pub ahead : Row → Bytes → Bytes → List Row
  ahead r f text = rows_on r f (split is_newline text).first (split is_newline text).others

  rows_on-put :
      (r : Row) (f : Bytes) (c : ℕ) (line : Bytes) (others : List Bytes)
      → c ≢ delim
      → rows_on r f (c ∷ line) others ≡ rows_on r (f ++ c ∷ []) line others
  rows_on-put r f c line [] h = refl
  rows_on-put r f c line (next ∷ others) h =
      ap (λ x. x ∷ rows_on (replicate n []) [] next others) (line_row-put delim r f c line h)

  rows_on-delim :
      (r : Row) (f : Bytes) (c : ℕ) (line : Bytes) (others : List Bytes)
      → c ≡ delim
      → rows_on r f (c ∷ line) others ≡ rows_on (flushed r f) [] line others
  rows_on-delim r f c line [] h = refl
  rows_on-delim r f c line (next ∷ others) h =
      ap (λ x. x ∷ rows_on (replicate n []) [] next others) (line_row-delim delim r f c line h)

  ahead-put :
      (r : Row) (f : Bytes) (c : ℕ) (cs : Bytes)
      → is_sep delim c ≡ false
      → ahead r f (c ∷ cs) ≡ ahead r (f ++ c ∷ []) cs
  unfolding split
  ahead-put r f c cs h =
      let s = split is_newline cs in ground (arith, rows_on-put r f c s.first s.others)

  ahead-delim :
      (r : Row) (f : Bytes) (c : ℕ) (cs : Bytes)
      → c ≡ delim
      → is_newline c ≡ false
      → ahead r f (c ∷ cs) ≡ ahead (flushed r f) [] cs
  unfolding split
  ahead-delim r f c cs h l =
      let s = split is_newline cs in ground (arith, rows_on-delim r f c s.first s.others)

  ahead-newline :
      (r : Row) (f : Bytes) (c : ℕ) (cs : Bytes)
      → is_newline c ≡ true
      → ahead r f (c ∷ cs) ≡ flushed r f ∷ ahead (replicate n []) [] cs
  unfolding split
  ahead-newline r f c cs h =
      rw h (ap (λ x. x ∷ ahead (replicate n []) [] cs) (line_row-nil delim r f))

  -- What a scan that stops leaves.
  abbrev pub Leaves : Bool → List Row → Result Scan → Type 0
  Leaves fit rows (ok s) = (fit ≡ true) × (s.rows ≡ rows)
  Leaves fit rows (err e) = (fit ≡ false) × (e ≡ field_overflow)

  abbrev pub left : List Row → List Row → List Row → List Row
  left done ys new = (done ++ new) ++ (later (length new) ys ++ [] ∷ [])

  abbrev pub On : Bytes → ℕ → List Row → List Row → Row → Bytes → Type 0
  On f k done ys r text =
      Leaves (fits_ahead delim f text) (left done ys (ahead r f text))
        (scan_str delim n (scan_on f k done ys r) text)

  scan_char_delim-on :
      (f : Bytes) (k : ℕ) (done ys : List Row) (r : Row) (c : ℕ)
      → c ≡ delim
      → scan_char delim n (scan_on f k done ys r) c ≡ ok (scan_on [] k done ys (flushed r f))
  unfolding scan_char
  scan_char_delim-on f k done ys r c h = ground (arith, end_field-on f k done ys r)

  -- Every line end stores a row, since the row is not empty.
  scan_char_row-on :
      (f : Bytes) (k : ℕ) (done ys : List Row) (r : Row) (c : ℕ)
      → c ≢ delim
      → is_newline c ≡ true
      → k ≡ length done
      → k + 1 < 2 ^ 31
      → 0 < length r
      → scan_char delim n (scan_on f k done ys r) c
        ≡ ok (scan_on [] (k + 1) (done ++ flushed r f ∷ []) (bump ys) (replicate n []))
  unfolding scan_char
  scan_char_row-on f k done ys r c d l e lt some_cell = ground (
    arith,
    end_field-on f k done ys r,
    store_row-on n [] k done ys (flushed r f) e lt,
    length-append r (non_empty (f ∷ [])),
  )

  left-row :
      (done ys : List Row) (row : Row) (new : List Row)
      → left (done ++ row ∷ []) (bump ys) new ≡ left done ys (row ∷ new)
  left-row done ys row new =
      ap (λ xs. xs ++ (later (length new) (bump ys) ++ [] ∷ [])) (append_assoc done (row ∷ []) new)

  flushed-some : (r : Row) (f : Bytes) → 0 < length r → 0 < length (flushed r f)
  flushed-some r f h = omega (arith, length-append r (non_empty (f ∷ [])))

  pub scan_str-On :
      is_newline delim ≡ false
      → 0 < n
      → (text f : Bytes) (k : ℕ) (done ys : List Row) (r : Row) → k ≡ length done
      → length f ≤ 1024
      → k + length text < 2 ^ 31
      → 0 < length r
      → On f k done ys r text
  unfolding scan_str
  scan_str-On nd some_row [] f k done ys r e l b w = (
    fits_ahead_nil delim f l,
    unfold split in ap (λ xs. xs ++ (ys ++ [] ∷ [])) (sym (append-nil done)),
  )
  scan_str-On nd some_row (c ∷ cs) f k done ys r e l b w = elim (Byte-cases delim c nd) [
    | inl (d, m) ↦
        rw
          (
            fits_ahead_sep delim f c cs (ground arith) l,
            ahead-delim r f c cs d m,
            scan_char_delim-on f k done ys r c d,
          )
          (scan_str-On nd some_row cs [] k done ys (flushed r f) e (omega arith) (omega arith)
            (flushed-some r f w))
    | inr (inl (d, m)) ↦
        rw
          (
            fits_ahead_sep delim f c cs (ground arith) l,
            ahead-newline r f c cs m,
            scan_char_row-on f k done ys r c d m e (omega arith) w,
            ← left-row done ys (flushed r f) (ahead (replicate n []) [] cs),
          )
          (scan_str-On nd some_row cs [] (k + 1) (done ++ flushed r f ∷ []) (bump ys)
            (replicate n []) (omega (arith, length-append done (flushed r f ∷ []))) (omega arith)
            (omega arith) (omega (arith, length-replicate {A = Bytes} n [])))
    | inr (inr h) ↦ elim (dec_lt (length f) 1024) [
      | yes lt ↦
          rw
            (
              fits_ahead_put delim f c cs h,
              ahead-put r f c cs h,
              scan_char_put delim n (scan_on f k done ys r) c h lt,
            )
            (scan_str-On nd some_row cs (f ++ c ∷ []) k done ys r e
              (omega (arith, length-append f (c ∷ []))) (omega arith) w)
      | no full ↦
          rw
            (
              fits_ahead_full delim f c cs h (omega arith),
              scan_char_full delim n (scan_on f k done ys r) c h (omega arith),
            )
            (refl, refl)
    ]
  ]
