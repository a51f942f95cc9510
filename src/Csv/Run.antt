-- ===== src/Csv/Run.antt =====
-- The scanner of algo/CSV.cpp against the rows of the text ahead, one byte at a time.
use native.Mathlib.Decide.{dec_lt, ℕ_discrete}
use boost_server_example.Base.{
  ℕ, ◌+◌, ◌^◌, ◌≤◌, ◌<◌, ◌≡◌, ◌≢◌, ◌⊎◌, refl, sym, ap, Bool, true, false, List, [], ◌∷◌, ◌++◌,
  Bytes, arith, length, append_assoc, append-nil, Bool-cases, inl, inr, length-append,
}
use boost_server_example.Base.Result.{Result, ok, err, field_overflow}
use boost_server_example.Csv.{Scan, Row, scan_str}
use boost_server_example.Csv.Scanner.{
  scan_at, flushed, scan_char_put, scan_char_full, scan_char_delim, scan_char_row, scan_char_blank,
}
use boost_server_example.Csv.Table.{is_newline, is_sep}
use boost_server_example.Csv.Ahead.{
  rows_ahead, fits_ahead, non_empty-one, non_empty-skip, non_empty_nil, rows_ahead_put,
  rows_ahead_delim, rows_ahead_newline, fits_ahead_put, fits_ahead_sep, fits_ahead_full,
  fits_ahead_nil, rows_ahead_nil,
}

pub nil-cases {ℓ} : {A : Type ℓ} (xs : List A) → (xs ≡ []) ⊎ (xs ≢ [])
nil-cases [] = inl refl
nil-cases (x ∷ xs) = inr (λ e. cc)

pub Byte-cases :
    (delim c : ℕ)
    → is_newline delim ≡ false
    → ((c ≡ delim) × (is_newline c ≡ false))
      ⊎ (((c ≢ delim) × (is_newline c ≡ true)) ⊎ (is_sep delim c ≡ false))
Byte-cases delim c nd = elim (ℕ_discrete c delim) [
  | yes e ↦ inl (e, rw e nd)
  | no n ↦ elim (Bool-cases (is_newline c)) [
    | inl nl ↦ inr (inl (n, nl))
    | inr h ↦ inr (inr (ground arith))
  ]
]

module _ (delim : ℕ) where
  -- A scan that stops leaves the given rows, if the fields fit, and overruns its buffer if not.
  abbrev pub Outcome : Bool → List Row → Result Scan → Type 0
  Outcome fit rows (ok s) = (fit ≡ true) × (s.rows ≡ rows ++ [] ∷ [])
  Outcome fit rows (err e) = (fit ≡ false) × (e ≡ field_overflow)

  abbrev pub Ahead : Scan → List Row → Bytes → Type 0
  Ahead s done text =
      Outcome (fits_ahead delim s.cur_field text)
        (done ++ rows_ahead delim s.rw_row s.cur_field text) (scan_str delim 0 s text)

  -- One step, by what the byte is.
  Ahead-put :
      (f : Bytes) (k : ℕ) (done : List Row) (r : Row) (c : ℕ) (cs : Bytes)
      → is_sep delim c ≡ false
      → length f < 1024
      → Ahead (scan_at (f ++ c ∷ []) k done r) done cs
      → Ahead (scan_at f k done r) done (c ∷ cs)
  unfolding scan_str
  Ahead-put f k done r c cs h lt rest =
      rw
        (
          fits_ahead_put delim f c cs h,
          rows_ahead_put delim r f c cs h,
          scan_char_put delim 0 (scan_at f k done r) c h lt,
        )
        rest

  Ahead-full :
      (f : Bytes) (k : ℕ) (done : List Row) (r : Row) (c : ℕ) (cs : Bytes)
      → is_sep delim c ≡ false
      → 1024 ≤ length f
      → Ahead (scan_at f k done r) done (c ∷ cs)
  unfolding scan_str
  Ahead-full f k done r c cs h le =
      rw (fits_ahead_full delim f c cs h le, scan_char_full delim 0 (scan_at f k done r) c h le)
        (refl, refl)

  Ahead-delim :
      (f : Bytes) (k : ℕ) (done : List Row) (r : Row) (c : ℕ) (cs : Bytes)
      → c ≡ delim
      → is_newline c ≡ false
      → length f ≤ 1024
      → Ahead (scan_at [] k done (flushed r f)) done cs
      → Ahead (scan_at f k done r) done (c ∷ cs)
  unfolding scan_str
  Ahead-delim f k done r c cs h n l rest =
      rw
        (
          fits_ahead_sep delim f c cs (ground arith) l,
          rows_ahead_delim delim r f c cs h n,
          scan_char_delim delim f k done r c h,
        )
        rest

  Ahead-row :
      (f : Bytes) (k : ℕ) (done : List Row) (r : Row) (c : ℕ) (cs : Bytes)
      → c ≢ delim
      → is_newline c ≡ true
      → k ≡ length done
      → k + 1 < 2 ^ 31
      → length f ≤ 1024
      → flushed r f ≢ []
      → Ahead (scan_at [] (k + 1) (done ++ flushed r f ∷ []) []) (done ++ flushed r f ∷ []) cs
      → Ahead (scan_at f k done r) done (c ∷ cs)
  unfolding scan_str
  Ahead-row f k done r c cs d n e b l ne rest =
      rw
        (
          fits_ahead_sep delim f c cs (ground arith) l,
          rows_ahead_newline delim r f c cs n,
          scan_char_row delim f k done r c d n e b ne,
          non_empty-one _ ne,
          ← append_assoc done (flushed r f ∷ []) (rows_ahead delim [] [] cs),
        )
        rest

  Ahead-blank :
      (f : Bytes) (k : ℕ) (done : List Row) (r : Row) (c : ℕ) (cs : Bytes)
      → c ≢ delim
      → is_newline c ≡ true
      → length f ≤ 1024
      → flushed r f ≡ []
      → Ahead (scan_at [] k done []) done cs
      → Ahead (scan_at f k done r) done (c ∷ cs)
  unfolding scan_str
  Ahead-blank f k done r c cs d n l e rest =
      rw
        (
          fits_ahead_sep delim f c cs (ground arith) l,
          rows_ahead_newline delim r f c cs n,
          scan_char_blank delim f k done r c d n e,
          e,
          non_empty-skip [],
          non_empty_nil,
        )
        rest

  pub scan_str-Ahead :
      is_newline delim ≡ false
      → (text f : Bytes) (k : ℕ) (done : List Row) (r : Row) → k ≡ length done
      → length f ≤ 1024
      → k + length text < 2 ^ 31
      → Ahead (scan_at f k done r) done text
  unfolding scan_str
  scan_str-Ahead nd [] f k done r e l b = (
    fits_ahead_nil delim f l,
    rw (rows_ahead_nil delim r f) (ap (λ xs. xs ++ [] ∷ []) (sym (append-nil done))),
  )
  scan_str-Ahead nd (c ∷ cs) f k done r e l b = elim (Byte-cases delim c nd) [
    | inl (d, n) ↦
        Ahead-delim f k done r c cs d n l
          (scan_str-Ahead nd cs [] k done (flushed r f) e (omega arith) (omega arith))
    | inr (inl (d, n)) ↦ elim (nil-cases (flushed r f)) [
      | inl empty ↦
          Ahead-blank f k done r c cs d n l empty
            (scan_str-Ahead nd cs [] k done [] e (omega arith) (omega arith))
      | inr ne ↦ Ahead-row f k done r c cs d n e (omega arith) l ne (
          scan_str-Ahead nd cs [] (k + 1) (done ++ flushed r f ∷ []) []
            (omega (arith, length-append done (flushed r f ∷ []))) (omega arith) (omega arith))
    ]
    | inr (inr h) ↦ elim (dec_lt (length f) 1024) [
      | yes lt ↦ Ahead-put f k done r c cs h lt (
          scan_str-Ahead nd cs (f ++ c ∷ []) k done r e (omega (arith, length-append f (c ∷ [])))
            (omega arith))
      | no full ↦ Ahead-full f k done r c cs h (omega arith)
    ]
  ]
