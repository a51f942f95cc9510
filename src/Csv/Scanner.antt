-- ===== src/Csv/Scanner.antt =====
-- The scanner of algo/CSV.cpp on a fresh table: a step, and a whole text, against `Table`.
use boost_server_example.Base.{
  ℕ, ◌+◌, ◌^◌, ◌≤◌, ◌<◌, ◌≡◌, ◌≢◌, refl, ap, true, false, List, [], ◌∷◌, ◌++◌, Bytes, arith, length,
  append_assoc, append-nil, set?-append, lt→ltb,
}
use boost_server_example.Base.Result.{ok, err, field_overflow}
use boost_server_example.Csv.{Scan, Row, scan_char, end_field, store_row}
use boost_server_example.Csv.Table.{is_newline, is_sep, non_empty}

-- The scanner after the rows `done`, in the middle of a line.
abbrev pub scan_at : Bytes → ℕ → List Row → Row → Scan
scan_at f k done r = record { cur_field = f; cur_col = k; rows = done ++ [] ∷ []; rw_row = r }

pub non_empty-append {ℓ} :
    {A : Type ℓ} (xs ys : List (List A)) → non_empty (xs ++ ys) ≡ non_empty xs ++ non_empty ys
unfolding non_empty
non_empty-append [] ys = refl
non_empty-append ([] ∷ xs) ys = non_empty-append xs ys
non_empty-append ((a ∷ x) ∷ xs) ys = ap (◌∷◌ (a ∷ x)) (non_empty-append xs ys)

abbrev pub flushed : Row → Bytes → Row
flushed r f = r ++ non_empty (f ∷ [])

end_field_lem :
    (f : Bytes) (k : ℕ) (done : List Row) (r : Row)
    → end_field (scan_at f k done r) ≡ scan_at [] k done (flushed r f)
unfolding end_field non_empty
end_field_lem [] k done r = ground (arith, append-nil r)
end_field_lem (c ∷ f) k done r = ground arith

store_row_lem :
    (f : Bytes) (k : ℕ) (done : List Row) (r : Row)
    → k ≡ length done
    → k + 1 < 2 ^ 31
    → store_row 0 (scan_at f k done r) ≡ ok (scan_at f (k + 1) (done ++ r ∷ []) [])
unfolding store_row
store_row_lem f k done r e h =
    rw (append_assoc done ([] ∷ []) ([] ∷ []), set?-append done [] r ([] ∷ []) e, lt→ltb _ _ h)
      (rw (append_assoc done (r ∷ []) ([] ∷ [])))

module _ (delim : ℕ) where
  pub scan_char_put :
      (n : ℕ) (s : Scan) (c : ℕ)
      → is_sep delim c ≡ false
      → length s.cur_field < 1024
      → scan_char delim n s c ≡ ok (record s { cur_field = s.cur_field ++ c ∷ [] })
  unfolding scan_char
  scan_char_put n s c h lt = ground arith

  pub scan_char_full :
      (n : ℕ) (s : Scan) (c : ℕ)
      → is_sep delim c ≡ false
      → 1024 ≤ length s.cur_field
      → scan_char delim n s c ≡ err field_overflow
  unfolding scan_char
  scan_char_full n s c h le = ground arith

  pub scan_char_delim :
      (f : Bytes) (k : ℕ) (done : List Row) (r : Row) (c : ℕ)
      → c ≡ delim
      → scan_char delim 0 (scan_at f k done r) c ≡ ok (scan_at [] k done (flushed r f))
  unfolding scan_char
  scan_char_delim f k done r c h = ground (arith, end_field_lem f k done r)

  -- A line end after cells stores the row; the deque has room for it.
  pub scan_char_row :
      (f : Bytes) (k : ℕ) (done : List Row) (r : Row) (c : ℕ)
      → c ≢ delim
      → is_newline c ≡ true
      → k ≡ length done
      → k + 1 < 2 ^ 31
      → flushed r f ≢ []
      → scan_char delim 0 (scan_at f k done r) c
        ≡ ok (scan_at [] (k + 1) (done ++ flushed r f ∷ []) [])
  unfolding scan_char
  scan_char_row f k done r c d n e lt ne =
      ground (arith, end_field_lem f k done r, store_row_lem [] k done (flushed r f) e lt)

  pub scan_char_blank :
      (f : Bytes) (k : ℕ) (done : List Row) (r : Row) (c : ℕ)
      → c ≢ delim
      → is_newline c ≡ true
      → flushed r f ≡ []
      → scan_char delim 0 (scan_at f k done r) c ≡ ok (scan_at [] k done [])
  unfolding scan_char
  scan_char_blank f k done r c d n e = ground (arith, end_field_lem f k done r)
