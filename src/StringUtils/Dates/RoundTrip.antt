-- ===== src/StringUtils/Dates/RoundTrip.antt =====
-- What a date of algo/StringUtils.cpp is read as that was written there.
use boost_server_example.Base.{
  ℕ, zero, suc, ◌+◌, ◌-◌, ◌*◌, ◌/◌, ◌^◌, ◌≤◌, ◌<◌, ◌≡◌, refl, ap, ◌∙◌, List, [], ◌∷◌, ◌++◌, some,
  Bytes, arith,
}
use boost_server_example.Base.Int.{ℤ, pos, negsuc}
use boost_server_example.Base.Result.{ok}
use boost_server_example.StringUtils.Dates.{
  Tm, zero_tm, Zone, Conversion, day, month, year, hour, minute, second, Piece, conversion, white,
  character, default_format, minus, limits, set, read_digits, read_number, skip_white, get_time,
  two_digits, put_time, nano, from_time_t, to_time_t, date_time_from_str, date_to_str,
}

-- The fields that `std::localtime` gives.
pub record IsDate (tm : Tm) : Type 0 where
  pub seconds : tm.tm_sec ≤ 60
  pub minutes : tm.tm_min < 60
  pub hours : tm.tm_hour < 24
  pub days : 0 < tm.tm_mday
  pub days_most : tm.tm_mday ≤ 31
  pub months : tm.tm_mon < 12
  pub years : tm.tm_year ≤ 9999

-- A number of two digits is read back, whatever follows it.
read_two :
    (least greatest n : ℕ) (rest : Bytes)
    → least ≤ n
    → n ≤ greatest
    → n < 100
    → read_number (2, least, greatest) (two_digits n ++ rest) ≡ some (n, rest)
unfolding read_number read_digits
read_two least greatest n rest above below small = ground arith

-- So is one of four.
read_four :
    (n : ℕ) (rest : Bytes)
    → n ≤ 9999
    → read_number (4, 0, 9999) (two_digits (n / 100) ++ (two_digits n ++ rest)) ≡ some (n, rest)
unfolding read_number read_digits
read_four n rest below = ground arith

after_number :
    (c : Conversion) (format : List Piece) (text rest : Bytes) (n : ℕ) (tm : Tm)
    → read_number (limits c) text ≡ some (n, rest)
    → get_time (conversion c ∷ format) text tm ≡ get_time format rest (set c n tm)
unfolding get_time
after_number c format text rest n tm e = rw (get_time, e) refl

after_character :
    (k : ℕ) (format : List Piece) (text : Bytes) (tm : Tm)
    → get_time (character k ∷ format) (k ∷ text) tm ≡ get_time format text tm
unfolding get_time
after_character k format text tm = ground arith

skip_two : (n : ℕ) (rest : Bytes) → skip_white (two_digits n ++ rest) ≡ two_digits n ++ rest
unfolding skip_white
skip_two n rest = ground arith

skip_blank : (n : ℕ) (rest : Bytes) → skip_white (32 ∷ two_digits n ++ rest) ≡ two_digits n ++ rest
unfolding skip_white
skip_blank n rest = ground arith

-- A conversion of two digits.
after_two :
    (c : Conversion) (least greatest : ℕ) (format : List Piece) (rest : Bytes) (n : ℕ) (tm : Tm)
    → limits c ≡ (2, least, greatest)
    → least ≤ n
    → n ≤ greatest
    → n < 100
    → get_time (conversion c ∷ format) (two_digits n ++ rest) tm ≡ get_time format rest (set c n tm)
after_two c least greatest format rest n tm e above below small =
    after_number c format (two_digits n ++ rest) rest n tm (
      ap (λ l. read_number l (two_digits n ++ rest)) e
      ∙ read_two least greatest n rest above below small)

-- One that a character follows.
after_two_character :
    (c : Conversion) (k least greatest : ℕ) (format : List Piece) (rest : Bytes) (n : ℕ) (tm : Tm)
    → limits c ≡ (2, least, greatest)
    → least ≤ n
    → n ≤ greatest
    → n < 100
    → get_time (conversion c ∷ character k ∷ format) (two_digits n ++ k ∷ rest) tm
      ≡ get_time format rest (set c n tm)
after_two_character c k least greatest format rest n tm e above below small =
    after_two c least greatest (character k ∷ format) (k ∷ rest) n tm e above below small
    ∙ after_character k format rest (set c n tm)

abbrev at_hour : List Piece
at_hour =
    conversion hour ∷ character b':' ∷ conversion minute ∷ character b':' ∷ conversion second ∷ []

-- The time of the day.
get_time-hour :
    (tm into : Tm)
    → IsDate tm
    → get_time at_hour (put_time at_hour tm) into
      ≡ record into { tm_hour = tm.tm_hour; tm_min = tm.tm_min; tm_sec = tm.tm_sec }
unfolding put_time get_time
get_time-hour tm into good =
    let at_minute : Bytes = two_digits tm.tm_min ++ b':' ∷ two_digits tm.tm_sec ++ [] in
    after_two_character hour b':' 0 23 (conversion minute ∷ character b':' ∷ conversion second ∷ [])
      at_minute tm.tm_hour into refl (omega arith) (omega (arith, good.hours))
      (omega (arith, good.hours))
    ∙ after_two_character minute b':' 0 59 (conversion second ∷ []) (two_digits tm.tm_sec ++ [])
        tm.tm_min (record into { tm_hour = tm.tm_hour }) refl (omega arith)
        (omega (arith, good.minutes)) (omega (arith, good.minutes))
    ∙ after_two second 0 60 [] [] tm.tm_sec
        (record into { tm_hour = tm.tm_hour; tm_min = tm.tm_min }) refl (omega arith) good.seconds
        (omega (arith, good.seconds))

abbrev at_year : List Piece
at_year = conversion year ∷ white ∷ at_hour

-- The year and what follows it.
get_time-year :
    (tm into : Tm)
    → IsDate tm
    → get_time at_year (put_time at_year tm) into ≡ record into {
      tm_year = tm.tm_year;
      tm_hour = tm.tm_hour;
      tm_min = tm.tm_min;
      tm_sec = tm.tm_sec;
    }
unfolding put_time get_time
get_time-year tm into good =
    let rest : Bytes = put_time at_hour tm in
    after_number year (white ∷ at_hour)
      (two_digits (tm.tm_year / 100) ++ two_digits tm.tm_year ++ 32 ∷ rest) (32 ∷ rest) tm.tm_year
      into (read_four tm.tm_year (32 ∷ rest) good.years)
    ∙ ap (λ text. get_time at_hour text (record into { tm_year = tm.tm_year }))
        (skip_blank tm.tm_hour
          (b':' ∷ put_time (conversion minute ∷ character b':' ∷ conversion second ∷ []) tm))
    ∙ get_time-hour tm (record into { tm_year = tm.tm_year }) good

-- What was written is read, but for `tm_isdst`.
get_time-put_time :
    (tm : Tm)
    → IsDate tm
    → get_time default_format (skip_white (put_time default_format tm)) zero_tm
      ≡ record tm { tm_isdst = pos 0 }
unfolding put_time
get_time-put_time tm good =
    let back : (tm.tm_mon + 1) - 1 ≡ tm.tm_mon = omega arith in
    let at_month : List Piece = conversion month ∷ character b'.' ∷ at_year in
    let dated : Tm = record zero_tm { tm_mday = tm.tm_mday } in
    ap (λ text. get_time default_format text zero_tm)
      (skip_two tm.tm_mday (b'.' ∷ put_time at_month tm))
    ∙ after_two_character day b'.' 1 31 at_month (put_time at_month tm) tm.tm_mday zero_tm refl
        (omega (arith, good.days)) good.days_most (omega (arith, good.days_most))
    ∙ after_two_character month b'.' 1 12 at_year (put_time at_year tm) (tm.tm_mon + 1) dated refl
        (omega arith) (omega (arith, good.months)) (omega (arith, good.months))
    ∙ get_time-year tm (set month (tm.tm_mon + 1) dated) good
    ∙ rw back refl

-- A time point has 64 bits.
abbrev pub InRange : ℤ → Type 0
InRange (pos n) = n < 2 ^ 63
InRange (negsuc n) = n < 2 ^ 63

-- The same second, in nanoseconds.
abbrev pub Whole : ℤ → ℤ → Type 0
Whole seconds q = (from_time_t seconds ≡ ok q) × (to_time_t q ≡ seconds)

minus-Whole : (k : ℕ) → k * nano ≤ 2 ^ 63 → (q : ℤ) × Whole (minus k) q
unfolding from_time_t to_time_t
minus-Whole zero small = (pos 0, (refl, refl))
minus-Whole (suc k) small =
    let back : ((k + 1) * nano - 1 + 1) / nano ≡ suc k = omega arith in
    (negsuc ((k + 1) * nano - 1), (ground arith, ap minus back))

to_time_t-Whole : (tp : ℤ) → InRange tp → (q : ℤ) × Whole (to_time_t tp) q
unfolding from_time_t to_time_t
to_time_t-Whole (pos n) small = (pos (n / nano * nano), (ground arith, ap pos (omega arith)))
to_time_t-Whole (negsuc n) small = minus-Whole ((n + 1) / nano) (omega arith)

-- Let `tp` be a time point of 64 bits whose date the time zone gives in range, with a year of four
-- digits at most, and let the zone take that date, with `tm_isdst` 0, for the second `u`. Then the
-- text of `tp` is read as `u`. So it is read as the second of `tp`, and has that text again, if `u` is
-- that second. If `u` is an hour later, as where summer time is in force, and its nanoseconds have 63
-- bits, what is read is an hour late.
pub date_time_from_str-date_to_str :
    (zone : Zone) (tp u : ℤ) (n : ℕ)
    → InRange tp
    → IsDate (zone.localtime (to_time_t tp))
    → zone.mktime (record (zone.localtime (to_time_t tp)) { tm_isdst = pos 0 }) ≡ u
    → (date_time_from_str zone (date_to_str zone tp) ≡ from_time_t u)
      × (u ≡ to_time_t tp
          → (q : ℤ) × (date_time_from_str zone (date_to_str zone tp) ≡ ok q)
            × (to_time_t q ≡ to_time_t tp)
            × (date_to_str zone q ≡ date_to_str zone tp))
      × (tp ≡ pos n
          → u ≡ pos (n / nano + 3600)
          → (n / nano + 3600) * nano < 2 ^ 63
          → date_time_from_str zone (date_to_str zone tp)
            ≡ ok (pos (n / nano * nano + 3600 * nano)))
unfolding date_time_from_str date_to_str
date_time_from_str-date_to_str zone tp u n small good taken =
    let tm : Tm = zone.localtime (to_time_t tp) in
    let read : date_time_from_str zone (date_to_str zone tp) ≡ from_time_t u =
      ap (λ t. from_time_t (zone.mktime t)) (get_time-put_time tm good) ∙ ap from_time_t taken in
    let (q, (e, back)) = to_time_t-Whole tp small in
    (
      read,
      λ same. (
        q,
        read ∙ ap from_time_t same ∙ e,
        back,
        ap (λ t. put_time default_format (zone.localtime t)) back,
      ),
      λ since late fits. read ∙ ap from_time_t late ∙ unfold from_time_t in ground (arith, fits),
    )
