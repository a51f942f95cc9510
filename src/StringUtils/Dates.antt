-- ===== src/StringUtils/Dates.antt =====
-- The dates of algo/StringUtils.cpp. `std::get_time` reads, and `std::put_time` writes, the default
-- format, which is the only one in use. The time zone is an argument.
pub mod RoundTrip
mod Tests
use boost_server_example.Base.{
  ℕ, zero, suc, ◌+◌, ◌-◌, ◌*◌, ◌/◌, ◌%◌, ◌^◌, Bool, true, false, ◌&&◌, List, [], ◌∷◌, ◌++◌, Option,
  none, some, Bytes, ltb, leb, ◌==◌, is_digit, if◌then◌else◌,
}
use boost_server_example.Base.Int.{ℤ, pos, negsuc}
use boost_server_example.Base.Result.{Result, ok, err, int_overflow}
use boost_server_example.StringUtils.{is_white}

-- `std::tm`, but for the days of the week and of the year, which `std::mktime` does not read.
-- `tm_year` is the year itself; the source's counts from 1900.
pub record Tm : Type 0 where
  pub tm_sec : ℕ
  pub tm_min : ℕ
  pub tm_hour : ℕ
  pub tm_mday : ℕ
  pub tm_mon : ℕ
  pub tm_year : ℕ
  pub tm_isdst : ℤ

-- `std::tm tm = {}`
abbrev pub zero_tm : Tm
zero_tm = record {
  tm_sec = 0;
  tm_min = 0;
  tm_hour = 0;
  tm_mday = 0;
  tm_mon = 0;
  tm_year = 1900;
  tm_isdst = pos 0;
}

-- The time zone: `std::mktime` and `std::localtime`. A `std::time_t` is a number of seconds.
pub record Zone : Type 0 where
  pub mktime : Tm → ℤ
  pub localtime : ℤ → Tm

pub data Conversion : Type 0 where
  day month year hour minute second : Conversion

pub data Piece : Type 0 where
  conversion : Conversion → Piece
  white : Piece
  character : ℕ → Piece

-- "%d.%m.%Y %H:%M:%S"
abbrev pub default_format : List Piece
default_format =
    conversion day
    ∷ character b'.'
    ∷ conversion month
    ∷ character b'.'
    ∷ conversion year
    ∷ white
    ∷ conversion hour
    ∷ character b':'
    ∷ conversion minute
    ∷ character b':'
    ∷ conversion second
    ∷ []

-- How many digits a conversion reads at most, and the least and the greatest number.
abbrev pub limits : Conversion → ℕ × ℕ × ℕ
limits day = (2, 1, 31)
limits month = (2, 1, 12)
limits year = (4, 0, 9999)
limits hour = (2, 0, 23)
limits minute = (2, 0, 59)
limits second = (2, 0, 60)

abbrev pub set : Conversion → ℕ → Tm → Tm
set day n tm = record tm { tm_mday = n }
set month n tm = record tm { tm_mon = n - 1 }
set year n tm = record tm { tm_year = n }
set hour n tm = record tm { tm_hour = n }
set minute n tm = record tm { tm_min = n }
set second n tm = record tm { tm_sec = n }

abbrev pub get : Conversion → Tm → ℕ
get day tm = tm.tm_mday
get month tm = tm.tm_mon + 1
get year tm = tm.tm_year
get hour tm = tm.tm_hour
get minute tm = tm.tm_min
get second tm = tm.tm_sec

-- At most `width` digits, behind those whose value is `v`.
unfoldable pub read_digits : ℕ → ℕ → Bytes → ℕ × Bytes
read_digits zero v text = (v, text)
read_digits (suc width) v [] = (v, [])
read_digits (suc width) v (c ∷ text) =
    let rest = read_digits width (v * 10 + (c - b'0')) text in
    if is_digit c then rest else (v, c ∷ text)

-- `none` is a failure.
unfoldable pub read_number : ℕ × ℕ × ℕ → Bytes → Option (ℕ × Bytes)
unfolding read_digits
read_number limit [] = none
read_number (width, least, greatest) (c ∷ text) =
    let (n, rest) = read_digits width 0 (c ∷ text) in
    if is_digit c && leb least n && leb n greatest then some (n, rest) else none

unfoldable pub skip_white : Bytes → Bytes
skip_white [] = []
skip_white (c ∷ text) = let rest = skip_white text in if is_white c then rest else c ∷ text

-- `std::get_time`: the pieces of the format one after another. The fields read before a failure are
-- set.
unfoldable pub get_time : List Piece → Bytes → Tm → Tm
unfolding read_number skip_white
get_time [] text tm = tm
get_time (conversion c ∷ format) text tm = elim (read_number (limits c) text) [
  | none ↦ tm
  | some (n, rest) ↦ get_time format rest (set c n tm)
]
get_time (white ∷ format) text tm = get_time format (skip_white text) tm
get_time (character k ∷ format) [] tm = tm
get_time (character k ∷ format) (c ∷ text) tm =
    let rest = get_time format text tm in if c == k then rest else tm

abbrev pub two_digits : ℕ → Bytes
two_digits n = (b'0' + n / 10 % 10) ∷ (b'0' + n % 10) ∷ []

-- All years that a time point reaches have four digits.
abbrev pub put_conversion : Conversion → ℕ → Bytes
put_conversion day n = two_digits n
put_conversion month n = two_digits n
put_conversion year n = two_digits (n / 100) ++ two_digits n
put_conversion hour n = two_digits n
put_conversion minute n = two_digits n
put_conversion second n = two_digits n

-- `std::put_time`
unfoldable pub put_time : List Piece → Tm → Bytes
put_time [] tm = []
put_time (conversion c ∷ format) tm = put_conversion c (get c tm) ++ put_time format tm
put_time (white ∷ format) tm = 32 ∷ put_time format tm
put_time (character k ∷ format) tm = k ∷ put_time format tm

-- Nanoseconds in a second.
abbrev pub nano : ℕ
nano = 10 ^ 9

-- A `time_point` of the system clock is a number of nanoseconds since 1970, in 64 bits.
unfoldable pub from_time_t : ℤ → Result ℤ
from_time_t (pos n) = if ltb (n * nano) (2 ^ 63) then ok (pos (n * nano)) else err int_overflow
from_time_t (negsuc n) =
    if leb ((n + 1) * nano) (2 ^ 63) then ok (negsuc ((n + 1) * nano - 1)) else err int_overflow

-- `minus n` is -n.
abbrev pub minus : ℕ → ℤ
minus zero = pos 0
minus (suc n) = negsuc n

-- The division goes to 0.
unfoldable pub to_time_t : ℤ → ℤ
to_time_t (pos n) = pos (n / nano)
to_time_t (negsuc n) = minus ((n + 1) / nano)

module _ (zone : Zone) where
  open zone use {mktime, localtime}

  -- The stream skips white space first.
  unfoldable pub date_time_from_str : Bytes → Result ℤ
  unfolding get_time skip_white from_time_t
  date_time_from_str date = from_time_t (mktime (get_time default_format (skip_white date) zero_tm))

  unfoldable pub date_to_str : ℤ → Bytes
  unfolding put_time to_time_t
  date_to_str tp = put_time default_format (localtime (to_time_t tp))

  -- `now` is what the system clock shows.
  unfoldable pub current_date_time : ℤ → Bytes
  unfolding date_to_str
  current_date_time now = date_to_str now
