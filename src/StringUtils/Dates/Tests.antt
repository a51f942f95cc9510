-- ===== src/StringUtils/Dates/Tests.antt =====
-- Dates of algo/StringUtils.cpp at fixed inputs.
use boost_server_example.Base.{◌≡◌, refl, ◌+◌, ◌*◌, ◌/◌, ◌%◌, ◌^◌, ◌<◌, arith}
use boost_server_example.Base.Int.{ℤ, pos, negsuc}
use boost_server_example.Base.Result.{ok}
use boost_server_example.Base.Text.{codes}
use boost_server_example.StringUtils.Dates.{
  Tm, Zone, nano, zero_tm, default_format, get_time, put_time, from_time_t, to_time_t,
  date_time_from_str, date_to_str,
}
use boost_server_example.StringUtils.Dates.RoundTrip.{date_time_from_str-date_to_str}

abbrev evening : Tm
evening = record {
  tm_sec = 14;
  tm_min = 15;
  tm_hour = 22;
  tm_mday = 20;
  tm_mon = 9;
  tm_year = 1995;
  tm_isdst = pos 0;
}

reads_evening : get_time default_format (codes "20.10.1995 22:15:14") zero_tm ≡ evening
unfolding get_time
reads_evening = refl

writes_evening : put_time default_format evening ≡ codes "20.10.1995 22:15:14"
unfolding put_time
writes_evening = refl

abbrev at : ℤ → Tm
at (pos t) = record {
  tm_sec = t % 60;
  tm_min = t / 60 % 60;
  tm_hour = t / 3600 % 24 + 1;
  tm_mday = 1;
  tm_mon = 0;
  tm_year = 1970;
  tm_isdst = pos 1;
}
at (negsuc t) = zero_tm

-- Twelve hours, and some nanoseconds.
abbrev noon : ℤ
noon = pos (43200 * 10 ^ 9 + 5)

-- Summer time is in force, and the day is the first of 1970: the clock is an hour ahead.
abbrev summer : Zone
summer = record {
  mktime = λ tm. pos (tm.tm_hour * 3600 + tm.tm_min * 60 + tm.tm_sec);
  localtime = λ t. at t;
}

date_time_from_str-date_to_str_example :
    (date_time_from_str summer (date_to_str summer noon) ≡ from_time_t (pos 46800))
    × (pos 46800 ≡ to_time_t noon
        → (q : ℤ) × (date_time_from_str summer (date_to_str summer noon) ≡ ok q)
          × (to_time_t q ≡ to_time_t noon)
          × (date_to_str summer q ≡ date_to_str summer noon))
    × (noon ≡ pos (43200 * 10 ^ 9 + 5)
        → pos 46800 ≡ pos ((43200 * 10 ^ 9 + 5) / nano + 3600)
        → ((43200 * 10 ^ 9 + 5) / nano + 3600) * nano < 2 ^ 63
        → date_time_from_str summer (date_to_str summer noon)
          ≡ ok (pos ((43200 * 10 ^ 9 + 5) / nano * nano + 3600 * nano)))
unfolding to_time_t
date_time_from_str-date_to_str_example =
    date_time_from_str-date_to_str summer noon (pos 46800) (43200 * 10 ^ 9 + 5) (omega arith)
      (record {
        seconds = omega arith;
        minutes = omega arith;
        hours = omega arith;
        days = omega arith;
        days_most = omega arith;
        months = omega arith;
        years = omega arith;
      })
      refl

hour_late : date_time_from_str summer (date_to_str summer noon) ≡ ok (pos (46800 * 10 ^ 9))
unfolding to_time_t
hour_late = date_time_from_str-date_to_str_example.2 refl refl (omega arith)
