-- ===== src/Log/Tests.antt =====
-- Records of the log of log/Logger.cpp.
use boost_server_example.Base.{
  ℕ, ◌≡◌, refl, Bool, true, false, [], ◌∷◌, none, some, leb, drop, ◌==◌, if◌then◌else◌, arith,
}
use boost_server_example.Base.Result.{ok}
use boost_server_example.Base.Text.{codes}
use boost_server_example.Log.{
  Levels, Entry, Core, Sink, stop, flush, logfile_line, outputstream_line, new_logger,
  destroy_logger, instance_of, written_by,
}
use boost_server_example.Log.Laws.{IsCore, columns, new_logger_lem}

-- Debug, info and warning, as 1, 2 and 3.
abbrev levels : Levels ℕ
levels = record {
  info = 2;
  at_least = λ a b. leb b a;
  name = λ level.
      if level == 1 then codes "debug" else if level == 2 then codes "info" else codes "warning";
}

-- The sinks that are registered, as a test of addresses.
abbrev core : Core (ℕ → Bool)
core = record {
  is_registered = λ s j. s j;
  add_sink = λ i s j. if i == j then true else s j;
  remove_sink = λ i s j. if i == j then false else s j;
  add_common_attributes = λ s. s;
}

core-IsCore : IsCore core
core-IsCore = record { added = λ s i j. refl; removed = λ s i j. refl; attributes = λ s j. refl }

abbrev no_sink : ℕ → Bool
no_sink j = false

abbrev started : Entry ℕ
started = record {
  line_id = codes "7";
  time_stamp = codes "2019-01-28 01:21:58";
  severity = 2;
  smessage = codes "started";
}

line_7 : logfile_line levels started ≡ codes "[00007|2019-01-28 01:21:58|   info] : started"
unfolding logfile_line
line_7 = refl

console_line : outputstream_line levels started ≡ codes "[   info] : started"
unfolding outputstream_line
console_line = refl

started_columns :
    (drop 38 (logfile_line levels started) ≡ codes "started")
    × (drop 12 (outputstream_line levels started) ≡ codes "started")
started_columns = columns levels started (omega arith) refl (omega arith)

new_logger_lem_example :
    let (made, logger) = new_logger levels core 10 11 no_sink in
    (system_log : Sink ℕ) × (console : Sink ℕ) × (logger
      ≡ record { outputstream = some console; logfile = some system_log })
    × ((e : Entry ℕ)
        → (written_by levels core made system_log e ≡ logfile_line levels e ∷ [])
          × (written_by levels core made console e
              ≡ (if leb 2 e.severity then outputstream_line levels e ∷ [] else [])))
    × ((j : ℕ)
        → core.is_registered made j ≡ (if 11 == j then true else if 10 == j then true else false))
    × ((after : ℕ → Bool) × (destroy_logger levels core logger made
          ≡ ok (
            after,
            record { outputstream = none; logfile = none },
            stop 11 ∷ flush 11 ∷ flush 10 ∷ [],
          ))
        × ((j : ℕ) → core.is_registered after j ≡ false))
    × ((a b : ℕ)
        → instance_of levels core a b (instance_of levels core 10 11 (no_sink, none))
          ≡ (made, some logger))
new_logger_lem_example = new_logger_lem levels core core-IsCore 10 11 no_sink refl refl
