-- ===== src/Log.antt =====
-- log/Logger.cpp: the sinks of the log, what each lets through and how it writes a record. The logging
-- core of Boost.Log, its levels and its attributes are arguments.
pub mod Laws
mod Tests
use boost_server_example.Base.{
  ℕ, ◌-◌, Bool, true, false, ◌&&◌, List, [], ◌∷◌, ◌++◌, Option, none, some, Bytes, length,
  replicate, if◌then◌else◌,
}
use boost_server_example.Base.Result.{Result, ok, ◌>>=◌, or_fault, bad_index}
use boost_server_example.Base.Text.{codes}

-- `boost::log::trivial`: the severity levels, their names and their order.
pub record Levels (Level : Type 0) : Type 0 where
  pub info : Level
  pub at_least : Level → Level → Bool
  pub name : Level → Bytes

-- A record with its attributes. `line_id` and `time_stamp` are as they are printed.
pub record Entry (Level : Type 0) : Type 0 where
  pub line_id : Bytes
  pub time_stamp : Bytes
  pub severity : Level
  pub smessage : Bytes

-- `boost::log::core`. A sink is known by its address.
pub record Core (State : Type 0) : Type 0 where
  pub is_registered : State → ℕ → Bool
  pub add_sink : ℕ → State → State
  pub remove_sink : ℕ → State → State
  pub add_common_attributes : State → State

pub record Sink (Level : Type 0) : Type 0 where
  pub address : ℕ
  pub filter : Level → Bool
  pub formatter : Entry Level → Bytes

-- The shared pointers of the logger.
pub record Logger (Level : Type 0) : Type 0 where
  pub outputstream : Option (Sink Level)
  pub logfile : Option (Sink Level)

-- What is asked of a sink.
pub data SinkCall : Type 0 where
  stop flush : ℕ → SinkCall

-- `std::setw(width) << std::setfill(fill) << text`
abbrev pub set_width : ℕ → ℕ → Bytes → Bytes
set_width width fill text = replicate (width - length text) fill ++ text

module _ {Level : Type 0} (levels : Levels Level) where
  open levels use {info, at_least, name}

  abbrev pub severity_field : Entry Level → Bytes
  severity_field e = set_width 7 b' ' (name e.severity) ++ codes "] : " ++ e.smessage

  -- The formatter of the system log.
  unfoldable pub logfile_line : Entry Level → Bytes
  logfile_line e =
      codes "["
      ++ set_width 5 b'0' e.line_id
      ++ codes "|"
      ++ e.time_stamp
      ++ codes "|"
      ++ severity_field e

  -- The formatter of the console.
  unfoldable pub outputstream_line : Entry Level → Bytes
  outputstream_line e = codes "[" ++ severity_field e

  module _ {State : Type 0} (core : Core State) where
    open core use {is_registered, add_sink, remove_sink, add_common_attributes}

    -- The constructor; `logfile` and `outputstream` are the addresses of the new sinks.
    unfoldable pub new_logger : ℕ → ℕ → State → State × Logger Level
    unfolding logfile_line outputstream_line
    new_logger logfile outputstream state =
        let system_log : Sink Level = record {
          address = logfile;
          filter = λ severity. true;
          formatter = logfile_line;
        } in
        let console : Sink Level = record {
          address = outputstream;
          filter = λ severity. at_least severity info;
          formatter = outputstream_line;
        } in
        (
          add_common_attributes (add_sink outputstream (add_sink logfile (add_sink logfile state))),
          record { outputstream = some console; logfile = some system_log },
        )

    -- The destructor. A null pointer has no sink to stop.
    unfoldable pub destroy_logger :
        Logger Level → State → Result (State × Logger Level × List SinkCall)
    destroy_logger logger state = do
      outputstream ← or_fault logger.outputstream bad_index
      logfile ← or_fault logger.logfile bad_index
      ok (
        remove_sink logfile.address (remove_sink outputstream.address state),
        record { outputstream = none; logfile = none },
        stop outputstream.address ∷ flush outputstream.address ∷ flush logfile.address ∷ [],
      )

    -- `instance`: the logger is made by the first call.
    unfoldable pub instance_of :
        ℕ → ℕ → State × Option (Logger Level) → State × Option (Logger Level)
    unfolding new_logger
    instance_of logfile outputstream (state, none) =
        let (made, logger) = new_logger logfile outputstream state in (made, some logger)
    instance_of logfile outputstream (state, some logger) = (state, some logger)

    -- What a sink writes of a record: a line, if it is registered and its filter passes it.
    abbrev pub written_by : State → Sink Level → Entry Level → List Bytes
    written_by state sink e =
        if is_registered state sink.address && sink.filter e.severity
        then sink.formatter e ∷ []
        else []
