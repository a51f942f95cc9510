-- ===== src/Log/Laws.antt =====
-- What reaches the sinks of log/Logger.cpp.
use boost_server_example.Base.{
  ℕ, ◌-◌, ◌≤◌, ◌≡◌, refl, sym, ap, subst, ◌∙◌, true, false, [], ◌∷◌, ◌++◌, none, some, Bytes,
  length, length-append, length-replicate, replicate, drop, ◌==◌, if◌then◌else◌, append_assoc,
  arith,
}
use boost_server_example.Base.Result.{ok}
use boost_server_example.Base.Text.{codes}
use boost_server_example.Log.{
  Levels, Entry, Core, Sink, stop, flush, set_width, logfile_line, outputstream_line, new_logger,
  destroy_logger, instance_of, written_by,
}

-- What the documentation of the logging core says: a sink is registered once or not at all.
pub record IsCore {State : Type 0} (core : Core State) : Type 0 where
  pub added :
      (s : State) (i j : ℕ)
      → core.is_registered (core.add_sink i s) j ≡ (if i == j then true else core.is_registered s j)
  pub removed :
      (s : State) (i j : ℕ)
      → core.is_registered (core.remove_sink i s) j
        ≡ (if i == j then false else core.is_registered s j)
  pub attributes :
      (s : State) (j : ℕ)
      → core.is_registered (core.add_common_attributes s) j ≡ core.is_registered s j

length-set_width :
    (width fill : ℕ) (text : Bytes)
    → length text ≤ width
    → length (set_width width fill text) ≡ width
length-set_width width fill text small = omega (
  arith,
  length-append (replicate (width - length text) fill) text,
  length-replicate (width - length text) fill,
)

drop-append : (xs ys : Bytes) {n : ℕ} → length xs ≡ n → drop n (xs ++ ys) ≡ ys
drop-append xs ys e = subst (λ n. drop n (xs ++ ys) ≡ ys) e (past xs)
  where
    past : (xs : Bytes) → drop (length xs) (xs ++ ys) ≡ ys
    past [] = refl
    past (x ∷ xs) = past xs

module _ {Level : Type 0} (levels : Levels Level) where
  open levels use {info, at_least, name}

  -- If the number of a record has five digits at most, its time nineteen characters and the name of its
  -- level seven at most, its message begins at one column, in the system log and on the console.
  pub columns :
      (e : Entry Level)
      → length e.line_id ≤ 5
      → length e.time_stamp ≡ 19
      → length (name e.severity) ≤ 7
      → (drop 38 (logfile_line levels e) ≡ e.smessage)
        × (drop 12 (outputstream_line levels e) ≡ e.smessage)
  unfolding logfile_line outputstream_line
  columns e number time level =
      let id : Bytes = set_width 5 b'0' e.line_id in
      let severity : Bytes = set_width 7 b' ' (name e.severity) in
      let five : length id ≡ 5 = length-set_width 5 b'0' e.line_id number in
      let seven : length severity ≡ 7 = length-set_width 7 b' ' (name e.severity) level in
      let front : Bytes = codes "[" ++ id ++ codes "|" ++ e.time_stamp ++ codes "|" in
      let level_field : Bytes = severity ++ codes "] : " in
      let level_size : length level_field ≡ 11 =
        omega (arith, length-append severity (codes "] : "), seven) in
      let front_size : length front ≡ 27 = omega (
        arith,
        length-append (codes "[" ++ id ++ codes "|" ++ e.time_stamp) (codes "|"),
        length-append (codes "[" ++ id ++ codes "|") e.time_stamp,
        length-append (codes "[" ++ id) (codes "|"),
        length-append (codes "[") id,
        five,
      ) in
      (
        ap (drop 38) (sym (append_assoc front level_field e.smessage))
            ∙ drop-append (front ++ level_field) e.smessage {n = 38}
                (length-append front level_field ∙ omega arith),
        ap (drop 12) (sym (append_assoc (codes "[") level_field e.smessage))
            ∙ drop-append (codes "[" ++ level_field) e.smessage {n = 12} (omega arith),
      )

module _ {Level : Type 0} (levels : Levels Level) {State : Type 0} (core : Core State)
    (lawful : IsCore core) (logfile outputstream : ℕ) (state : State) where
  open levels use {info, at_least, name}
  open core use {is_registered, add_sink, remove_sink, add_common_attributes}

  abbrev with_sinks : State
  with_sinks =
      add_common_attributes (add_sink outputstream (add_sink logfile (add_sink logfile state)))

  with_sinks-registered :
      (j : ℕ)
      → is_registered with_sinks j
        ≡ (if outputstream == j then true else if logfile == j then true else is_registered state j)
  with_sinks-registered j =
      lawful.attributes (add_sink outputstream (add_sink logfile (add_sink logfile state))) j
      ∙ lawful.added (add_sink logfile (add_sink logfile state)) outputstream j
      ∙ ap (λ b. if outputstream == j then true else b)
          (lawful.added (add_sink logfile state) logfile j
            ∙ ap (λ b. if logfile == j then true else b) (lawful.added state logfile j)
            ∙ (ground arith))

  abbrev without_sinks : State
  without_sinks = remove_sink logfile (remove_sink outputstream with_sinks)

  without_sinks-registered :
      (j : ℕ)
      → is_registered state logfile ≡ false
      → is_registered state outputstream ≡ false
      → is_registered without_sinks j ≡ is_registered state j
  without_sinks-registered j a b =
      lawful.removed (remove_sink outputstream with_sinks) logfile j
      ∙ ap (λ c. if logfile == j then false else c) (lawful.removed with_sinks outputstream j)
      ∙ ground (arith, with_sinks-registered j, a, b)

  -- Of a core that does what its documentation says, let `state` be one in which neither of the two
  -- new sinks is registered. The constructor makes two sinks: the system log gets a line of every
  -- record, the console of those of level `info` and above. The two are registered, and any other
  -- sink if it was. The destructor, then, stops the console, flushes both and leaves null pointers
  -- and the sinks of the core as they were before the constructor. A second call of `instance` makes
  -- no logger.
  pub new_logger_lem :
      is_registered state logfile ≡ false
      → is_registered state outputstream ≡ false
      → let (made, logger) = new_logger levels core logfile outputstream state in
        (system_log : Sink Level) × (console : Sink Level) × (logger
          ≡ record { outputstream = some console; logfile = some system_log })
        × ((e : Entry Level)
            → (written_by levels core made system_log e ≡ logfile_line levels e ∷ [])
              × (written_by levels core made console e
                  ≡ (if at_least e.severity info then outputstream_line levels e ∷ [] else [])))
        × ((j : ℕ)
            → is_registered made j ≡ (
                if outputstream == j
                then true
                else if logfile == j
                then true
                else is_registered state j))
        × ((after : State) × (destroy_logger levels core logger made
              ≡ ok (
                after,
                record { outputstream = none; logfile = none },
                stop outputstream ∷ flush outputstream ∷ flush logfile ∷ [],
              ))
            × ((j : ℕ) → is_registered after j ≡ is_registered state j))
        × ((a b : ℕ)
            → instance_of levels core a b
                (instance_of levels core logfile outputstream (state, none))
              ≡ (made, some logger))
  unfolding new_logger destroy_logger instance_of
  new_logger_lem a b =
      let system_log : is_registered with_sinks logfile ≡ true =
        with_sinks-registered logfile ∙ ground arith in
      let console : is_registered with_sinks outputstream ≡ true =
        with_sinks-registered outputstream ∙ ground arith in
      (
        _,
        _,
        refl,
        λ e. (rw system_log refl, rw console (ground arith)),
        with_sinks-registered,
        (without_sinks, refl, λ j. without_sinks-registered j a b),
        λ a b. refl,
      )
