-- ===== src/WsSession/Silence.antt =====
-- What the timer of net/websockets/WsSession.cpp does to a session whose peer is silent.
use boost_server_example.Base.{
  ℕ, suc, ◌+◌, ◌≡◌, ◌⊎◌, inl, refl, sym, ap, subst, Bool, true, false, [], ◌∷◌, some, arith,
}
use boost_server_example.Callbacks.{Callbacks}
use boost_server_example.WsSession.{
  Callback, ErrorCode, alive, success, operation_aborted, closed, other, expired, ping_frequency,
  start_ping, start_wait, on_timer,
}
use boost_server_example.WsSession.Incoming.{clear_received_messages}
use boost_server_example.WsSession.Conn.{
  Conn, Move, resolved, connected, shaken, accepted, was_read, was_written, pinged, waited,
  controlled, sends, takes, runs, cleared, Reach, after,
}
use boost_server_example.WsSession.Reads.{Reach-Single, reading-running}
use boost_server_example.WsSession.Pinging.{timer_pings}
use boost_server_example.WsSession.Watch.{
  shuts, Watched, step-Watched, timer_silent, timer-silent, timer-Watched, on_resolve-Untimed,
  on_connect-Untimed, on_handshake-Untimed, on_accept-Untimed, on_read-Untimed, on_write-Untimed,
  on_ping-Untimed, send-Untimed,
}

-- A completion of the timer's wait, in time or because it was set anew.
abbrev timely : ErrorCode → Bool
timely success = true
timely operation_aborted = true
timely _ = false

module _ (callbacks : Callbacks Callback) where
  -- A step that is no control frame, and no failure of the timer.
  abbrev pub is_silent : {c d : Conn} → Move callbacks c d → Bool
  is_silent (controlled now) = false
  is_silent (waited k is_open now ec h) = timely ec
  is_silent _ = true

  pub data Silence (c : Conn) : Conn → Type 0 where
    silent : Silence c c
    then_silent :
        {d e : Conn} → Silence c d → (m : Move callbacks d e) → is_silent m ≡ true → Silence c e

  silent-Watched :
      {deadline : ℕ} {c d : Conn} (m : Move callbacks c d)
      → is_silent m ≡ true
      → Watched deadline c
      → Watched deadline d
  unfolding clear_received_messages on_timer
  silent-Watched {deadline} {c} (resolved k ec h) q v =
      step-Watched deadline c _ _ refl (on_resolve-Untimed c.session ec) v
  silent-Watched {deadline} {c} (connected k ec h) q v =
      step-Watched deadline c _ _ refl (on_connect-Untimed c.session ec) v
  silent-Watched {deadline} {c} (shaken k ec h) q v =
      step-Watched deadline c _ _ refl (on_handshake-Untimed c.session ec) v
  silent-Watched {deadline} {c} (accepted k ec h) q v =
      step-Watched deadline c _ _ refl (on_accept-Untimed c.session ec) v
  silent-Watched {deadline} {c} (was_read k is_open ec got h fits) q v =
      step-Watched deadline c _ _ refl (on_read-Untimed c.session callbacks is_open ec got) v
  silent-Watched {deadline} {c} (was_written text others is_open ec h) q v =
      step-Watched deadline c _ _ refl (on_write-Untimed c.session is_open ec) v
  silent-Watched {deadline} {c} (pinged k ec h e) q v =
      step-Watched deadline c _ _ refl (on_ping-Untimed c.session ec e) v
  silent-Watched {deadline} {c} (waited k is_open now success h) q v =
      timer-Watched deadline c k is_open now h v
  silent-Watched {deadline} {c} (waited k is_open now operation_aborted h) q v =
      timer-Watched deadline c k is_open now h v
  silent-Watched (waited k is_open now closed h) q v = absurd cc
  silent-Watched (waited k is_open now (other n) h) q v = absurd cc
  silent-Watched (controlled now) q v = absurd cc
  silent-Watched {deadline} {c} (sends is_open text) q v =
      let next = step-Watched deadline c c.pending _ refl (send-Untimed c.session is_open text) v in
      record {
        running = next.running;
        expiry = next.expiry;
        silent = next.silent;
        watching = next.watching;
      }
  silent-Watched (takes t rest h) q v = record {
    running = v.running;
    expiry = v.expiry;
    silent = v.silent;
    watching = v.watching;
  }
  silent-Watched {c} (runs is_open now h) q v = absurd (cc (v.running))
  silent-Watched cleared q v = record {
    running = v.running;
    expiry = v.expiry;
    silent = v.silent;
    watching = v.watching;
  }

  Silence-Watched :
      {deadline : ℕ} {c d : Conn} → Silence c d → Watched deadline c → Watched deadline d
  Silence-Watched silent v = v
  Silence-Watched (then_silent r m q) v = silent-Watched m q (Silence-Watched r v)

  -- Let the timer run out in a session that can be reached, that is open and whose peer was heard of
  -- last time. A ping is sent. If then no control frame comes in and no wait fails, the timer stays
  -- set to the end of one more period, and whatever else happens, a wait on it is under way until
  -- the socket has been shut down. A wait that completes before that time starts another; one that
  -- completes at that time or later shuts the socket down, closes it and unregisters the session.
  pub no_answer_closes :
      {c d : Conn} (w now : ℕ)
      → Reach callbacks c
      → c.pending.waits ≡ suc w
      → c.session.ping_state ≡ alive
      → expired now c.session.timer_expiry ≡ true
      → Silence (after c (record c.pending { waits = w }) (on_timer true now success c.session)) d
      → ((on_timer true now success c.session).1 ≡ start_ping ∷ start_wait ∷ [])
        × (d.session.timer_expiry ≡ some (now + ping_frequency))
        × ((d.pending.waits ≡ 1) ⊎ (shuts d.log ≡ true))
        × ((is_open : Bool) (later : ℕ)
            → on_timer is_open later success d.session
              ≡ timer_silent (now + ping_frequency) later d.session)
  no_answer_closes {c} {d} w now r h a x quiet =
      let one = Reach-Single callbacks r in
      let fired = timer_pings c.session now a x in
      let begun : Watched (now + ping_frequency)
          (after c (record c.pending { waits = w }) (on_timer true now success c.session)) =
        subst (λ r. Watched (now + ping_frequency) (after c (record c.pending { waits = w }) r))
          (sym fired)
          (record {
            running = reading-running c.running (omega (arith, one.waiting, h));
            expiry = refl;
            silent = refl;
            watching = inl (omega (arith, one.waiting, h));
          }) in
      let v = Silence-Watched quiet begun in
      (
        ap (λ r. r.1) fired,
        v.expiry,
        v.watching,
        λ is_open later.
            timer-silent (now + ping_frequency) d.session is_open later v.expiry v.silent,
      )
