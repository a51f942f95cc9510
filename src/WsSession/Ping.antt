-- ===== src/WsSession/Ping.antt =====
-- The pings of net/websockets/WsSession.cpp, and the assertion in `on_ping`.
use boost_server_example.Base.{ℕ, suc, ◌≤◌, ◌≡◌, inl, refl, subst, ◌∷◌, [], true, List, arith}
use boost_server_example.Base.Result.{ok, err, assert_failed}
use boost_server_example.Callbacks.{Callbacks}
use boost_server_example.WsSession.{
  Callback, ErrorCode, WsSession, Call, PingState, alive, sending, sent, total, success,
  operation_aborted, closed, other, on_ping, new_session, run_as_server, connect_as_client, expired,
  on_session_fail, expires_after, start_ping, start_wait,
}
use boost_server_example.WsSession.Incoming.{clear_received_messages}
use boost_server_example.WsSession.Conn.{
  Conn, Move, resolved, connected, shaken, accepted, was_read, was_written, pinged, waited,
  controlled, sends, takes, runs, cleared, Start, as_server, as_client, after,
}
use boost_server_example.WsSession.Pinging.{
  Pinging, on_resolve-Unpinged, on_connect-Unpinged, on_handshake-Unpinged, on_accept-Unpinged,
  on_read-Unpinged, on_write-Unpinged, send-Unpinged, control-Unpinged, timer-Pinging, ping-Pinging,
  run-Pinging, Unpinged-Pinging, timer_pings,
}

module _ (callbacks : Callbacks Callback) where
  -- The states that a session reaches while it never has two pings under way.
  pub data Calm : Conn → Type 0 where
    start : {c : Conn} → Start callbacks c → c.pending.pings ≤ 1 → Calm c
    later : {c d : Conn} → Calm c → Move callbacks c d → d.pending.pings ≤ 1 → Calm d

  Move-Pinging : {c d : Conn} → Move callbacks c d → d.pending.pings ≤ 1 → Pinging c → Pinging d
  unfolding clear_received_messages
  Move-Pinging {c} (resolved k ec h) few v = Unpinged-Pinging c _ (on_resolve-Unpinged c k ec) v
  Move-Pinging {c} (connected k ec h) few v = Unpinged-Pinging c _ (on_connect-Unpinged c k ec) v
  Move-Pinging {c} (shaken k ec h) few v = Unpinged-Pinging c _ (on_handshake-Unpinged c k ec) v
  Move-Pinging {c} (accepted k ec h) few v = Unpinged-Pinging c _ (on_accept-Unpinged c k ec) v
  Move-Pinging {c} (was_read k is_open ec got h fits) few v =
      Unpinged-Pinging c _ (on_read-Unpinged c callbacks k is_open ec got) v
  Move-Pinging {c} (was_written text others is_open ec h) few v =
      Unpinged-Pinging c _ (on_write-Unpinged c others is_open ec) v
  Move-Pinging {c} (pinged k ec h e) few v = ping-Pinging c k ec h e v
  Move-Pinging {c} (waited k is_open now ec h) few v = timer-Pinging c k is_open now ec few v
  Move-Pinging {c} (controlled now) few v = Unpinged-Pinging c _ (control-Unpinged c now) v
  Move-Pinging {c} (sends is_open text) few v =
      Unpinged-Pinging c _ (send-Unpinged c is_open text _) v
  Move-Pinging {c} (takes t rest h) few v =
      Unpinged-Pinging c _ (record { state = inl refl; pings = refl }) v
  Move-Pinging {c} (runs is_open now h) few v = run-Pinging c is_open now few v
  Move-Pinging {c} cleared few v =
      Unpinged-Pinging c _ (record { state = inl refl; pings = refl }) v

  Start-Pinging : {c : Conn} → Start callbacks c → Pinging c
  unfolding run_as_server connect_as_client new_session
  Start-Pinging (as_server name id is_open now e) = rw e (ground arith)
  Start-Pinging (as_client name id host port e) = rw e (ground arith)

  Calm-Pinging : {c : Conn} → Calm c → Pinging c
  Calm-Pinging (start s few) = Start-Pinging s
  Calm-Pinging (later r m few) = Move-Pinging m few (Calm-Pinging r)

  -- While a session never has two pings under way, the assertion in `on_ping` holds: whatever the
  -- ping completes with, the handler returns.
  pub on_ping-returns :
      {c : Conn} (k : ℕ) (ec : ErrorCode)
      → Calm c
      → c.pending.pings ≡ suc k
      → (r : WsSession × List Call) × (on_ping ec c.session ≡ ok r)
  on_ping-returns {c} k ec r h = go ec c.session.ping_state refl
    where
      v : Pinging c
      v = Calm-Pinging r

      go :
          (e : ErrorCode) (p : PingState)
          → c.session.ping_state ≡ p
          → (r : WsSession × List Call) × (on_ping e c.session ≡ ok r)
      go success alive q = ((c.session, []), unfold on_ping in ground arith)
      go success sending q =
          ((record c.session { ping_state = sent }, []), unfold on_ping in ground arith)
      go success sent q = absurd (omega (arith, v.answered q))
      go success total q = absurd (v.known q)
      go operation_aborted p q = ((c.session, []), unfold on_ping in refl)
      go closed p q = ((c.session, on_session_fail c.session), unfold on_ping in refl)
      go (other n) p q = ((c.session, on_session_fail c.session), unfold on_ping in refl)

  -- With a ping still under way, a control frame that has come in and a timer that has run out, the
  -- next two steps, the timer's and a ping's completion, lead to a state in which a ping is under
  -- way and the assertion fails once it completes.
  pub two_pings_assert :
      (c : Conn) (k w now : ℕ)
      → c.session.ping_state ≡ alive
      → c.pending.pings ≡ suc k
      → c.pending.waits ≡ suc w
      → expired now c.session.timer_expiry ≡ true
      → (d : Conn) × (e : Conn) × Move callbacks c d
        × Move callbacks d e
        × (e.pending.pings ≡ suc k)
        × (on_ping success e.session ≡ err assert_failed)
  two_pings_assert c k w now h p q t = (
    d,
    after d (record d.pending { pings = suc k }) done,
    subst (λ r. Move callbacks c (after c (record c.pending { waits = w }) r))
        (timer_pings c.session now h t) (waited w true now success q),
    pinged (suc k) success {r = done} (ground arith) (unfold on_ping in refl),
    refl,
    unfold on_ping in refl,
  )
    where
      d : Conn
      d =
          after c (record c.pending { waits = w })
            (
              expires_after now (record c.session { ping_state = sending }),
              start_ping ∷ start_wait ∷ [],
            )

      done : WsSession × List Call
      done = (record d.session { ping_state = sent }, [])
