-- ===== src/WsSession/Pinging.antt =====
-- What the handlers of net/websockets/WsSession.cpp do to the state of the ping.
use boost_server_example.Base.{
  ℕ, suc, true, [], ◌∷◌, ◌≤◌, ◌≡◌, ◌≢◌, ◌⊎◌, inl, inr, sym, ◌∙◌, Bool, List, Bytes, arith,
}
use boost_server_example.Base.Result.{ok}
use boost_server_example.Callbacks.{Callbacks}
use boost_server_example.WsSession.{
  Callback, ErrorCode, WsSession, Call, alive, sending, sent, expired, expires_after, start_ping,
  start_wait, total, success, on_resolve, on_connect, on_handshake, on_accept, on_ping, on_timer,
  on_write, on_control_callback, send, run_as_client,
}
use boost_server_example.WsSession.Incoming.{on_read}
use boost_server_example.WsSession.Conn.{Conn, take_read, after}

pub timer_pings :
    (s : WsSession) (now : ℕ)
    → s.ping_state ≡ alive
    → expired now s.timer_expiry ≡ true
    → on_timer true now success s
      ≡ (expires_after now (record s { ping_state = sending }), start_ping ∷ start_wait ∷ [])
unfolding on_timer
timer_pings s now h t = ground arith

-- A ping that was sent is no longer under way.
pub record Pinging (c : Conn) : Type 0 where
  pub single : c.pending.pings ≤ 1
  pub known : c.session.ping_state ≢ total
  pub answered : c.session.ping_state ≡ sent → c.pending.pings ≡ 0

-- What the steps other than the timer's and the ping's own leave alone.
pub record Unpinged (c d : Conn) : Type 0 where
  pub state : (d.session.ping_state ≡ c.session.ping_state) ⊎ (d.session.ping_state ≡ alive)
  pub pings : d.pending.pings ≡ c.pending.pings

module _ (c : Conn) where
  pub on_resolve-Unpinged :
      (k : ℕ) (ec : ErrorCode)
      → Unpinged c (after c (record c.pending { resolves = k }) (on_resolve ec c.session))
  unfolding on_resolve
  on_resolve-Unpinged k success = ground arith
  on_resolve-Unpinged k _ = ground arith

  pub on_connect-Unpinged :
      (k : ℕ) (ec : ErrorCode)
      → Unpinged c (after c (record c.pending { connects = k }) (on_connect ec c.session))
  unfolding on_connect
  on_connect-Unpinged k success = ground arith
  on_connect-Unpinged k _ = ground arith

  pub on_handshake-Unpinged :
      (k : ℕ) (ec : ErrorCode)
      → Unpinged c (after c (record c.pending { handshakes = k }) (on_handshake ec c.session))
  unfolding on_handshake
  on_handshake-Unpinged k success = ground arith
  on_handshake-Unpinged k _ = ground arith

  pub on_accept-Unpinged :
      (k : ℕ) (ec : ErrorCode)
      → Unpinged c (after c (record c.pending { accepts = k }) (on_accept ec c.session))
  unfolding on_accept
  on_accept-Unpinged k success = ground arith
  on_accept-Unpinged k _ = ground arith

  pub on_read-Unpinged :
      (callbacks : Callbacks Callback) (k : ℕ) (is_open : Bool) (ec : ErrorCode) (got : Bytes)
      → Unpinged c (
          after c
            (record c.pending { reads = k })
            (on_read is_open callbacks ec (take_read c.session got)))
  unfolding on_read
  on_read-Unpinged callbacks k is_open success got = ground arith
  on_read-Unpinged callbacks k is_open _ got = ground arith

  pub on_write-Unpinged :
      (others : List Bytes) (is_open : Bool) (ec : ErrorCode)
      → Unpinged c (after c (record c.pending { writes = others }) (on_write is_open ec c.session))
  unfolding on_write
  on_write-Unpinged others is_open success = ground arith
  on_write-Unpinged others is_open _ = ground arith

  pub send-Unpinged :
      (is_open : Bool) (text : Bytes) (taken : List Bytes)
      → Unpinged c (record (after c c.pending (send is_open c.session text)) { taken = taken })
  unfolding send
  send-Unpinged is_open text taken = ground arith

  pub control-Unpinged :
      (now : ℕ) → Unpinged c (after c c.pending (on_control_callback now c.session))
  unfolding on_control_callback
  control-Unpinged now = ground arith

  pub timer-Pinging :
      (k : ℕ) (is_open : Bool) (now : ℕ) (ec : ErrorCode)
      → let d = after c (record c.pending { waits = k }) (on_timer is_open now ec c.session) in
        d.pending.pings ≤ 1 → Pinging c → Pinging d
  unfolding on_timer
  timer-Pinging k is_open now success few v = ground arith
  timer-Pinging k is_open now _ few v = ground arith

  pub ping-Pinging :
      (k : ℕ) (ec : ErrorCode) {r : WsSession × List Call}
      → c.pending.pings ≡ suc k
      → on_ping ec c.session ≡ ok r
      → Pinging c
      → Pinging (after c (record c.pending { pings = k }) r)
  unfolding on_ping
  ping-Pinging k success h e v = ground arith
  ping-Pinging k _ h e v = ground arith

  pub run-Pinging :
      (is_open : Bool) (now : ℕ)
      → let d = after c c.pending (run_as_client is_open now c.session) in
        d.pending.pings ≤ 1 → Pinging c → Pinging (record d { running = true })
  unfolding run_as_client
  run-Pinging is_open now few v = ground arith

pub Unpinged-Pinging : (c d : Conn) → Unpinged c d → Pinging c → Pinging d
Unpinged-Pinging c d u v = go u.state
  where
    go : (d.session.ping_state ≡ c.session.ping_state) ⊎ (d.session.ping_state ≡ alive) → Pinging d
    go (inl e) = record {
      single = omega (arith, u.pings, v.single);
      known = λ h. v.known (sym e ∙ h);
      answered = λ h. u.pings ∙ v.answered (sym e ∙ h);
    }
    go (inr e) = record {
      single = omega (arith, u.pings, v.single);
      known = λ h. cc;
      answered = λ h. cc;
    }
