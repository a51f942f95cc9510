-- ===== src/WsSession/Reads.antt =====
-- The other operations of net/websockets/WsSession.cpp: one at a time of each that must be.
use boost_server_example.Base.{
  ℕ, suc, ◌+◌, ◌≤◌, ◌≡◌, refl, Bool, true, false, if◌then◌else◌, arith, List, Bytes,
}
use boost_server_example.Callbacks.{Callbacks}
use boost_server_example.WsSession.{
  Callback, ErrorCode, WsSession, success, on_resolve, on_connect, on_handshake, on_accept, on_ping,
  on_timer, on_write, on_control_callback, send, new_session, run_as_server, run_as_client,
  connect_as_client, Call,
}
use boost_server_example.Base.Result.{ok}
use boost_server_example.WsSession.Incoming.{on_read}
use boost_server_example.WsSession.Conn.{
  Conn, Move, resolved, connected, shaken, accepted, was_read, was_written, pinged, waited,
  controlled, sends, takes, runs, cleared, Start, as_server, as_client, Reach, start, later,
  take_read, after,
}

-- A session that has not been run yet will start one read and one wait.
abbrev pub to_come : Bool → ℕ
to_come running = if running then 0 else 1

pub reading-running : (running : Bool) → 1 + to_come running ≤ 1 → running ≡ true
reading-running true h = refl
reading-running false h = absurd (omega (arith, h))

pub record Single (c : Conn) : Type 0 where
  pub reading : c.pending.accepts + c.pending.reads + to_come c.running ≤ 1
  pub waiting : c.pending.waits + to_come c.running ≤ 1

module _ (c : Conn) where
  on_resolve-Single :
      (k : ℕ) (ec : ErrorCode)
      → Single c
      → Single (after c (record c.pending { resolves = k }) (on_resolve ec c.session))
  unfolding on_resolve
  on_resolve-Single k success v = ground arith
  on_resolve-Single k _ v = ground arith

  on_connect-Single :
      (k : ℕ) (ec : ErrorCode)
      → Single c
      → Single (after c (record c.pending { connects = k }) (on_connect ec c.session))
  unfolding on_connect
  on_connect-Single k success v = ground arith
  on_connect-Single k _ v = ground arith

  on_handshake-Single :
      (k : ℕ) (ec : ErrorCode)
      → Single c
      → Single (after c (record c.pending { handshakes = k }) (on_handshake ec c.session))
  unfolding on_handshake
  on_handshake-Single k success v = ground arith
  on_handshake-Single k _ v = ground arith

  on_accept-Single :
      (k : ℕ) (ec : ErrorCode)
      → c.pending.accepts ≡ suc k
      → Single c
      → Single (after c (record c.pending { accepts = k }) (on_accept ec c.session))
  unfolding on_accept
  on_accept-Single k success h v = ground arith
  on_accept-Single k _ h v = ground arith

  on_read-Single :
      (callbacks : Callbacks Callback) (k : ℕ) (is_open : Bool) (ec : ErrorCode) (s : WsSession)
      → c.pending.reads ≡ suc k
      → Single c
      → Single (after c (record c.pending { reads = k }) (on_read is_open callbacks ec s))
  unfolding on_read
  on_read-Single callbacks k is_open success s h v = ground arith
  on_read-Single callbacks k is_open _ s h v = ground arith

  on_timer-Single :
      (k : ℕ) (is_open : Bool) (now : ℕ) (ec : ErrorCode)
      → c.pending.waits ≡ suc k
      → Single c
      → Single (after c (record c.pending { waits = k }) (on_timer is_open now ec c.session))
  unfolding on_timer
  on_timer-Single k is_open now success h v = ground arith
  on_timer-Single k is_open now _ h v = ground arith

  on_ping-Single :
      (k : ℕ) (ec : ErrorCode) {r : WsSession × List Call}
      → on_ping ec c.session ≡ ok r
      → Single c
      → Single (after c (record c.pending { pings = k }) r)
  unfolding on_ping
  on_ping-Single k success e v = ground arith
  on_ping-Single k _ e v = ground arith

  on_write-Single :
      (others : List Bytes) (is_open : Bool) (ec : ErrorCode)
      → Single c
      → Single (after c (record c.pending { writes = others }) (on_write is_open ec c.session))
  unfolding on_write
  on_write-Single others is_open success v = ground arith
  on_write-Single others is_open _ v = ground arith

  control-Single :
      (now : ℕ) → Single c → Single (after c c.pending (on_control_callback now c.session))
  unfolding on_control_callback
  control-Single now v = ground arith

  send-Single :
      (is_open : Bool) (text : Bytes) (taken : List Bytes)
      → Single c
      → Single (record (after c c.pending (send is_open c.session text)) { taken = taken })
  unfolding send
  send-Single is_open text taken v = ground arith

  run-Single :
      (is_open : Bool) (now : ℕ)
      → c.running ≡ false
      → Single c
      → Single (record (after c c.pending (run_as_client is_open now c.session)) { running = true })
  unfolding run_as_client
  run-Single is_open now h v = ground arith

module _ (callbacks : Callbacks Callback) where
  Move-Single : {c d : Conn} → Move callbacks c d → Single c → Single d
  Move-Single {c} (resolved k ec h) v = on_resolve-Single c k ec v
  Move-Single {c} (connected k ec h) v = on_connect-Single c k ec v
  Move-Single {c} (shaken k ec h) v = on_handshake-Single c k ec v
  Move-Single {c} (accepted k ec h) v = on_accept-Single c k ec h v
  Move-Single {c} (was_read k is_open ec got h fits) v =
      on_read-Single c callbacks k is_open ec (take_read c.session got) h v
  Move-Single {c} (was_written text others is_open ec h) v = on_write-Single c others is_open ec v
  Move-Single {c} (pinged k ec h e) v = on_ping-Single c k ec e v
  Move-Single {c} (waited k is_open now ec h) v = on_timer-Single c k is_open now ec h v
  Move-Single {c} (controlled now) v = control-Single c now v
  Move-Single {c} (sends is_open text) v = send-Single c is_open text _ v
  Move-Single (takes t rest h) v = record { reading = v.reading; waiting = v.waiting }
  Move-Single {c} (runs is_open now h) v = run-Single c is_open now h v
  Move-Single cleared v = record { reading = v.reading; waiting = v.waiting }

  Start-Single : {c : Conn} → Start callbacks c → Single c
  unfolding run_as_server connect_as_client new_session
  Start-Single (as_server name id is_open now e) = rw e (ground arith)
  Start-Single (as_client name id host port e) = rw e (ground arith)

  -- In every state that a session can reach, at most one handshake is being accepted or message read,
  -- and at most one wait on the timer is under way.
  pub Reach-Single : {c : Conn} → Reach callbacks c → Single c
  Reach-Single (start s) = Start-Single s
  Reach-Single (later r m) = Move-Single m (Reach-Single r)
