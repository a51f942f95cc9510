-- ===== src/WsSession/Blank.antt =====
-- The buffer of a session of net/websockets/WsSession.cpp while a read is to come.
use boost_server_example.Base.{ℕ, suc, ◌+◌, ◌≤◌, ◌≡◌, ◌⊎◌, inl, inr, refl, ◌∙◌, Bool, [], arith}
use boost_server_example.Callbacks.{Callbacks}
use boost_server_example.WsSession.{
  Callback, ErrorCode, WsSession, Step, on_accept, new_session, run_as_server, connect_as_client,
}
use boost_server_example.WsSession.Incoming.{on_read, clear_received_messages}
use boost_server_example.WsSession.Received.{on_accept-Received, run_as_client-Received}
use boost_server_example.WsSession.Conn.{
  Conn, Pending, Move, resolved, connected, shaken, accepted, was_read, was_written, pinged, waited,
  controlled, sends, takes, runs, cleared, Start, as_server, as_client, Reach, start, later,
  take_read, after, begin_calls,
}
use boost_server_example.WsSession.Reads.{to_come, Reach-Single}
use boost_server_example.WsSession.Mute.{
  reads_of, reads_of-begin_calls, Mute, on_resolve-Mute, on_connect-Mute, on_handshake-Mute,
  on_write-Mute, on_ping-Mute, on_timer-Mute, control-Mute, send-Mute,
}

-- Nothing is in the buffer, unless no read is under way nor will be started.
record Blank (c : Conn) : Type 0 where
  blank :
      (c.pending.accepts + c.pending.reads + to_come c.running ≡ 0)
      ⊎ (c.session.recieved_buffer ≡ [])

step-Blank :
    (c : Conn) (p : Pending) (r : Step)
    → p.accepts + p.reads ≡ c.pending.accepts + c.pending.reads
    → Mute c.session r
    → Blank c
    → Blank (after c p r)
step-Blank c p r e m v = record { blank = go v.blank }
  where
    go :
        (c.pending.accepts + c.pending.reads + to_come c.running ≡ 0)
          ⊎ (c.session.recieved_buffer ≡ [])
        → ((begin_calls r.1 p).accepts + (begin_calls r.1 p).reads + to_come c.running ≡ 0)
          ⊎ (r.0.recieved_buffer ≡ [])
    go (inl h) = inl (omega (arith, reads_of-begin_calls r.1 p, e, m.calls, h))
    go (inr h) = inr (m.received.1 ∙ h)

-- While something is to come, nothing is in the buffer.
awaited_empty :
    (c : Conn)
    → 1 ≤ c.pending.accepts + c.pending.reads + to_come c.running
    → Blank c
    → c.session.recieved_buffer ≡ []
awaited_empty c h v = go v.blank
  where
    go :
        (c.pending.accepts + c.pending.reads + to_come c.running ≡ 0)
          ⊎ (c.session.recieved_buffer ≡ [])
        → c.session.recieved_buffer ≡ []
    go (inl none_left) = absurd (omega (arith, h, none_left))
    go (inr empty) = empty

on_read_empties :
    (callbacks : Callbacks Callback) (is_open : Bool) (ec : ErrorCode) (s : WsSession)
    → let r = on_read is_open callbacks ec s in (reads_of r.1 ≡ 0) ⊎ (r.0.recieved_buffer ≡ [])
unfolding on_read
on_read_empties callbacks is_open ec s = ground arith

module _ (callbacks : Callbacks Callback) where
  on_read-Blank :
      (c : Conn) (k : ℕ) (is_open : Bool) (ec : ErrorCode) (s : WsSession)
      → c.pending.reads ≡ suc k
      → c.pending.accepts + c.pending.reads + to_come c.running ≤ 1
      → Blank (after c (record c.pending { reads = k }) (on_read is_open callbacks ec s))
  on_read-Blank c k is_open ec s h one = record {
    blank = go (on_read_empties callbacks is_open ec s);
  }
    where
      r : Step
      r = on_read is_open callbacks ec s

      p : Pending
      p = record c.pending { reads = k }

      go :
          (reads_of r.1 ≡ 0) ⊎ (r.0.recieved_buffer ≡ [])
          → ((begin_calls r.1 p).accepts + (begin_calls r.1 p).reads + to_come c.running ≡ 0)
            ⊎ (r.0.recieved_buffer ≡ [])
      go (inl none_started) = inl (omega (arith, reads_of-begin_calls r.1 p, h, one, none_started))
      go (inr empty) = inr empty

  on_accept-Blank :
      (c : Conn) (k : ℕ) (ec : ErrorCode)
      → c.pending.accepts ≡ suc k
      → Blank c
      → Blank (after c (record c.pending { accepts = k }) (on_accept ec c.session))
  on_accept-Blank c k ec h v = record {
    blank = inr ((on_accept-Received ec c.session).1 ∙ awaited_empty c (omega (arith, h)) v);
  }

  Move-Blank :
      {c d : Conn}
      → Move callbacks c d
      → c.pending.accepts + c.pending.reads + to_come c.running ≤ 1
      → Blank c
      → Blank d
  unfolding clear_received_messages
  Move-Blank {c} (resolved k ec h) one v = step-Blank c _ _ refl (on_resolve-Mute c.session ec) v
  Move-Blank {c} (connected k ec h) one v = step-Blank c _ _ refl (on_connect-Mute c.session ec) v
  Move-Blank {c} (shaken k ec h) one v = step-Blank c _ _ refl (on_handshake-Mute c.session ec) v
  Move-Blank {c} (accepted k ec h) one v = on_accept-Blank c k ec h v
  Move-Blank {c} (was_read k is_open ec got h fits) one v =
      on_read-Blank c k is_open ec (take_read c.session got) h one
  Move-Blank {c} (was_written text others is_open ec h) one v =
      step-Blank c _ _ refl (on_write-Mute c.session is_open ec) v
  Move-Blank {c} (pinged k ec h e) one v = step-Blank c _ _ refl (on_ping-Mute c.session ec e) v
  Move-Blank {c} (waited k is_open now ec h) one v =
      step-Blank c _ _ refl (on_timer-Mute c.session is_open now ec) v
  Move-Blank {c} (controlled now) one v = step-Blank c _ _ refl (control-Mute c.session now) v
  Move-Blank {c} (sends is_open text) one v = record {
    blank = (step-Blank c c.pending _ refl (send-Mute c.session is_open text) v).blank;
  }
  Move-Blank (takes t rest h) one v = record { blank = v.blank }
  Move-Blank {c} (runs is_open now h) one v = record {
    blank =
        inr (
          (run_as_client-Received is_open now c.session).1
          ∙ awaited_empty c (rw h (omega arith)) v);
  }
  Move-Blank cleared one v = record { blank = v.blank }

  Start-Blank : {c : Conn} → Start callbacks c → Blank c
  unfolding run_as_server connect_as_client new_session
  Start-Blank (as_server name id is_open now e) = record { blank = inr (rw e (ground arith)) }
  Start-Blank (as_client name id host port e) = record { blank = inr (rw e refl) }

  Reach-Blank : {c : Conn} → Reach callbacks c → Blank c
  Reach-Blank (start s) = Start-Blank s
  Reach-Blank (later r m) = Move-Blank m (Reach-Single callbacks r).reading (Reach-Blank r)

  -- While a read is under way in a session that can be reached, nothing is in its buffer.
  pub read_buffer_empty :
      {c : Conn} (k : ℕ)
      → Reach callbacks c
      → c.pending.reads ≡ suc k
      → c.session.recieved_buffer ≡ []
  read_buffer_empty {c} k r h = awaited_empty c (omega (arith, h)) (Reach-Blank r)
