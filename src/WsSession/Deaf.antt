-- ===== src/WsSession/Deaf.antt =====
-- What becomes of a session of net/websockets/WsSession.cpp that has read an empty message.
use boost_server_example.Base.{
  ℕ, suc, ◌+◌, ◌≡◌, refl, sym, ap, ◌∙◌, Bool, true, List, [], ◌∷◌, ◌++◌, append-nil, append_assoc,
  arith,
}
use boost_server_example.Callbacks.{Callbacks}
use boost_server_example.DispatchQueue.{clear, pop_all-nil}
use boost_server_example.WsSession.{Callback, ErrorCode, Step, Task}
use boost_server_example.WsSession.Incoming.{on_read, clear_received_messages}
use boost_server_example.WsSession.Conn.{
  Conn, Pending, Move, resolved, connected, shaken, accepted, was_read, was_written, pinged, waited,
  controlled, sends, takes, runs, cleared, Reach, take_read, after,
}
use boost_server_example.WsSession.Reads.{Reach-Single, reading-running}
use boost_server_example.WsSession.Stall.{Moves, here, next}
use boost_server_example.WsSession.Blank.{read_buffer_empty}
use boost_server_example.WsSession.Mute.{
  reads_of, reads_of-append, reads_of-begin_calls, Mute, empty-Mute, on_resolve-Mute,
  on_connect-Mute, on_handshake-Mute, on_write-Mute, on_ping-Mute, on_timer-Mute, control-Mute,
  send-Mute,
}

-- No read is under way nor will be started; `begun` were, and the tasks are the last of `tasks`.
pub record Deaf (begun : ℕ) (tasks : List Task) (c : Conn) : Type 0 where
  pub running : c.running ≡ true
  pub reading : c.pending.accepts + c.pending.reads ≡ 0
  pub log : reads_of c.log ≡ begun
  pub queue : (gone : List Task) × (tasks ≡ gone ++ c.session.received_messages.callbacks_queue)

module _ (begun : ℕ) (tasks : List Task) where
  step-Deaf :
      (c : Conn) (p : Pending) (r : Step)
      → p.accepts + p.reads ≡ c.pending.accepts + c.pending.reads
      → Mute c.session r
      → Deaf begun tasks c
      → Deaf begun tasks (after c p r)
  step-Deaf c p r e m v = record {
    running = v.running;
    reading = omega (arith, reads_of-begin_calls r.1 p, e, v.reading, m.calls);
    log = omega (arith, reads_of-append c.log r.1, m.calls, v.log);
    queue = (v.queue.0, v.queue.1 ∙ ap (λ q. v.queue.0 ++ q.callbacks_queue) (sym m.received.0));
  }

module _ (callbacks : Callbacks Callback) (begun : ℕ) (tasks : List Task) where
  pub Move-Deaf : {c d : Conn} → Move callbacks c d → Deaf begun tasks c → Deaf begun tasks d
  unfolding clear_received_messages clear
  Move-Deaf {c} (resolved k ec h) v =
      step-Deaf begun tasks c _ _ refl (on_resolve-Mute c.session ec) v
  Move-Deaf {c} (connected k ec h) v =
      step-Deaf begun tasks c _ _ refl (on_connect-Mute c.session ec) v
  Move-Deaf {c} (shaken k ec h) v =
      step-Deaf begun tasks c _ _ refl (on_handshake-Mute c.session ec) v
  Move-Deaf (accepted k ec h) v = absurd (omega (arith, h, v.reading))
  Move-Deaf (was_read k is_open ec got h fits) v = absurd (omega (arith, h, v.reading))
  Move-Deaf {c} (was_written text others is_open ec h) v =
      step-Deaf begun tasks c _ _ refl (on_write-Mute c.session is_open ec) v
  Move-Deaf {c} (pinged k ec h e) v =
      step-Deaf begun tasks c _ _ refl (on_ping-Mute c.session ec e) v
  Move-Deaf {c} (waited k is_open now ec h) v =
      step-Deaf begun tasks c _ _ refl (on_timer-Mute c.session is_open now ec) v
  Move-Deaf {c} (controlled now) v = step-Deaf begun tasks c _ _ refl (control-Mute c.session now) v
  Move-Deaf {c} (sends is_open text) v =
      let next = step-Deaf begun tasks c c.pending _ refl (send-Mute c.session is_open text) v in
      record { running = next.running; reading = next.reading; log = next.log; queue = next.queue }
  Move-Deaf {c} (takes t rest h) v = record {
    running = v.running;
    reading = v.reading;
    log = v.log;
    queue = (
      v.queue.0 ++ t ∷ [],
      v.queue.1 ∙ ap (λ q. v.queue.0 ++ q) h ∙ sym (append_assoc v.queue.0 (t ∷ []) rest),
    );
  }
  Move-Deaf (runs is_open now h) v = absurd cc
  Move-Deaf {c} cleared v = record {
    running = v.running;
    reading = v.reading;
    log = v.log;
    queue = (
      tasks,
      sym (append-nil tasks)
          ∙ ap (λ q. tasks ++ q) (sym (pop_all-nil c.session.received_messages.callbacks_queue)),
    );
  }

  Moves-Deaf : {c d : Conn} → Moves callbacks c d → Deaf begun tasks c → Deaf begun tasks d
  Moves-Deaf here v = v
  Moves-Deaf (next r m) v = Move-Deaf m (Moves-Deaf r v)

-- When a read of a session that can be reached has completed without a byte, as for an empty message,
-- no read is ever started again in it, and no handshake, whatever happens. It gets no task either: the
-- tasks that it has at any later time are the last of those that it had.
pub empty_message_deafens :
    (callbacks : Callbacks Callback) {c d : Conn} (k : ℕ) (is_open : Bool) (ec : ErrorCode)
    → Reach callbacks c
    → c.pending.reads ≡ suc k
    → Moves callbacks
        (after c
          (record c.pending { reads = k })
          (on_read is_open callbacks ec (take_read c.session [])))
        d
    → (d.pending.accepts + d.pending.reads ≡ 0)
      × (reads_of d.log ≡ reads_of c.log)
      × ((gone : List Task) × (c.session.received_messages.callbacks_queue
            ≡ gone ++ d.session.received_messages.callbacks_queue))
empty_message_deafens callbacks {c} k is_open ec r h moves =
    let c' : Conn = record c { pending = record c.pending { reads = k } } in
    let one = Reach-Single callbacks r in
    let mute =
      empty-Mute callbacks is_open ec (take_read c.session [])
        (ap (λ x. x ++ []) (read_buffer_empty callbacks k r h)) in
    let begun : ℕ = reads_of c.log in
    let tasks : List Task = c.session.received_messages.callbacks_queue in
    let quiet : Deaf begun tasks c' = record {
      running = reading-running c.running (omega (arith, one.reading, h));
      reading = omega (arith, one.reading, h);
      log = refl;
      queue = ([], refl);
    } in
    let v = Moves-Deaf callbacks begun tasks moves (
      step-Deaf begun tasks c' c'.pending _ refl
        (record {
          calls = mute.calls;
          received = (mute.received.0, mute.received.1 ∙ append-nil c.session.recieved_buffer);
        })
        quiet) in
    (v.reading, v.log, v.queue)
