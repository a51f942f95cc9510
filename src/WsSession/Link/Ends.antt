-- ===== src/WsSession/Link/Ends.antt =====
-- What the two ends of a connection keep: the near one what it has written, the far one that it reads
-- no more.
use boost_server_example.Base.{
  ℕ, suc, ◌+◌, ◌^◌, ◌≤◌, ◌≡◌, inl, inr, refl, sym, ap, subst, ◌∙◌, true, false, List, [], ◌∷◌, ◌++◌,
  Bytes, length, length-append, append_assoc, append-nil, arith,
}
use boost_server_example.Callbacks.{Callbacks}
use boost_server_example.WsSession.{Callback, Task, Call, ErrorCode, new_session, connect_as_client}
use boost_server_example.WsSession.Bounds.{All, Fits, All-front, sizes_bounded}
use boost_server_example.WsSession.Conn.{
  Conn, Move, Start, as_server, as_client, take_read, writes_of, writes_of-append, resolved,
  connected, shaken, accepted, was_read, was_written, pinged, waited, controlled, sends, takes,
  runs, cleared,
}
use boost_server_example.WsSession.Deaf.{Move-Deaf}
use boost_server_example.WsSession.Incoming.{on_read}
use boost_server_example.WsSession.Link.{
  Link, IsCut, Step, near_moves, delivers, read_fails, dispatches, far_moves, Linked, opened,
  goes_on, ends, has_read,
}
use boost_server_example.WsSession.Mute.{reads_of, reads_of-begin_calls}
use boost_server_example.WsSession.Reads.{Reach-Single, reading-running}
use boost_server_example.WsSession.Received.{run_as_server-Received}
use boost_server_example.WsSession.Link.Reading.{failed-reads}

module _ (callbacks : Callbacks Callback) where
  -- A step adds to the log of calls.
  Move-log : {c d : Conn} → Move callbacks c d → (more : List Call) × (d.log ≡ c.log ++ more)
  Move-log (resolved k ec e) = (_, refl)
  Move-log (connected k ec e) = (_, refl)
  Move-log (shaken k ec e) = (_, refl)
  Move-log (accepted k ec e) = (_, refl)
  Move-log (was_read k is_open ec got e fits) = (_, refl)
  Move-log (was_written text others is_open ec e) = (_, refl)
  Move-log (pinged k ec e ok_r) = (_, refl)
  Move-log (waited k is_open now ec e) = (_, refl)
  Move-log (controlled now) = (_, refl)
  Move-log (sends is_open text) = (_, refl)
  Move-log {c} (takes t rest e) = ([], sym (append-nil c.log))
  Move-log (runs is_open now e) = (_, refl)
  Move-log {c} cleared = ([], sym (append-nil c.log))

  -- The tasks of the far end: those begun, and those that wait.
  abbrev pub tasks : Link → List Task
  tasks l = l.begun ++ l.far.session.received_messages.callbacks_queue

  -- No read is under way, nor will be.
  abbrev pub Ended : Conn → Type 0
  Ended c = (c.running ≡ true) × (c.pending.accepts + c.pending.reads ≡ 0)

  pub Move-Ended : {c d : Conn} → Move callbacks c d → Ended c → Ended d
  Move-Ended {c} m (running, reading) =
      let v =
        Move-Deaf callbacks (reads_of c.log) c.session.received_messages.callbacks_queue m
          (record { running = running; reading = reading; log = refl; queue = ([], refl) }) in
      (v.running, v.reading)

  pub Start-tasks :
      {c : Conn} → Start callbacks c → c.session.received_messages.callbacks_queue ≡ []
  unfolding new_session connect_as_client
  Start-tasks (as_server name id is_open now e) =
      let r = run_as_server-Received is_open now (new_session name id) in
      rw e (ap (λ q. q.callbacks_queue) r.0)
  Start-tasks (as_client name id host port e) = rw e refl

  -- What was delivered was written.
  unfoldable pub Written : Link → Type 0
  Written l = (under_way : List Bytes) × (writes_of l.near.log ≡ l.delivered ++ under_way)

  Step-Written : {l m : Link} → Step callbacks l m → Written l → Written m
  unfolding Written
  Step-Written {l} (near_moves m) (under_way, e) =
      let (more, f) = Move-log m in
      (
        under_way ++ writes_of more,
        ap writes_of f
            ∙ writes_of-append l.near.log more
            ∙ ap (λ xs. xs ++ writes_of more) e
            ∙ append_assoc l.delivered under_way (writes_of more),
      )
  Step-Written {l} (delivers k is_open text rest e f fits) w =
      (rest, f ∙ sym (append_assoc l.delivered (text ∷ []) rest))
  Step-Written (read_fails k ec part e ne front) w = w
  Step-Written (dispatches t rest e) w = w
  Step-Written (far_moves m a) w = w

  pub Linked-Written : {l : Link} → Linked callbacks l → Written l
  unfolding Written
  Linked-Written (opened near far a b) = (writes_of near.log, refl)
  Linked-Written (goes_on w step) = Step-Written step (Linked-Written w)

  pub near-IsCut :
      (l : Link) (part : Bytes) {near : Conn}
      → Move callbacks l.near near
      → IsCut l part
      → IsCut (record l { near = near }) part
  near-IsCut l part m (inl empty) = inl empty
  near-IsCut l part m (inr (missing, rest, e)) =
      let (more, f) = Move-log m in
      inr (
        missing,
        rest ++ writes_of more,
        ap writes_of f
            ∙ writes_of-append l.near.log more
            ∙ ap (λ xs. xs ++ writes_of more) e
            ∙ append_assoc l.delivered ((part ++ missing) ∷ rest) (writes_of more),
      )

  -- What is written fits.
  pub written-Fits :
      {l : Link} (text : Bytes) (rest : List Bytes)
      → Linked callbacks l
      → writes_of l.near.log ≡ l.delivered ++ text ∷ rest
      → Fits text
  written-Fits {l} text rest w f =
      let (queued, sent, tasks) = sizes_bounded callbacks (ends callbacks w).0 in
      ((All-front Fits l.delivered (text ∷ rest) (subst (All Fits) f sent)).1).0

  pub cut-small :
      {l : Link} (part : Bytes) → Linked callbacks l → IsCut l part → length part ≤ 2 ^ 30
  cut-small part w (inl empty) = omega (arith, ap length empty)
  cut-small part w (inr (missing, rest, e)) =
      omega (arith, (written-Fits (part ++ missing) rest w e).1, length-append part missing)

  -- The end of a read that fails.
  pub failed-Ended :
      {l : Link} (k : ℕ) (ec : ErrorCode) (part : Bytes)
      → Linked callbacks l
      → l.far.pending.reads ≡ suc k
      → Ended (has_read callbacks l.far k false ec part)
  failed-Ended {l} k ec part w h =
      let one = Reach-Single callbacks (ends callbacks w).1 in
      let r = on_read false callbacks ec (take_read l.far.session part) in
      let none_started = failed-reads callbacks ec (take_read l.far.session part) in
      (
        reading-running l.far.running (omega (arith, one.reading, h)),
        omega (
          arith,
          reads_of-begin_calls r.1 (record l.far.pending { reads = k }),
          one.reading,
          h,
          none_started,
        ),
      )
