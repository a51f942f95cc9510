-- ===== src/WsCallbacks/Pings.antt =====
-- Several pings on one session of net/websockets/WsServer.cpp.
use boost_server_example.Base.{
  ℕ, ◌<◌, ◌≡◌, refl, sym, ap, ◌∙◌, true, false, List, [], ◌∷◌, ◌++◌, map, Bytes, length,
  append_assoc, append-nil, arith,
}
use boost_server_example.Base.Result.{ok, ◌>>=◌}
use boost_server_example.DispatchQueue.{DispatchQueue}
use boost_server_example.DispatchQueue.Drain.{call_all, dispatch_queued-call_all}
use boost_server_example.WsCallbacks.{
  Dates, task_runner, dispatch_session, run_callback, ping_message,
}
use boost_server_example.WsCallbacks.Laws.{task_runner-IsLawful}
use boost_server_example.WsSession.{WsSession, Step, Call, Task, send_shared, start_write}
use boost_server_example.WsCallbacks.Echo.{
  ArePings, come_in, complete, ping_task, with_tasks, come_in-tasks, send-busy, send-free,
  IsPing-sendable, length-tasks, complete-written, send_shared-ping,
}

module _ {Time : Type 0} (dates : Dates Time) (fuel : ℕ) where
  abbrev emptied : DispatchQueue Task → DispatchQueue Task
  emptied q = record q { callbacks_queue = [] }

  call-ping :
      (text : Bytes) (s : WsSession) (calls : List Call) (q : DispatchQueue Task)
      → (task_runner dates fuel true).call
          (ping_task text)
          ((task_runner dates fuel true).with_queue (s, calls) q)
        ≡ (let r = send_shared true (record s { received_messages = q }) text in
            ok (r.0, calls ++ r.1))
  unfolding task_runner run_callback ping_message
  call-ping text s calls q = refl

  call_all-busy :
      (q : DispatchQueue Task) (texts : List Bytes) (s : WsSession) (calls : List Call)
      → ArePings texts
      → s.is_send_busy ≡ true
      → s.received_messages ≡ record q { callbacks_queue = map ping_task texts }
      → call_all (task_runner dates fuel true) q (map ping_task texts) (s, calls)
        ≡ ok (record s { send_queue = s.send_queue ++ texts; received_messages = emptied q }, calls)
  call_all-busy q [] s calls ps busy e =
      ap (λ xs. ok (record s { send_queue = xs }, calls)) (sym (append-nil s.send_queue))
      ∙ ap (λ r. ok (record s { send_queue = s.send_queue ++ []; received_messages = r }, calls)) e
  call_all-busy q (text ∷ texts) s calls (p, ps) busy e =
      let rest = record q { callbacks_queue = map ping_task texts } in
      let before : WsSession = record s { received_messages = rest } in
      let sent =
        send_shared-ping true before text p ∙ send-busy before text (IsPing-sendable text p) busy in
      ap (λ m. m >>= λ t. call_all (task_runner dates fuel true) q (map ping_task texts) t)
        (call-ping text s calls rest)
      ∙ ap
          (λ (r : Step).
            call_all (task_runner dates fuel true) q (map ping_task texts) (r.0, calls ++ r.1))
          sent
      ∙ ap
          (λ cs.
            call_all (task_runner dates fuel true) q (map ping_task texts)
              (record before { send_queue = s.send_queue ++ text ∷ [] }, cs))
          (append-nil calls)
      ∙ call_all-busy q texts (record before { send_queue = s.send_queue ++ text ∷ [] }) calls ps
          busy refl
      ∙ ap (λ xs. ok (record s { send_queue = xs; received_messages = emptied q }, calls))
          (append_assoc s.send_queue (text ∷ []) texts)

  dispatch-all :
      (rounds : ℕ) (s : WsSession)
      → s.received_messages.quit ≡ false
      → length s.received_messages.callbacks_queue < rounds
      → dispatch_session dates rounds fuel true s
        ≡ call_all
            (task_runner dates fuel true)
            s.received_messages
            s.received_messages.callbacks_queue
            (s, [])
  unfolding dispatch_session task_runner
  dispatch-all rounds s on enough =
      (dispatch_queued-call_all (task_runner dates fuel true) (task_runner-IsLawful dates fuel true)
          rounds (s, []) enough).0
        on

  -- The first ping is written, the others wait.
  call_all-free :
      (s : WsSession) (text : Bytes) (texts : List Bytes)
      → ArePings (text ∷ texts)
      → s.send_queue ≡ []
      → s.is_send_busy ≡ false
      → let q = (with_tasks s (map ping_task (text ∷ texts))).received_messages in
        call_all
          (task_runner dates fuel true)
          q
          (map ping_task (text ∷ texts))
          (with_tasks s (map ping_task (text ∷ texts)), [])
        ≡ ok (
          record (with_tasks s []) { send_queue = text ∷ texts; is_send_busy = true },
          start_write text ∷ [],
        )
  call_all-free s text texts (p, ps) empty free =
      let q = (with_tasks s (map ping_task (text ∷ texts))).received_messages in
      let before : WsSession = with_tasks s (map ping_task texts) in
      let begun : WsSession = record before { send_queue = text ∷ []; is_send_busy = true } in
      let sent =
        send_shared-ping true before text p
        ∙ send-free before text (IsPing-sendable text p) empty free in
      ap (λ m. m >>= λ t. call_all (task_runner dates fuel true) q (map ping_task texts) t)
        (call-ping text (with_tasks s (map ping_task (text ∷ texts))) []
          (record q { callbacks_queue = map ping_task texts }))
      ∙ ap (λ (r : Step). call_all (task_runner dates fuel true) q (map ping_task texts) (r.0, r.1))
          sent
      ∙ call_all-busy q texts begun (start_write text ∷ []) ps refl refl

  settled :
      (s : WsSession)
      → s.received_messages.callbacks_queue ≡ []
      → s.send_queue ≡ []
      → s.is_send_busy ≡ false
      → record (with_tasks s []) { send_queue = []; is_send_busy = false } ≡ s
  settled s done empty free =
      ap (λ xs. record (with_tasks s []) { send_queue = xs; is_send_busy = false }) (sym empty)
      ∙ ap (λ b. record (with_tasks s []) { is_send_busy = b }) (sym free)
      ∙ ap (with_tasks s) (sym done)

  -- Pings are sent back in order: on a session whose socket is open and that has nothing to send and
  -- no other message waiting, let `handleIncomingData` take messages one after another, each the
  -- ping's byte and then between 1 and 2^30 - 1 bytes, none of them zero. The next dispatch, if it
  -- has a round for each and one more, puts them into the send queue, unchanged and in order, and
  -- starts the write of the first. When as many writes have completed as there are messages, the
  -- writes started are those of the messages, in order, each once, and the session is as it was.
  pub pings_in_order :
      (rounds : ℕ) (s : WsSession) (texts : List Bytes)
      → s.received_messages.callbacks_queue ≡ []
      → s.received_messages.quit ≡ false
      → s.send_queue ≡ []
      → s.is_send_busy ≡ false
      → ArePings texts
      → length texts < rounds
      → (after : Step) × (dispatch_session dates rounds fuel true (come_in s texts) ≡ ok after)
        × (after.0.send_queue ≡ texts)
        × (complete (length texts) after ≡ (s, map start_write texts))
  pings_in_order rounds s texts done on empty free ps enough =
      let tasks = map ping_task texts in
      let came : come_in s texts ≡ with_tasks s tasks =
        come_in-tasks s texts ps ∙ ap (λ xs. with_tasks s (xs ++ tasks)) done in
      let dispatched =
        ap (dispatch_session dates rounds fuel true) came
        ∙ dispatch-all rounds (with_tasks s tasks) on (omega (arith, length-tasks texts)) in
      let (after, all, queue, ends) = answered texts ps in (after, dispatched ∙ all, queue, ends)
    where
      answered :
          (texts : List Bytes)
          → ArePings texts
          → (after : Step) × (call_all
                (task_runner dates fuel true)
                (with_tasks s (map ping_task texts)).received_messages
                (map ping_task texts)
                (with_tasks s (map ping_task texts), [])
              ≡ ok after)
            × (after.0.send_queue ≡ texts)
            × (complete (length texts) after ≡ (s, map start_write texts))
      answered [] ps =
          ((with_tasks s [], []), refl, empty, ap (λ t. (t, [])) (ap (with_tasks s) (sym done)))
      answered (text ∷ texts) ps = (
        (
          record (with_tasks s []) { send_queue = text ∷ texts; is_send_busy = true },
          start_write text ∷ [],
        ),
        call_all-free s text texts ps empty free,
        refl,
        complete-written (with_tasks s []) (start_write text ∷ []) text texts
            ∙ ap (λ t. (t, start_write text ∷ map start_write texts)) (settled s done empty free),
      )
