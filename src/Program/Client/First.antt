-- ===== src/Program/Client/First.antt =====
-- The first messages of client/main.cpp: what `runAsClient` and the `send` behind it ask for.
use boost_server_example.Base.{
  ℕ, ◌^◌, ◌<◌, ◌≡◌, refl, ap, subst, map, ◌∙◌, Bool, true, false, [], ◌∷◌, ◌++◌, none, some, Bytes,
  length, get_elem?, ◌==◌, if◌then◌else◌, arith, append_assoc,
}
use boost_server_example.Base.Result.{Result, ok, ◌>>=◌}
use boost_server_example.Opcode.{csv_analize, opcode_to_str, c_str}
use boost_server_example.Opcode.Laws.{NoNul}
use boost_server_example.Program.{Around}
use boost_server_example.Program.Client.{Connecting, start_sending}
use boost_server_example.Program.Exchange.{asks}
use boost_server_example.Program.Idle.{IsIdle, writing}
use boost_server_example.WsListener.{NetworkManager}
use boost_server_example.WsServer.{WsServer, run_handler}
use boost_server_example.WsServer.Calls.{outward, run_handler-acts, run_handler-found}
use boost_server_example.WsServer.System.{Handled, runs, sends, Reach, later, handles}
use boost_server_example.WsCallbacks.{Dates}
use boost_server_example.WsSession.{
  WsSession, Step, set_control_callback, start_wait, start_read, start_write, expires_after,
  run_as_client, send_shared,
}

-- The session of a client that runs.
abbrev pub client_running : ℕ → WsSession → WsSession
client_running now s = record (expires_after now s) { is_fully_created = true }

run_as_client-fresh :
    (is_open : Bool) (now : ℕ) (s : WsSession)
    → s.timer_expiry ≡ none
    → run_as_client is_open now s
      ≡ (client_running now s, set_control_callback ∷ start_wait ∷ start_read ∷ [])
unfolding run_as_client
run_as_client-fresh is_open now s fresh = ground (arith, fresh)

overwrite {ℓ} :
    {A : Type ℓ} (here : Bool) (new old was : A) {other : A}
    → other ≡ (if here then old else was)
    → (if here then new else other) ≡ (if here then new else was)
overwrite true new old was e = refl
overwrite false new old was e = e

client_running-IsIdle : (now : ℕ) (s : WsSession) → IsIdle s → IsIdle (client_running now s)
client_running-IsIdle now s idle = record {
  unread = idle.unread;
  sent_all = idle.sent_all;
  not_busy = idle.not_busy;
  no_task = idle.no_task;
  on = idle.on;
}

-- A handler that unregisters no session runs, and where that can happen to the server, the server
-- stays in a state that can be reached.
abbrev Acts :
    {Time : Type 0} → Dates Time → (WsSession → Result Step) → ℕ → WsServer → Step → Type 0
Acts dates handler p server step =
    (after : WsServer) × (run_handler handler p server ≡ ok after)
    × (after.calls ≡ server.calls ++ map (λ c. (p, c)) step.1)
    × (get_elem? after.store p ≡ some step.0)
    × ((j : ℕ)
        → get_elem? after.store j ≡ (if j == p then some step.0 else get_elem? server.store j))
    × (Reach dates server → Reach dates after)

acts :
    {Time : Type 0} (dates : Dates Time) (handler : WsSession → Result Step) (p : ℕ)
    (server : WsServer) (s : WsSession) (step : Step)
    → get_elem? server.store p ≡ some s
    → handler s ≡ ok step
    → outward step.1 ≡ true
    → Handled server s step
    → Acts dates handler p server step
acts dates handler p server s step e h quiet can =
    let (after, run, kept, made, change) = run_handler-acts handler p server s step e h quiet in
    let there : (p == p) ≡ true = ground arith in
    (
      after,
      run,
      made,
      change p ∙ rw there refl,
      change,
      λ r. later r (handles p s step e can (run_handler-found handler p server s step e h ∙ run)),
    )

module _ {Time : Type 0} (around : Around Time) (meeting : Connecting) where
  open around use {dates}
  open meeting use {open_now, now}

  -- On an open session that is idle and whose timer was never set, the client installs the control
  -- callback, starts the timer and the read, and writes the byte of the operation and the text, which
  -- has less than 2^30 bytes and no zero byte, in this order. Nothing changes in other sessions, and
  -- a server in a state that can be reached stays in one.
  pub start_sending_lem :
      (contents : Bytes) (p : ℕ) (nm : NetworkManager) (s : WsSession)
      → get_elem? nm.ws_server.store p ≡ some s
      → IsIdle s
      → s.timer_expiry ≡ none
      → open_now p ≡ true
      → NoNul contents
      → length contents < 2 ^ 30
      → let message = b'1' ∷ contents in
        (after : NetworkManager) × (start_sending around meeting contents p nm ≡ ok after)
        × (after.ws_server.calls
            ≡ nm.ws_server.calls
              ++ (p, set_control_callback)
                ∷ (p, start_wait)
                ∷ (p, start_read)
                ∷ (p, start_write message)
                ∷ [])
        × ((j : ℕ)
            → get_elem? after.ws_server.store j ≡ (
                if j == p
                then some (writing message (client_running now s))
                else get_elem? nm.ws_server.store j))
        × (Reach dates nm.ws_server → Reach dates after.ws_server)
  unfolding start_sending
  start_sending_lem contents p nm s e idle fresh opened clean small =
      let message = b'1' ∷ contents in
      let u : WsSession = client_running now s in
      let first : Step = (u, set_control_callback ∷ start_wait ∷ start_read ∷ []) in
      let second : Step = (writing message u, start_write message ∷ []) in
      let fresh_run = run_as_client-fresh (open_now p) now s fresh in
      let asked =
        ap (λ b. send_shared b u (opcode_to_str csv_analize ++ contents)) opened
        ∙ asks u contents (client_running-IsIdle now s idle) clean small in
      let (mid, run1, made1, found, change1, reach1) =
        acts dates (λ s. ok (run_as_client (open_now p) now s)) p nm.ws_server s first e
          (ap ok fresh_run) refl
          (subst (Handled nm.ws_server s) fresh_run (runs (open_now p) now)) in
      let (end, run2, made2, found2, change2, reach2) =
        acts dates (λ s. ok (send_shared (open_now p) s (opcode_to_str csv_analize ++ contents))) p
          mid u second found (ap ok asked) refl
          (subst (Handled mid u) asked (
            unfold send_shared in
            sends (open_now p) (c_str (opcode_to_str csv_analize ++ contents)))) in
      (
        record nm { ws_server = end },
        ap (λ m. m >>= λ server. ok (record nm { ws_server = server }))
            (ap
                (λ m. m >>= λ server.
                  run_handler
                    (λ s. ok (send_shared (open_now p) s (opcode_to_str csv_analize ++ contents))) p
                    server)
                run1
              ∙ run2),
        made2
            ∙ ap (λ xs. xs ++ (p, start_write message) ∷ []) made1
            ∙ append_assoc nm.ws_server.calls (map (λ c. (p, c)) first.1)
                ((p, start_write message) ∷ []),
        λ j.
            change2 j
            ∙ overwrite (j == p) (some second.0) (some first.0) (get_elem? nm.ws_server.store j)
                (change1 j),
        λ r. reach2 (reach1 r),
      )
