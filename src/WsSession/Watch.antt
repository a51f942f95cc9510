-- ===== src/WsSession/Watch.antt =====
-- The timer of net/websockets/WsSession.cpp, once a ping is under way, in every handler.
use boost_server_example.Base.{
  ℕ, suc, ◌+◌, ◌≡◌, ◌⊎◌, inl, inr, refl, sym, subst, ◌∙◌, Bool, true, false, ◌||◌, if◌then◌else◌,
  List, [], ◌∷◌, ◌++◌, Bytes, some, leb, arith,
}
use boost_server_example.Base.Result.{ok}
use boost_server_example.Callbacks.{Callbacks}
use boost_server_example.WsSession.{
  Callback, ErrorCode, WsSession, Step, Call, success, is_alive, start_wait, shutdown_socket,
  close_socket, unregister_session, on_resolve, on_connect, on_handshake, on_accept, on_ping,
  on_timer, on_write, send,
}
use boost_server_example.WsSession.Incoming.{on_read}
use boost_server_example.WsSession.Conn.{Conn, Pending, take_read, after, begin_call, begin_calls}

abbrev waits_of : List Call → ℕ
waits_of [] = 0
waits_of (start_wait ∷ cs) = suc (waits_of cs)
waits_of (_ ∷ cs) = waits_of cs

-- Whether the socket has been shut down.
abbrev pub shuts : List Call → Bool
shuts [] = false
shuts (shutdown_socket ∷ cs) = true
shuts (_ ∷ cs) = shuts cs

shuts-append : (xs ys : List Call) → shuts (xs ++ ys) ≡ (shuts xs || shuts ys)
shuts-append [] ys = refl
shuts-append (shutdown_socket ∷ xs) ys = refl
shuts-append (x ∷ xs) ys = shuts-append xs ys

waits-begin_calls :
    (cs : List Call) (p : Pending) → (begin_calls cs p).waits ≡ p.waits + waits_of cs
waits-begin_calls [] p = omega arith
waits-begin_calls (c ∷ cs) p = omega (arith, waits-begin_calls cs (begin_call c p), begun c)
  where
    begun : (c : Call) → (begin_call c p).waits + waits_of cs ≡ p.waits + waits_of (c ∷ cs)
    begun start_wait = omega arith
    begun _ = refl

-- A handler other than the timer's and that of control frames.
pub record Untimed (s : WsSession) (r : Step) : Type 0 where
  pub expiry : r.0.timer_expiry ≡ s.timer_expiry
  pub silent : is_alive s.ping_state ≡ false → is_alive r.0.ping_state ≡ false
  pub calls : waits_of r.1 ≡ 0

-- The timer is set to `deadline`, and watched until the socket is shut down.
pub record Watched (deadline : ℕ) (c : Conn) : Type 0 where
  pub running : c.running ≡ true
  pub expiry : c.session.timer_expiry ≡ some deadline
  pub silent : is_alive c.session.ping_state ≡ false
  pub watching : (c.pending.waits ≡ 1) ⊎ (shuts c.log ≡ true)

module _ (s : WsSession) where
  pub on_resolve-Untimed : (ec : ErrorCode) → Untimed s (on_resolve ec s)
  unfolding on_resolve
  on_resolve-Untimed success = ground arith
  on_resolve-Untimed _ = ground arith

  pub on_connect-Untimed : (ec : ErrorCode) → Untimed s (on_connect ec s)
  unfolding on_connect
  on_connect-Untimed success = ground arith
  on_connect-Untimed _ = ground arith

  pub on_handshake-Untimed : (ec : ErrorCode) → Untimed s (on_handshake ec s)
  unfolding on_handshake
  on_handshake-Untimed success = ground arith
  on_handshake-Untimed _ = ground arith

  pub on_accept-Untimed : (ec : ErrorCode) → Untimed s (on_accept ec s)
  unfolding on_accept
  on_accept-Untimed success = ground arith
  on_accept-Untimed _ = ground arith

  pub on_read-Untimed :
      (callbacks : Callbacks Callback) (is_open : Bool) (ec : ErrorCode) (got : Bytes)
      → Untimed s (on_read is_open callbacks ec (take_read s got))
  unfolding on_read
  on_read-Untimed callbacks is_open success got = ground arith
  on_read-Untimed callbacks is_open _ got = ground arith

  pub on_write-Untimed : (is_open : Bool) (ec : ErrorCode) → Untimed s (on_write is_open ec s)
  unfolding on_write
  on_write-Untimed is_open success = ground arith
  on_write-Untimed is_open _ = ground arith

  pub on_ping-Untimed : (ec : ErrorCode) {r : Step} → on_ping ec s ≡ ok r → Untimed s r
  unfolding on_ping
  on_ping-Untimed success e = ground arith
  on_ping-Untimed _ e = ground arith

  pub send-Untimed : (is_open : Bool) (text : Bytes) → Untimed s (send is_open s text)
  unfolding send
  send-Untimed is_open text = ground arith

module _ (deadline : ℕ) where
  pub step-Watched :
      (c : Conn) (p : Pending) (r : Step)
      → p.waits ≡ c.pending.waits
      → Untimed c.session r
      → Watched deadline c
      → Watched deadline (after c p r)
  step-Watched c p r e u v = record {
    running = v.running;
    expiry = u.expiry ∙ v.expiry;
    silent = u.silent v.silent;
    watching = go v.watching;
  }
    where
      go :
          (c.pending.waits ≡ 1) ⊎ (shuts c.log ≡ true)
          → ((begin_calls r.1 p).waits ≡ 1) ⊎ (shuts (c.log ++ r.1) ≡ true)
      go (inl h) = inl (omega (arith, waits-begin_calls r.1 p, e, u.calls, h))
      go (inr h) = inr (ground (arith, shuts-append c.log r.1, h))

  -- What the timer does while the peer is silent.
  abbrev pub timer_silent : ℕ → WsSession → Step
  timer_silent now s =
      if leb deadline now
      then (s, shutdown_socket ∷ close_socket ∷ unregister_session s.id ∷ [])
      else (s, start_wait ∷ [])

  pub timer-silent :
      (s : WsSession) (is_open : Bool) (now : ℕ)
      → s.timer_expiry ≡ some deadline
      → is_alive s.ping_state ≡ false
      → on_timer is_open now success s ≡ timer_silent now s
  unfolding on_timer
  timer-silent s is_open now h a = rw (h, a) (ground arith)

  pub timer-Watched :
      (c : Conn) (k : ℕ) (is_open : Bool) (now : ℕ)
      → c.pending.waits ≡ suc k
      → Watched deadline c
      → Watched deadline
          (after c (record c.pending { waits = k }) (on_timer is_open now success c.session))
  timer-Watched c k is_open now h v =
      subst (λ r. Watched deadline (after c (record c.pending { waits = k }) r))
        (sym (timer-silent c.session is_open now v.expiry v.silent)) (go (leb deadline now) refl)
    where
      still :
          (c.pending.waits ≡ 1) ⊎ (shuts c.log ≡ true)
          → (k + 1 ≡ 1) ⊎ (shuts (c.log ++ start_wait ∷ []) ≡ true)
      still (inl one) = inl (omega (arith, h, one))
      still (inr shut) = inr (ground (arith, shuts-append c.log (start_wait ∷ []), shut))

      go :
          (late : Bool)
          → leb deadline now ≡ late
          → Watched deadline (after c (record c.pending { waits = k }) (timer_silent now c.session))
      go true e = rw e (record {
        running = v.running;
        expiry = v.expiry;
        silent = v.silent;
        watching = inr (ground (arith, shuts-append c.log (timer_silent now c.session).1, e));
      })
      go false e = rw e (record {
        running = v.running;
        expiry = v.expiry;
        silent = v.silent;
        watching = still v.watching;
      })
