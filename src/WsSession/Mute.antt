-- ===== src/WsSession/Mute.antt =====
-- The handlers of net/websockets/WsSession.cpp that start no read.
use boost_server_example.Base.{ℕ, suc, ◌+◌, ◌≡◌, refl, Bool, List, [], ◌∷◌, ◌++◌, Bytes, arith}
use boost_server_example.Base.Result.{ok}
use boost_server_example.Callbacks.{Callbacks}
use boost_server_example.WsSession.{
  Callback, ErrorCode, WsSession, Step, Call, start_accept, start_read, on_resolve, on_connect,
  on_handshake, on_ping, on_timer, on_write, on_control_callback, send,
}
use boost_server_example.WsSession.Incoming.{on_read}
use boost_server_example.WsSession.Received.{
  Received, on_resolve-Received, on_connect-Received, on_handshake-Received, on_write-Received,
  on_ping-Received, on_timer-Received, send-Received,
}
use boost_server_example.WsSession.Conn.{Pending, begin_call, begin_calls}

-- The reads that are started among some calls, and the handshakes, each of which leads to a read.
abbrev pub reads_of : List Call → ℕ
reads_of [] = 0
reads_of (start_read ∷ cs) = suc (reads_of cs)
reads_of (start_accept ∷ cs) = suc (reads_of cs)
reads_of (_ ∷ cs) = reads_of cs

pub reads_of-append : (xs ys : List Call) → reads_of (xs ++ ys) ≡ reads_of xs + reads_of ys
reads_of-append [] ys = omega arith
reads_of-append (start_read ∷ xs) ys = omega (arith, reads_of-append xs ys)
reads_of-append (start_accept ∷ xs) ys = omega (arith, reads_of-append xs ys)
reads_of-append (x ∷ xs) ys = reads_of-append xs ys

pub reads_of-begin_calls :
    (cs : List Call) (p : Pending)
    → (begin_calls cs p).accepts + (begin_calls cs p).reads ≡ p.accepts + p.reads + reads_of cs
reads_of-begin_calls [] p = omega arith
reads_of-begin_calls (c ∷ cs) p = omega (arith, reads_of-begin_calls cs (begin_call c p), begun c)
  where
    begun :
        (c : Call)
        → (begin_call c p).accepts + (begin_call c p).reads + reads_of cs
          ≡ p.accepts + p.reads + reads_of (c ∷ cs)
    begun start_read = omega arith
    begun start_accept = omega arith
    begun _ = refl

-- What a handler does that starts no read and makes no task.
pub record Mute (s : WsSession) (r : Step) : Type 0 where
  pub calls : reads_of r.1 ≡ 0
  pub received : Received s r

module _ (s : WsSession) where
  pub on_resolve-Mute : (ec : ErrorCode) → Mute s (on_resolve ec s)
  unfolding on_resolve
  on_resolve-Mute ec = record { calls = ground arith; received = on_resolve-Received ec s }

  pub on_connect-Mute : (ec : ErrorCode) → Mute s (on_connect ec s)
  unfolding on_connect
  on_connect-Mute ec = record { calls = ground arith; received = on_connect-Received ec s }

  pub on_handshake-Mute : (ec : ErrorCode) → Mute s (on_handshake ec s)
  unfolding on_handshake
  on_handshake-Mute ec = record { calls = ground arith; received = on_handshake-Received ec s }

  pub on_write-Mute : (is_open : Bool) (ec : ErrorCode) → Mute s (on_write is_open ec s)
  unfolding on_write
  on_write-Mute is_open ec = record {
    calls = ground arith;
    received = on_write-Received is_open ec s;
  }

  pub on_ping-Mute : (ec : ErrorCode) {r : Step} → on_ping ec s ≡ ok r → Mute s r
  unfolding on_ping
  on_ping-Mute ec e = record { calls = ground arith; received = on_ping-Received ec s e }

  pub on_timer-Mute :
      (is_open : Bool) (now : ℕ) (ec : ErrorCode) → Mute s (on_timer is_open now ec s)
  unfolding on_timer
  on_timer-Mute is_open now ec = record {
    calls = ground arith;
    received = on_timer-Received is_open now ec s;
  }

  pub control-Mute : (now : ℕ) → Mute s (on_control_callback now s)
  unfolding on_control_callback
  control-Mute now = record { calls = refl; received = (refl, refl) }

  pub send-Mute : (is_open : Bool) (text : Bytes) → Mute s (send is_open s text)
  unfolding send
  send-Mute is_open text = record { calls = ground arith; received = send-Received is_open s text }

-- `on_read` of an empty buffer, whatever the error.
pub empty-Mute :
    (callbacks : Callbacks Callback) (is_open : Bool) (ec : ErrorCode) (s : WsSession)
    → s.recieved_buffer ≡ []
    → Mute s (on_read is_open callbacks ec s)
unfolding on_read
empty-Mute callbacks is_open ec s h = record { calls = ground arith; received = ground arith }
