-- ===== src/WsSession/Received.antt =====
-- The handlers of net/websockets/WsSession.cpp that have nothing to do with what was received.
use boost_server_example.Base.{ℕ, ◌≡◌, Bool, Bytes, arith}
use boost_server_example.Base.Result.{ok}
use boost_server_example.WsSession.{
  WsSession, Step, ErrorCode, on_resolve, on_connect, on_handshake, on_accept, on_ping, on_timer,
  on_write, send, run_as_client, run_as_server,
}

-- A handler that leaves the queue of tasks and the bytes read alone.
abbrev pub Received : WsSession → Step → Type 0
Received s r =
    (r.0.received_messages ≡ s.received_messages) × (r.0.recieved_buffer ≡ s.recieved_buffer)

pub on_resolve-Received : (ec : ErrorCode) (s : WsSession) → Received s (on_resolve ec s)
unfolding on_resolve
on_resolve-Received ec s = ground arith

pub on_connect-Received : (ec : ErrorCode) (s : WsSession) → Received s (on_connect ec s)
unfolding on_connect
on_connect-Received ec s = ground arith

pub on_handshake-Received : (ec : ErrorCode) (s : WsSession) → Received s (on_handshake ec s)
unfolding on_handshake
on_handshake-Received ec s = ground arith

pub on_accept-Received : (ec : ErrorCode) (s : WsSession) → Received s (on_accept ec s)
unfolding on_accept
on_accept-Received ec s = ground arith

pub on_write-Received :
    (is_open : Bool) (ec : ErrorCode) (s : WsSession) → Received s (on_write is_open ec s)
unfolding on_write
on_write-Received is_open ec s = ground arith

pub on_ping-Received :
    (ec : ErrorCode) (s : WsSession) {r : Step} → on_ping ec s ≡ ok r → Received s r
unfolding on_ping
on_ping-Received ec s h = ground arith

pub on_timer-Received :
    (is_open : Bool) (now : ℕ) (ec : ErrorCode) (s : WsSession)
    → Received s (on_timer is_open now ec s)
unfolding on_timer
on_timer-Received is_open now ec s = ground arith

pub send-Received :
    (is_open : Bool) (s : WsSession) (text : Bytes) → Received s (send is_open s text)
unfolding send
send-Received is_open s text = ground arith

pub run_as_client-Received :
    (is_open : Bool) (now : ℕ) (s : WsSession) → Received s (run_as_client is_open now s)
unfolding run_as_client
run_as_client-Received is_open now s = ground arith

pub run_as_server-Received :
    (is_open : Bool) (now : ℕ) (s : WsSession) → Received s (run_as_server is_open now s)
unfolding run_as_server
run_as_server-Received is_open now s = ground arith
