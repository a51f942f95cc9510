-- ===== src/WsSession/Quiet.antt =====
-- The handlers of net/websockets/WsSession.cpp that have nothing to do with sending.
use boost_server_example.Base.{ℕ, ◌≡◌, Bool, List, [], arith}
use boost_server_example.Base.Result.{ok}
use boost_server_example.Callbacks.{Callbacks}
use boost_server_example.WsSession.{
  WsSession, Call, ErrorCode, Callback, success, on_resolve, on_connect, on_handshake, on_accept,
  on_ping, on_timer, on_control_callback, run_as_server, run_as_client,
}
use boost_server_example.WsSession.Incoming.{on_read}
use boost_server_example.WsSession.Conn.{writes_of}

-- What a handler that has nothing to do with sending leaves alone.
pub record Quiet (s : WsSession) (r : WsSession × List Call) : Type 0 where
  pub queue : r.0.send_queue ≡ s.send_queue
  pub busy : r.0.is_send_busy ≡ s.is_send_busy
  pub silent : writes_of r.1 ≡ []

pub on_resolve-Quiet : (ec : ErrorCode) (s : WsSession) → Quiet s (on_resolve ec s)
unfolding on_resolve
on_resolve-Quiet success s = ground arith
on_resolve-Quiet _ s = ground arith

pub on_connect-Quiet : (ec : ErrorCode) (s : WsSession) → Quiet s (on_connect ec s)
unfolding on_connect
on_connect-Quiet success s = ground arith
on_connect-Quiet _ s = ground arith

pub on_handshake-Quiet : (ec : ErrorCode) (s : WsSession) → Quiet s (on_handshake ec s)
unfolding on_handshake
on_handshake-Quiet success s = ground arith
on_handshake-Quiet _ s = ground arith

pub on_accept-Quiet : (ec : ErrorCode) (s : WsSession) → Quiet s (on_accept ec s)
unfolding on_accept
on_accept-Quiet success s = ground arith
on_accept-Quiet _ s = ground arith

pub on_timer-Quiet :
    (is_open : Bool) (now : ℕ) (ec : ErrorCode) (s : WsSession)
    → Quiet s (on_timer is_open now ec s)
unfolding on_timer
on_timer-Quiet is_open now success s = ground arith
on_timer-Quiet is_open now _ s = ground arith

pub on_ping-Quiet :
    (ec : ErrorCode) (s : WsSession) {r : WsSession × List Call} → on_ping ec s ≡ ok r → Quiet s r
unfolding on_ping
on_ping-Quiet success s e = ground arith
on_ping-Quiet _ s e = ground arith

pub on_read-Quiet :
    (is_open : Bool) (callbacks : Callbacks Callback) (ec : ErrorCode) (s : WsSession)
    → Quiet s (on_read is_open callbacks ec s)
unfolding on_read
on_read-Quiet is_open callbacks success s = ground arith
on_read-Quiet is_open callbacks _ s = ground arith

pub on_control_callback-Quiet : (now : ℕ) (s : WsSession) → Quiet s (on_control_callback now s)
unfolding on_control_callback
on_control_callback-Quiet now s = ground arith

pub run_as_client-Quiet :
    (is_open : Bool) (now : ℕ) (s : WsSession) → Quiet s (run_as_client is_open now s)
unfolding run_as_client
run_as_client-Quiet is_open now s = ground arith

pub run_as_server-Quiet :
    (is_open : Bool) (now : ℕ) (s : WsSession) → Quiet s (run_as_server is_open now s)
unfolding run_as_server
run_as_server-Quiet is_open now s = ground arith
