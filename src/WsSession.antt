-- ===== src/WsSession.antt =====
-- net/websockets/WsSession.hpp and .cpp, with net/SessionBase: one connection. A handler takes the
-- session to the session after it and the calls that it makes, in order. What Beast and the clock
-- answer is an argument: `is_open` is `ws_.is_open()`, `now` the time.
pub mod Incoming
pub mod Conn
mod Quiet
mod Received
pub mod Writing
mod Kinds
pub mod Writes
pub mod Stall
mod Mute
mod Blank
pub mod Deaf
mod Watch
pub mod Silence
pub mod Bounds
pub mod Link
pub mod Interleaved
pub mod Reads
mod Pinging
pub mod Ping
pub mod Connect
mod Tests
use boost_server_example.Base.{
  ℕ, ◌+◌, ◌*◌, ◌^◌, Bool, true, false, not, ◌&&◌, List, [], ◌∷◌, ◌++◌, Option, none, some, Bytes,
  ltb, leb, ◌==◌, if◌then◌else◌, length,
}
use boost_server_example.Base.Result.{Result, ok, err, assert_failed}
use boost_server_example.DispatchQueue.{DispatchQueue, new_dispatch_queue}
use boost_server_example.Opcode.{c_str}

-- What a `beast::error_code` is compared with.
pub data ErrorCode : Type 0 where
  success operation_aborted closed : ErrorCode
  other : ℕ → ErrorCode

pub data PingState : Type 0 where
  alive sending sent total : PingState

-- The static functions of WsServer.cpp that are registered as callbacks.
pub data Callback : Type 0 where
  ping_callback csv_analize_callback csv_answer_callback : Callback

-- `std::bind(callback, this, nm_, message)`
pub record Task : Type 0 where
  pub callback : Callback
  pub message : Bytes

-- What a handler asks of Asio and Beast, and of the server.
pub data Call : Type 0 where
  start_resolve : Bytes → Bytes → Call
  start_connect start_handshake start_accept start_read : Call
  start_write : Bytes → Call
  start_ping start_wait set_control_callback shutdown_socket close_socket : Call
  unregister_session : Bytes → Call

-- `recievedBuffer_` holds what has been read. `timer_expiry` is `none` for `time_point::max`. The
-- pointers in `sendQueue_` and `receivedMessagesQueue_` are never null before the destructor. `read_message_max` is that of `ws_`.
pub record WsSession : Type 0 where
  pub id : Bytes
  pub is_fully_created : Bool
  pub recieved_buffer : Bytes
  pub timer_expiry : Option ℕ
  pub is_send_busy : Bool
  pub send_queue : List Bytes
  pub ping_state : PingState
  pub received_messages : DispatchQueue Task
  pub read_message_max : ℕ

abbrev pub Step : Type 0
Step = WsSession × List Call

-- 15 seconds, in nanoseconds.
abbrev pub ping_frequency : ℕ
ping_frequency = 15 * 10 ^ 9

abbrev pub max_send_msg_size : ℕ
max_send_msg_size = 1024 * 1024 * 1024

-- The constructor. Compression is left to Beast.
unfoldable pub new_session : Bytes → Bytes → WsSession
unfolding new_dispatch_queue
new_session queue_name id = record {
  id = id;
  is_fully_created = false;
  recieved_buffer = [];
  timer_expiry = none;
  is_send_busy = false;
  send_queue = [];
  ping_state = alive;
  received_messages = new_dispatch_queue queue_name 0;
  read_message_max = 64 * 1024 * 1024;
}

abbrev pub on_session_fail : WsSession → List Call
on_session_fail s = unregister_session s.id ∷ []

-- `timer_.expires_after(…)`
abbrev pub expires_after : ℕ → WsSession → WsSession
expires_after now s = record s { timer_expiry = some (now + ping_frequency) }

unfoldable pub connect_as_client : Bytes → Bytes → WsSession → Step
connect_as_client host port s = (s, start_resolve host port ∷ [])

unfoldable pub on_resolve : ErrorCode → WsSession → Step
on_resolve success s = (s, start_connect ∷ [])
on_resolve _ s = (s, on_session_fail s)

unfoldable pub on_connect : ErrorCode → WsSession → Step
on_connect success s = (s, start_handshake ∷ [])
on_connect _ s = (s, on_session_fail s)

unfoldable pub on_handshake : ErrorCode → WsSession → Step
on_handshake success s = (s, [])
on_handshake _ s = (s, on_session_fail s)

unfoldable pub on_remote_activity : ℕ → WsSession → WsSession
on_remote_activity now s = expires_after now (record s { ping_state = alive })

unfoldable pub on_control_callback : ℕ → WsSession → Step
unfolding on_remote_activity
on_control_callback now s = (on_remote_activity now s, [])

unfoldable pub on_accept : ErrorCode → WsSession → Step
on_accept success s = (record s { is_fully_created = true }, start_read ∷ [])
on_accept operation_aborted s = (s, [])
on_accept _ s = (s, on_session_fail s)

-- After a ping was sent; `err`: the assertion fails.
ping_sent : PingState → WsSession → Result Step
ping_sent sending s = ok (record s { ping_state = sent }, [])
ping_sent alive s = ok (s, [])
ping_sent _ s = err assert_failed

unfoldable pub on_ping : ErrorCode → WsSession → Result Step
unfolding ping_sent
on_ping success s = ping_sent s.ping_state s
on_ping operation_aborted s = ok (s, [])
on_ping _ s = ok (s, on_session_fail s)

abbrev pub is_alive : PingState → Bool
is_alive alive = true
is_alive _ = false

-- `timer_.expiry() <= now`
abbrev pub expired : ℕ → Option ℕ → Bool
expired now none = false
expired now (some t) = leb t now

timer_check : Bool → ℕ → WsSession → Step
timer_check is_open now s =
    if expired now s.timer_expiry
    then (if is_open && is_alive s.ping_state
        then (expires_after now (record s { ping_state = sending }), start_ping ∷ start_wait ∷ [])
        else (s, shutdown_socket ∷ close_socket ∷ on_session_fail s))
    else (s, start_wait ∷ [])

unfoldable pub on_timer : Bool → ℕ → ErrorCode → WsSession → Step
unfolding timer_check
on_timer is_open now success s = timer_check is_open now s
on_timer is_open now operation_aborted s = timer_check is_open now s
on_timer is_open now _ s = (s, on_session_fail s)

unfoldable pub run_as_client : Bool → ℕ → WsSession → Step
unfolding on_timer
run_as_client is_open now s =
    let (s', calls) = on_timer is_open now success s in
    (
      record (expires_after now s') { is_fully_created = true },
      set_control_callback ∷ (calls ++ start_read ∷ []),
    )

unfoldable pub run_as_server : Bool → ℕ → WsSession → Step
unfolding on_timer
run_as_server is_open now s =
    let (s', calls) = on_timer is_open now success s in
    (expires_after now s', set_control_callback ∷ (calls ++ start_accept ∷ []))

-- `on_write` with the message written first in the queue.
written : List Bytes → WsSession → Step
written [] s = (record s { is_send_busy = false }, [])
written (done ∷ []) s = (record s { send_queue = []; is_send_busy = false }, [])
written (done ∷ dp ∷ rest) s = (record s { send_queue = dp ∷ rest }, start_write dp ∷ [])

unfoldable pub on_write : Bool → ErrorCode → WsSession → Step
unfolding written
on_write is_open success s = if not is_open then (s, []) else written s.send_queue s
on_write is_open operation_aborted s = (s, [])
on_write is_open _ s = (s, on_session_fail s)

-- `if (!isSendBusy_ && !sendQueue_.empty()) …`
write_front : List Bytes → WsSession → Step
write_front [] s = (s, [])
write_front (dp ∷ rest) s =
    if not s.is_send_busy then (record s { is_send_busy = true }, start_write dp ∷ []) else (s, [])

-- The messages that `send` takes.
abbrev pub sendable : Bytes → Bool
sendable ss = ltb 0 (length ss) && not (ltb max_send_msg_size (length ss))

abbrev pub enqueue : Bytes → WsSession → WsSession
enqueue ss s = record s { send_queue = s.send_queue ++ ss ∷ [] }

unfoldable pub send : Bool → WsSession → Bytes → Step
unfolding write_front
send is_open s ss =
    if not (sendable ss)
    then (s, [])
    else if not is_open
    then (enqueue ss s, [])
    else write_front (enqueue ss s).send_queue (enqueue ss s)

-- The overload for a shared string goes through `c_str()`.
unfoldable pub send_shared : Bool → WsSession → Bytes → Step
unfolding send
send_shared is_open s ss = send is_open s (c_str ss)
