-- ===== src/WsSession/Incoming.antt =====
-- The way of an incoming message: `on_read` and `handleIncomingData` of net/websockets/WsSession.cpp,
-- and the queries of net/SessionBase.cpp. The callbacks are those of the server.
use boost_server_example.Base.{
  ℕ, ◌*◌, Bool, true, false, not, [], ◌∷◌, Option, none, some, Bytes, ltb, ◌==◌, if◌then◌else◌,
  length,
}
use boost_server_example.Callbacks.{Callbacks, find}
use boost_server_example.DispatchQueue.{dispatch, is_empty, clear}
use boost_server_example.Opcode.{c_str, ws_opcode_from_str, new_operation}
use boost_server_example.WsSession.{
  WsSession, Step, Callback, ErrorCode, success, operation_aborted, closed, start_read,
  unregister_session,
}

abbrev pub max_receive_msg_size : ℕ
max_receive_msg_size = 1024 * 1024 * 1024

queue_task : Option Callback → WsSession → Bytes → WsSession × Bool
unfolding dispatch
queue_task none s message = (s, false)
queue_task (some callback) s message = (
  record s {
    received_messages =
        dispatch s.received_messages (record { callback = callback; message = message });
  },
  true,
)

-- The check of the type field only logs.
unfoldable pub handle_incoming_data : Callbacks Callback → WsSession → Bytes → WsSession × Bool
unfolding queue_task find
handle_incoming_data callbacks s message =
    if ltb (length message) 2
    then (s, false)
    else queue_task (find callbacks (new_operation (ws_opcode_from_str (c_str message)) [])) s
        message

-- `on_read` behind its tests of the error code.
read_message : Bool → Callbacks Callback → WsSession → Step
unfolding handle_incoming_data
read_message is_open callbacks s =
    if length s.recieved_buffer == 0
    then (s, [])
    else if ltb max_receive_msg_size (length s.recieved_buffer)
    then (s, [])
    else (
      record (handle_incoming_data callbacks s s.recieved_buffer).0 { recieved_buffer = [] },
      (if not is_open then [] else start_read ∷ []),
    )

-- After `on_session_fail` the handler goes on.
unfoldable pub on_read : Bool → Callbacks Callback → ErrorCode → WsSession → Step
unfolding read_message
on_read is_open callbacks success s = read_message is_open callbacks s
on_read is_open callbacks operation_aborted s = (s, [])
on_read is_open callbacks closed s = (s, [])
on_read is_open callbacks _ s =
    let (s', calls) = read_message is_open callbacks s in (s', unregister_session s.id ∷ calls)

unfoldable pub has_received_messages : WsSession → Bool
unfolding is_empty
has_received_messages s = is_empty s.received_messages

unfoldable pub clear_received_messages : WsSession → WsSession
unfolding clear
clear_received_messages s = record s { received_messages = clear s.received_messages }
