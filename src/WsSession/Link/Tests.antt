-- ===== src/WsSession/Link/Tests.antt =====
-- A client sends a ping to a server, over a connection.
use boost_server_example.Base.{◌≡◌, ◌⊎◌, refl, true, false, List, [], ◌∷◌, ◌++◌, Bytes}
use boost_server_example.Base.Text.{codes}
use boost_server_example.Callbacks.{find}
use boost_server_example.Opcode.{ws_opcode_from_str, c_str}
use boost_server_example.WsCallbacks.{operation_callbacks}
use boost_server_example.WsSession.{
  WsSession, Task, success, other, ping_callback, new_session, run_as_server, run_as_client,
  connect_as_client, on_accept, send,
}
use boost_server_example.WsSession.Conn.{
  Conn, as_server, as_client, accepted, sends, runs, after, fresh, none_pending, writes_of,
}
use boost_server_example.WsSession.Incoming.{on_read}
use boost_server_example.WsSession.Link.{
  Link, IsCut, tasks_of, near_moves, delivers, dispatches, far_moves, Linked, opened, goes_on,
  tasks_in, has_read,
}
use boost_server_example.WsSession.Link.Delivery.{delivered_in_order}

abbrev client : WsSession
client = new_session (codes "queue") (codes "client")

abbrev server : WsSession
server = new_session (codes "queue") (codes "server")

abbrev connecting : Conn
connecting =
    after (fresh false client) none_pending
      (connect_as_client (codes "127.0.0.1") (codes "8080") client)

abbrev running : Conn
running = record (after connecting connecting.pending (run_as_client true 5 connecting.session)) {
  running = true;
}

abbrev sending : Conn
sending = record (after running running.pending (send true running.session (codes "0hi"))) {
  taken = codes "0hi" ∷ [];
}

abbrev ran : Conn
ran = after (fresh true server) none_pending (run_as_server false 5 server)

abbrev accepting : Conn
accepting = after ran (record ran.pending { accepts = 0 }) (on_accept success ran.session)

abbrev got : Conn
got = has_read operation_callbacks accepting 0 true success (codes "0hi")

abbrev ping : Task
ping = record { callback = ping_callback; message = codes "0hi" }

abbrev taken : Link
taken = record {
  near = sending;
  far = record got {
    session = record got.session {
      received_messages = record got.session.received_messages { callbacks_queue = [] };
    };
  };
  delivered = codes "0hi" ∷ [];
  begun = ping ∷ [];
  failed = false;
}

may_run : ran.pending.accepts ≡ 1
unfolding run_as_server new_session
may_run = refl

reads_one : accepting.pending.reads ≡ 1
unfolding run_as_server new_session on_accept
reads_one = refl

was_written : writes_of sending.log ≡ codes "0hi" ∷ []
unfolding send run_as_client connect_as_client new_session
was_written = refl

was_queued : got.session.received_messages.callbacks_queue ≡ ping ∷ []
unfolding on_read new_session run_as_server on_accept operation_callbacks ws_opcode_from_str c_str
was_queued = refl

taken-Linked : Linked operation_callbacks taken
taken-Linked =
    goes_on
      (goes_on
        (goes_on
          (goes_on
            (goes_on
              (opened connecting ran
                (as_client (codes "queue") (codes "client") (codes "127.0.0.1") (codes "8080") refl)
                (as_server (codes "queue") (codes "server") false 5 refl))
              (near_moves (runs true 5 refl)))
            (near_moves (sends true (codes "0hi"))))
          (far_moves (accepted 0 success may_run) refl))
        (delivers 0 true (codes "0hi") [] reads_one was_written
          (unfold new_session run_as_server on_accept in refl)))
      (dispatches ping [] was_queued)

delivered_in_order_example :
    ((waiting : List Bytes) × (taken.near.taken ≡ taken.delivered ++ waiting))
    × (((taken.failed ≡ false)
          × (taken.begun ++ taken.far.session.received_messages.callbacks_queue
              ≡ tasks_in operation_callbacks taken.delivered))
        ⊎ ((taken.failed ≡ true)
            × (taken.far.pending.reads ≡ 0)
            × ((part : Bytes) × IsCut taken part
                × (taken.begun ++ taken.far.session.received_messages.callbacks_queue
                    ≡ tasks_in operation_callbacks taken.delivered
                      ++ tasks_of operation_callbacks part))))
delivered_in_order_example = delivered_in_order operation_callbacks taken-Linked

-- The connection breaks behind the second byte, and a ping of that length is queued.
half_queued :
    (has_read operation_callbacks accepting 0 false (other 9) (codes "0h")
      ).session.received_messages.callbacks_queue
    ≡ record { callback = ping_callback; message = codes "0h" } ∷ []
unfolding on_read new_session run_as_server on_accept operation_callbacks ws_opcode_from_str c_str
half_queued = refl

one_ping : tasks_in operation_callbacks taken.delivered ≡ ping ∷ []
unfolding operation_callbacks find ws_opcode_from_str c_str
one_ping = refl
