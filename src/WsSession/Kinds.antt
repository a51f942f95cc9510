-- ===== src/WsSession/Kinds.antt =====
-- The steps of a session of net/websockets/WsSession.cpp by what they do to its writes.
use boost_server_example.Base.{◌≡◌, refl, Bool, List, [], ◌∷◌, ◌++◌, Bytes, if◌then◌else◌}
use boost_server_example.Callbacks.{Callbacks}
use boost_server_example.WsSession.{ErrorCode, Callback, sendable, on_write, send}
use boost_server_example.WsSession.Incoming.{clear_received_messages}
use boost_server_example.WsSession.Quiet.{
  on_resolve-Quiet, on_connect-Quiet, on_handshake-Quiet, on_accept-Quiet, on_timer-Quiet,
  on_ping-Quiet, on_read-Quiet, on_control_callback-Quiet, run_as_client-Quiet,
}
use boost_server_example.WsSession.Writing.{Same, Quiet-Same}
use boost_server_example.WsSession.Conn.{
  Conn, Move, resolved, connected, shaken, accepted, was_read, was_written, pinged, waited,
  controlled, sends, takes, runs, cleared, after, take_read,
}

-- A step is quiet, a call of `send`, or the end of a write.
pub data Kind (c : Conn) : Conn → Type 0 where
  quietly : {d : Conn} → Same c d → Kind c d
  sending :
      (is_open : Bool) (text : Bytes)
      → Kind c (record (after c c.pending (send is_open c.session text)) {
        taken = if sendable text then c.taken ++ text ∷ [] else c.taken;
      })
  writing :
      (text : Bytes) (others : List Bytes) (is_open : Bool) (ec : ErrorCode)
      → c.pending.writes ≡ text ∷ others
      → Kind c (after c (record c.pending { writes = others }) (on_write is_open ec c.session))

module _ (callbacks : Callbacks Callback) where
  pub Move-Kind : {c d : Conn} → Move callbacks c d → Kind c d
  unfolding clear_received_messages
  Move-Kind {c} (resolved k ec h) =
      quietly (Quiet-Same c _ _ _ refl (on_resolve-Quiet ec c.session))
  Move-Kind {c} (connected k ec h) =
      quietly (Quiet-Same c _ _ _ refl (on_connect-Quiet ec c.session))
  Move-Kind {c} (shaken k ec h) =
      quietly (Quiet-Same c _ _ _ refl (on_handshake-Quiet ec c.session))
  Move-Kind {c} (accepted k ec h) = quietly (Quiet-Same c _ _ _ refl (on_accept-Quiet ec c.session))
  Move-Kind {c} (was_read k is_open ec got h fits) =
      let q = on_read-Quiet is_open callbacks ec (take_read c.session got) in
      quietly
        (Quiet-Same c _ _ _ refl (record { queue = q.queue; busy = q.busy; silent = q.silent }))
  Move-Kind {c} (was_written text others is_open ec h) = writing text others is_open ec h
  Move-Kind {c} (pinged k ec {r} h ok_r) =
      quietly (Quiet-Same c _ _ _ refl (on_ping-Quiet ec c.session ok_r))
  Move-Kind {c} (waited k is_open now ec h) =
      quietly (Quiet-Same c _ _ _ refl (on_timer-Quiet is_open now ec c.session))
  Move-Kind {c} (controlled now) =
      quietly (Quiet-Same c _ _ _ refl (on_control_callback-Quiet now c.session))
  Move-Kind {c} (sends is_open text) = sending is_open text
  Move-Kind {c} (takes t rest h) =
      quietly (record { queue = refl; busy = refl; flight = refl; begun = refl; took = refl })
  Move-Kind {c} (runs is_open now h) =
      let q = Quiet-Same c c.pending _ _ refl (run_as_client-Quiet is_open now c.session) in
      quietly (record {
        queue = q.queue;
        busy = q.busy;
        flight = q.flight;
        begun = q.begun;
        took = q.took;
      })
  Move-Kind {c} cleared =
      quietly (record { queue = refl; busy = refl; flight = refl; begun = refl; took = refl })
