-- ===== src/WsSession/Link.antt =====
-- Two ends of one connection, each a session of net/websockets/WsSession.cpp, in one direction: what
-- the near end writes the far end reads. WebSocket over TCP delivers the messages that were written
-- whole and in order, and may stop at any point: a read that fails may leave a front part of a message
-- in the buffer, and the socket is not open then, as Beast documents of a stream that had an error.
mod Reading
mod Ends
pub mod Delivery
mod Tests
use boost_server_example.Base.{
  ℕ, suc, ◌≡◌, ◌≢◌, ◌⊎◌, refl, Bool, true, false, List, [], ◌∷◌, ◌++◌, Option, none, some, Bytes,
  ltb, length, if◌then◌else◌,
}
use boost_server_example.Callbacks.{Callbacks, find}
use boost_server_example.Opcode.{c_str, ws_opcode_from_str, new_operation}
use boost_server_example.WsSession.{
  WsSession, Callback, Task, ErrorCode, success, operation_aborted, closed, other,
}
use boost_server_example.WsSession.Conn.{
  Conn, Move, Start, Reach, start, later, after, may_read, take_read, writes_of, resolved,
  connected, shaken, accepted, was_read, was_written, pinged, waited, controlled, sends, takes,
  runs, cleared,
}
use boost_server_example.WsSession.Incoming.{on_read}

-- `delivered` are the messages whose read has completed at the far end, `begun` the tasks that its
-- dispatch has taken off the queue; `failed` tells whether a read has failed at the far end.
pub record Link : Type 0 where
  pub near : Conn
  pub far : Conn
  pub delivered : List Bytes
  pub begun : List Task
  pub failed : Bool

-- A front part, possibly empty, of the next message that the near end has written.
abbrev pub IsCut : Link → Bytes → Type 0
IsCut l part =
    (part ≡ [])
    ⊎ ((missing : Bytes) × (rest : List Bytes) × (writes_of l.near.log
          ≡ l.delivered ++ (part ++ missing) ∷ rest))

module _ (callbacks : Callbacks Callback) where
  -- A step that neither reads nor touches the tasks.
  abbrev pub aside : {c d : Conn} → Move callbacks c d → Bool
  aside (was_read k is_open ec got e fits) = false
  aside (takes t rest e) = false
  aside cleared = false
  aside _ = true

  -- The far end after a read.
  abbrev pub has_read : Conn → ℕ → Bool → ErrorCode → Bytes → Conn
  has_read far k is_open ec got =
      after far (record far.pending { reads = k })
        (on_read is_open callbacks ec (take_read far.session got))

  -- The program never calls `clearReceivedMessages`, so no step does.
  pub data Step (l : Link) : Link → Type 0 where
    near_moves : {near : Conn} → Move callbacks l.near near → Step l (record l { near = near })
    delivers :
        (k : ℕ) (is_open : Bool) (text : Bytes) (rest : List Bytes)
        → l.far.pending.reads ≡ suc k
        → writes_of l.near.log ≡ l.delivered ++ text ∷ rest
        → may_read success l.far.session text ≡ true
        → Step l (record l {
          far = has_read l.far k is_open success text;
          delivered = l.delivered ++ text ∷ [];
        })
    read_fails :
        (k : ℕ) (ec : ErrorCode) (part : Bytes)
        → l.far.pending.reads ≡ suc k
        → ec ≢ success
        → IsCut l part
        → Step l (record l { far = has_read l.far k false ec part; failed = true })
    dispatches :
        (t : Task) (rest : List Task)
        → l.far.session.received_messages.callbacks_queue ≡ t ∷ rest
        → Step l (record l {
          far = record l.far {
            session = record l.far.session {
              received_messages = record l.far.session.received_messages { callbacks_queue = rest };
            };
          };
          begun = l.begun ++ t ∷ [];
        })
    far_moves :
        {far : Conn} (m : Move callbacks l.far far)
        → aside m ≡ true
        → Step l (record l { far = far })

  pub data Linked : Link → Type 0 where
    opened :
        (near far : Conn)
        → Start callbacks near
        → Start callbacks far
        → Linked (record { near = near; far = far; delivered = []; begun = []; failed = false })
    goes_on : {l m : Link} → Linked l → Step l m → Linked m

  may_fail :
      (s : WsSession) (ec : ErrorCode) (part : Bytes) → ec ≢ success → may_read ec s part ≡ true
  may_fail s success part ne = absurd (ne refl)
  may_fail s operation_aborted part ne = refl
  may_fail s closed part ne = refl
  may_fail s (other n) part ne = refl

  -- Each end is a session by itself.
  pub ends : {l : Link} → Linked l → Reach callbacks l.near × Reach callbacks l.far
  ends (opened near far a b) = (start a, start b)
  ends (goes_on w (near_moves m)) = (later (ends w).0 m, (ends w).1)
  ends (goes_on w (delivers k is_open text rest e f fits)) =
      ((ends w).0, later (ends w).1 (was_read k is_open success text e fits))
  ends (goes_on w (read_fails k ec part e ne cut)) =
      ((ends w).0, later (ends w).1 (was_read k false ec part e (may_fail _ ec part ne)))
  ends (goes_on w (dispatches t rest e)) = ((ends w).0, later (ends w).1 (takes t rest e))
  ends (goes_on w (far_moves m a)) = ((ends w).0, later (ends w).1 m)

  -- The tasks that a message makes, and those of several messages.
  abbrev pub tasks_of : Bytes → List Task
  tasks_of message =
      if ltb (length message) 2
      then []
      else elim (find callbacks (new_operation (ws_opcode_from_str (c_str message)) [])) [
        | none ↦ []
        | some callback ↦ record { callback = callback; message = message } ∷ []
      ]

  abbrev pub tasks_in : List Bytes → List Task
  tasks_in [] = []
  tasks_in (message ∷ rest) = tasks_of message ++ tasks_in rest
