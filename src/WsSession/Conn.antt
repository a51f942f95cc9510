-- ===== src/WsSession/Conn.antt =====
-- A session of net/websockets/WsSession.cpp with its operations under way: which handlers can run,
-- in any order, each as one step. The strand of the session gives one handler at a time.
use boost_server_example.Base.{
  leb, length, ℕ, suc, ◌+◌, ◌≡◌, refl, Bool, true, false, List, [], ◌∷◌, ◌++◌, Bytes, if◌then◌else◌,
  append_assoc, append-nil, ap, arith,
}
use boost_server_example.Base.Result.{ok}
use boost_server_example.Callbacks.{Callbacks}
use boost_server_example.WsSession.{
  WsSession, Call, ErrorCode, Callback, Task, success, start_resolve, start_connect,
  start_handshake, start_accept, start_read, start_write, start_ping, start_wait, sendable,
  on_resolve, on_connect, on_handshake, on_accept, on_ping, on_timer, on_write, on_control_callback,
  send, new_session, run_as_server, run_as_client, connect_as_client,
}
use boost_server_example.WsSession.Incoming.{on_read, clear_received_messages}

-- The operations that have been started and have not completed.
pub record Pending : Type 0 where
  pub resolves : ℕ
  pub connects : ℕ
  pub handshakes : ℕ
  pub accepts : ℕ
  pub reads : ℕ
  pub writes : List Bytes
  pub pings : ℕ
  pub waits : ℕ

abbrev pub none_pending : Pending
none_pending = record {
  resolves = 0;
  connects = 0;
  handshakes = 0;
  accepts = 0;
  reads = 0;
  writes = [];
  pings = 0;
  waits = 0;
}

abbrev pub begin_call : Call → Pending → Pending
begin_call (start_resolve host port) p = record p { resolves = p.resolves + 1 }
begin_call start_connect p = record p { connects = p.connects + 1 }
begin_call start_handshake p = record p { handshakes = p.handshakes + 1 }
begin_call start_accept p = record p { accepts = p.accepts + 1 }
begin_call start_read p = record p { reads = p.reads + 1 }
begin_call (start_write text) p = record p { writes = p.writes ++ text ∷ [] }
begin_call start_ping p = record p { pings = p.pings + 1 }
begin_call start_wait p = record p { waits = p.waits + 1 }
begin_call _ p = p

abbrev pub begin_calls : List Call → Pending → Pending
begin_calls [] p = p
begin_calls (c ∷ cs) p = begin_calls cs (begin_call c p)

-- The messages that are handed to `async_write`, in order.
abbrev pub writes_of : List Call → List Bytes
writes_of [] = []
writes_of (start_write text ∷ cs) = text ∷ writes_of cs
writes_of (_ ∷ cs) = writes_of cs

-- `log` holds every call made so far, `taken` the messages that `send` took into the queue, and
-- `running` tells whether the session was run, as a server's or as a client's.
pub record Conn : Type 0 where
  pub session : WsSession
  pub pending : Pending
  pub log : List Call
  pub taken : List Bytes
  pub running : Bool

abbrev pub fresh : Bool → WsSession → Conn
fresh running s = record {
  session = s;
  pending = none_pending;
  log = [];
  taken = [];
  running = running;
}

-- A handler has run, once the operation that it completes is off `pending`.
abbrev pub after : Conn → Pending → WsSession × List Call → Conn
after c p (s, calls) = record c { session = s; pending = begin_calls calls p; log = c.log ++ calls }

-- A message that is longer than `read_message_max` is not read with success.
abbrev pub may_read : ErrorCode → WsSession → Bytes → Bool
may_read success s got = leb (length got) s.read_message_max
may_read _ s got = true

abbrev pub take_read : WsSession → Bytes → WsSession
take_read s got = record s { recieved_buffer = s.recieved_buffer ++ got }

module _ (callbacks : Callbacks Callback) where
  -- A completion needs its operation under way. `sends` is a call of `send` from the thread that
  -- runs the callbacks, `takes` is that thread's removal of the oldest task.
  pub data Move (c : Conn) : Conn → Type 0 where
    resolved :
        (k : ℕ) (ec : ErrorCode)
        → c.pending.resolves ≡ suc k
        → Move c (after c (record c.pending { resolves = k }) (on_resolve ec c.session))
    connected :
        (k : ℕ) (ec : ErrorCode)
        → c.pending.connects ≡ suc k
        → Move c (after c (record c.pending { connects = k }) (on_connect ec c.session))
    shaken :
        (k : ℕ) (ec : ErrorCode)
        → c.pending.handshakes ≡ suc k
        → Move c (after c (record c.pending { handshakes = k }) (on_handshake ec c.session))
    accepted :
        (k : ℕ) (ec : ErrorCode)
        → c.pending.accepts ≡ suc k
        → Move c (after c (record c.pending { accepts = k }) (on_accept ec c.session))
    was_read :
        (k : ℕ) (is_open : Bool) (ec : ErrorCode) (got : Bytes)
        → c.pending.reads ≡ suc k
        → may_read ec c.session got ≡ true
        → Move c (
            after c
              (record c.pending { reads = k })
              (on_read is_open callbacks ec (take_read c.session got)))
    was_written :
        (text : Bytes) (others : List Bytes) (is_open : Bool) (ec : ErrorCode)
        → c.pending.writes ≡ text ∷ others
        → Move c (after c (record c.pending { writes = others }) (on_write is_open ec c.session))
    pinged :
        (k : ℕ) (ec : ErrorCode) {r : WsSession × List Call}
        → c.pending.pings ≡ suc k
        → on_ping ec c.session ≡ ok r
        → Move c (after c (record c.pending { pings = k }) r)
    waited :
        (k : ℕ) (is_open : Bool) (now : ℕ) (ec : ErrorCode)
        → c.pending.waits ≡ suc k
        → Move c (after c (record c.pending { waits = k }) (on_timer is_open now ec c.session))
    controlled : (now : ℕ) → Move c (after c c.pending (on_control_callback now c.session))
    sends :
        (is_open : Bool) (text : Bytes)
        → Move c (record (after c c.pending (send is_open c.session text)) {
          taken = if sendable text then c.taken ++ text ∷ [] else c.taken;
        })
    takes :
        (t : Task) (rest : List Task)
        → c.session.received_messages.callbacks_queue ≡ t ∷ rest
        → Move c (record c {
          session = record c.session {
            received_messages = record c.session.received_messages { callbacks_queue = rest };
          };
        })
    runs :
        (is_open : Bool) (now : ℕ)
        → c.running ≡ false
        → Move c
            (record (after c c.pending (run_as_client is_open now c.session)) { running = true })
    cleared : Move c (record c { session = clear_received_messages c.session })

  -- A session of a server, and one that a client has told to connect.
  pub data Start : Conn → Type 0 where
    as_server :
        (queue_name id : Bytes) (is_open : Bool) (now : ℕ) {c : Conn}
        → c
          ≡ after
              (fresh true (new_session queue_name id))
              none_pending
              (run_as_server is_open now (new_session queue_name id))
        → Start c
    as_client :
        (queue_name id host port : Bytes) {c : Conn}
        → c
          ≡ after
              (fresh false (new_session queue_name id))
              none_pending
              (connect_as_client host port (new_session queue_name id))
        → Start c

  pub data Reach : Conn → Type 0 where
    start : {c : Conn} → Start c → Reach c
    later : {c d : Conn} → Reach c → Move c d → Reach d

pub writes_of-append : (xs ys : List Call) → writes_of (xs ++ ys) ≡ writes_of xs ++ writes_of ys
writes_of-append [] ys = refl
writes_of-append (start_write text ∷ xs) ys = ap (◌∷◌ text) (writes_of-append xs ys)
writes_of-append (x ∷ xs) ys = writes_of-append xs ys

pub writes-begin_calls :
    (cs : List Call) (p : Pending) → (begin_calls cs p).writes ≡ p.writes ++ writes_of cs
writes-begin_calls [] p = ground (arith, append-nil p.writes)
writes-begin_calls (start_write text ∷ cs) p = ground (
  arith,
  writes-begin_calls cs (begin_call (start_write text) p),
  append_assoc p.writes (text ∷ []) (writes_of cs),
)
writes-begin_calls (c ∷ cs) p = ground (arith, writes-begin_calls cs (begin_call c p))
