-- ===== src/WsCallbacks/Echo.antt =====
-- A ping on a session of net/websockets/WsServer.cpp: how it is queued, sent and written.
use boost_server_example.Base.{
  ℕ, zero, suc, ◌^◌, ◌<◌, ◌≡◌, refl, sym, ap, ◌∙◌, Bool, true, false, List, [], ◌∷◌, ◌++◌, map,
  Bytes, ◌==◌, length, append_assoc, append-nil, arith,
}
use boost_server_example.DispatchQueue.{dispatch}
use boost_server_example.Opcode.Laws.{NoNul, c_str-eq_iff}
use boost_server_example.WsCallbacks.{operation_callbacks}
use boost_server_example.WsCallbacks.Laws.{handle_incoming_data_lem}
use boost_server_example.WsSession.{
  WsSession, Step, Call, Task, ping_callback, send, send_shared, sendable, success, start_write,
  on_write,
}
use boost_server_example.WsSession.Incoming.{handle_incoming_data}

-- A ping that can be sent back whole.
abbrev pub IsPing : Bytes → Type 0
IsPing [] = ⊥
IsPing (c ∷ rest) = (c ≡ b'0') × (0 < length rest) × (length rest < 2 ^ 30) × NoNul rest

abbrev pub ArePings : List Bytes → Type 0
ArePings [] = Unit {0}
ArePings (text ∷ texts) = IsPing text × ArePings texts

-- The next `n` writes complete; the calls made so far come first.
abbrev pub complete : ℕ → Step → Step
complete zero st = st
complete (suc n) (s, calls) =
    let (next, more) = on_write true success s in complete n (next, calls ++ more)

-- The messages come in one after another.
abbrev pub come_in : WsSession → List Bytes → WsSession
come_in s [] = s
come_in s (text ∷ texts) = come_in (handle_incoming_data operation_callbacks s text).0 texts

abbrev pub ping_task : Bytes → Task
ping_task text = record { callback = ping_callback; message = text }

abbrev pub with_tasks : WsSession → List Task → WsSession
with_tasks s tasks = record s {
  received_messages = record s.received_messages { callbacks_queue = tasks };
}

handle-ping :
    (s : WsSession) (text : Bytes)
    → IsPing text
    → (handle_incoming_data operation_callbacks s text).0
      ≡ with_tasks s (s.received_messages.callbacks_queue ++ ping_task text ∷ [])
unfolding dispatch
handle-ping s [] p = elim p [ ]
handle-ping s (c ∷ rest) (zero_byte, some_rest, small, clean) =
    let long : (length rest == 0) ≡ false = ground arith in
    ap (λ (r : WsSession × Bool). r.0) (handle_incoming_data_lem s c rest (omega arith))
    ∙ rw (long, zero_byte) refl

pub come_in-tasks :
    (s : WsSession) (texts : List Bytes)
    → ArePings texts
    → come_in s texts ≡ with_tasks s (s.received_messages.callbacks_queue ++ map ping_task texts)
come_in-tasks s [] ps = ap (with_tasks s) (sym (append-nil s.received_messages.callbacks_queue))
come_in-tasks s (text ∷ texts) (p, ps) =
    let tasks = s.received_messages.callbacks_queue in
    ap (λ t. come_in t texts) (handle-ping s text p)
    ∙ come_in-tasks (with_tasks s (tasks ++ ping_task text ∷ [])) texts ps
    ∙ ap (with_tasks s) (append_assoc tasks (ping_task text ∷ []) (map ping_task texts))

-- A message that is sent while a write is under way waits.
pub send-busy :
    (s : WsSession) (text : Bytes)
    → sendable text ≡ true
    → s.is_send_busy ≡ true
    → send true s text ≡ (record s { send_queue = s.send_queue ++ text ∷ [] }, [])
unfolding send
send-busy s text h busy = ground (arith, h, busy)

-- One that is sent while none waits is written.
pub send-free :
    (s : WsSession) (text : Bytes)
    → sendable text ≡ true
    → s.send_queue ≡ []
    → s.is_send_busy ≡ false
    → send true s text
      ≡ (record s { send_queue = text ∷ []; is_send_busy = true }, start_write text ∷ [])
unfolding send
send-free s text h empty free = ground (arith, h, empty, free)

pub IsPing-sendable : (text : Bytes) → IsPing text → sendable text ≡ true
IsPing-sendable [] p = elim p [ ]
IsPing-sendable (c ∷ rest) (zero_byte, some_rest, small, clean) = ground arith

IsPing-NoNul : (text : Bytes) → IsPing text → NoNul text
IsPing-NoNul [] p = elim p [ ]
IsPing-NoNul (c ∷ rest) (zero_byte, some_rest, small, clean) = (omega arith, clean)

pub length-tasks : (texts : List Bytes) → length (map ping_task texts) ≡ length texts
length-tasks [] = refl
length-tasks (text ∷ texts) = omega (arith, length-tasks texts)

pub complete-written :
    (s : WsSession) (calls : List Call) (m : Bytes) (rest : List Bytes)
    → complete (suc (length rest)) (record s { send_queue = m ∷ rest; is_send_busy = true }, calls)
      ≡ (record s { send_queue = []; is_send_busy = false }, calls ++ map start_write rest)
unfolding on_write
complete-written s calls m [] = refl
complete-written s calls m (next ∷ rest) =
    complete-written s (calls ++ start_write next ∷ []) next rest
    ∙ ap (λ cs. (record s { send_queue = []; is_send_busy = false }, cs))
        (append_assoc calls (start_write next ∷ []) (map start_write rest))

pub send_shared-ping :
    (is_open : Bool) (s : WsSession) (text : Bytes)
    → IsPing text
    → send_shared is_open s text ≡ send is_open s text
unfolding send_shared
send_shared-ping is_open s text p =
    ap (send is_open s) ((c_str-eq_iff text).1 (IsPing-NoNul text p))
