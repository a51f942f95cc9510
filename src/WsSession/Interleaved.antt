-- ===== src/WsSession/Interleaved.antt =====
-- `send` and `on_write` of net/websockets/WsSession.cpp statement by statement. A callback calls `send`
-- on the thread of the main loop, and `on_write` runs on the strand of the session, on a thread of the
-- network: they share the queue and the flag, with no lock. Each access is taken to be atomic here.
mod Phase
mod Kept
pub mod Order
pub mod Alone
mod Tests
use boost_server_example.Base.{
  ◌≡◌, Bool, true, false, not, ◌&&◌, List, [], ◌∷◌, ◌++◌, Bytes, if◌then◌else◌,
}
use boost_server_example.WsSession.{sendable}

-- Where the thread of the callbacks stands in `send`: not in it; behind `push_back`; in the branch that
-- starts a write; behind `isSendBusy_ = true`.
pub data Caller : Type 0 where
  resting pushed starting claimed : Caller

-- Where the strand stands in `on_write`: not in it; behind `erase`; in the branch that writes the next
-- message; in the other, before `isSendBusy_ = false`.
pub data Strand : Type 0 where
  waiting erased more emptied : Strand

-- `in_flight` are the writes under way, `started` all that were started, `taken` the messages that
-- `send` took.
pub record Shared : Type 0 where
  pub send_queue : List Bytes
  pub is_send_busy : Bool
  pub in_flight : List Bytes
  pub started : List Bytes
  pub taken : List Bytes
  pub caller : Caller
  pub strand : Strand

abbrev pub is_empty : List Bytes → Bool
is_empty [] = true
is_empty (m ∷ ms) = false

-- `if (!isOpen()) return; if (!isSendBusy_ && !sendQueue_.empty()) …`
abbrev pub decides : Bool → Bool → List Bytes → Caller
decides is_open busy queue =
    if is_open && (not busy && not (is_empty queue)) then starting else resting

-- `if (!sendQueue_.empty()) sendQueue_.erase(sendQueue_.begin())`
abbrev pub erase_first : List Bytes → List Bytes
erase_first [] = []
erase_first (m ∷ ms) = ms

-- `async_write` of a message.
abbrev pub begin_write : Bytes → Shared → Shared
begin_write front c = record c {
  in_flight = c.in_flight ++ front ∷ [];
  started = c.started ++ front ∷ [];
}

-- One statement of either thread. `front()` is taken of a queue that has one.
pub data Step (c : Shared) : Shared → Type 0 where
  pushes :
      (text : Bytes)
      → c.caller ≡ resting
      → sendable text ≡ true
      → Step c (record c {
        send_queue = c.send_queue ++ text ∷ [];
        taken = c.taken ++ text ∷ [];
        caller = pushed;
      })
  looks :
      (is_open : Bool)
      → c.caller ≡ pushed
      → Step c (record c { caller = decides is_open c.is_send_busy c.send_queue })
  claims : c.caller ≡ starting → Step c (record c { is_send_busy = true; caller = claimed })
  starts :
      (front : Bytes) (rest : List Bytes)
      → c.caller ≡ claimed
      → c.send_queue ≡ front ∷ rest
      → Step c (record (begin_write front c) { caller = resting })
  finishes :
      (text : Bytes) (others : List Bytes)
      → c.strand ≡ waiting
      → c.in_flight ≡ text ∷ others
      → Step c
          (record c { in_flight = others; send_queue = erase_first c.send_queue; strand = erased })
  -- An error, or a socket that is not open any more: the handler returns.
  fails :
      (text : Bytes) (others : List Bytes)
      → c.strand ≡ waiting
      → c.in_flight ≡ text ∷ others
      → Step c (record c { in_flight = others })
  tests :
      c.strand ≡ erased
      → Step c (record c { strand = if is_empty c.send_queue then emptied else more })
  goes_on :
      (front : Bytes) (rest : List Bytes)
      → c.strand ≡ more
      → c.send_queue ≡ front ∷ rest
      → Step c (record (begin_write front c) { strand = waiting })
  frees : c.strand ≡ emptied → Step c (record c { is_send_busy = false; strand = waiting })

-- A session to which nothing was sent.
abbrev pub unused : Shared
unused = record {
  send_queue = [];
  is_send_busy = false;
  in_flight = [];
  started = [];
  taken = [];
  caller = resting;
  strand = waiting;
}

pub data Reach : Shared → Type 0 where
  start : Reach unused
  later : {c d : Shared} → Reach c → Step c d → Reach d

-- Several statements.
pub data Steps (c : Shared) : Shared → Type 0 where
  here : Steps c c
  next : {d e : Shared} → Steps c d → Step d e → Steps c e
