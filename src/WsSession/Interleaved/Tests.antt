-- ===== src/WsSession/Interleaved/Tests.antt =====
-- Interleavings of `send` and `on_write`: a message that waits for ever.
use boost_server_example.Base.{
  ◌≤◌, ◌≡◌, refl, Bool, true, false, List, [], ◌∷◌, ◌++◌, Bytes, length,
}
use boost_server_example.Base.Text.{codes}
use boost_server_example.WsSession.{WsSession, success, sendable, new_session, send, on_write}
use boost_server_example.WsSession.Interleaved.{
  resting, claimed, waiting, more, emptied, Shared, Step, pushes, looks, claims, starts, finishes,
  tests, Steps, Reach, start, later,
}
use boost_server_example.WsSession.Interleaved.Alone.{Does, statements_alone}
use boost_server_example.WsSession.Interleaved.Order.{interleaved_in_order, lost_wakeup}

abbrev hi : Bytes
hi = codes "hi"

-- "hi" was sent and written, and the strand has found the queue empty.
abbrev finished : Shared
finished = record {
  send_queue = [];
  is_send_busy = true;
  in_flight = [];
  started = hi ∷ [];
  taken = hi ∷ [];
  caller = resting;
  strand = emptied;
}

finished-Reach : Reach finished
finished-Reach =
    later
      (later
        (later (later (later (later start (pushes hi refl refl)) (looks true refl)) (claims refl))
          (starts hi [] refl refl))
        (finishes hi [] refl refl))
      (tests refl)

interleaved_in_order_example :
    (length finished.in_flight ≤ 1)
    × ((left : List Bytes) × (finished.taken ≡ finished.started ++ left))
    × (finished.caller ≡ claimed
        → (front : Bytes) × (rest : List Bytes) × (finished.send_queue ≡ front ∷ rest))
    × (finished.strand ≡ more
        → (front : Bytes) × (rest : List Bytes) × (finished.send_queue ≡ front ∷ rest))
interleaved_in_order_example = interleaved_in_order finished-Reach

lost_wakeup_example :
    (d : Shared) × Steps finished d
    × (d.send_queue ≡ finished.send_queue ++ codes "again" ∷ [])
    × (d.started ≡ finished.started)
    × (d.in_flight ≡ [])
    × (d.is_send_busy ≡ false)
    × ((e : Shared) → Step d e → (other : Bytes) × (e.taken ≡ d.taken ++ other ∷ []))
lost_wakeup_example = lost_wakeup finished (codes "again") true finished-Reach refl refl refl

abbrev session : WsSession
session = record (new_session [] (codes "id")) {
  send_queue = hi ∷ codes "again" ∷ [];
  is_send_busy = true;
}

abbrev writing : Shared
writing = record {
  send_queue = hi ∷ codes "again" ∷ [];
  is_send_busy = true;
  in_flight = hi ∷ [];
  started = hi ∷ [];
  taken = hi ∷ codes "again" ∷ [];
  caller = resting;
  strand = waiting;
}

statements_alone_example :
    ((is_open : Bool) (text : Bytes)
      → sendable text ≡ true
      → Does writing session (send is_open session text))
    × ((m : Bytes) (others rest : List Bytes)
        → writing.in_flight ≡ m ∷ others
        → session.send_queue ≡ m ∷ rest
        → Does writing session (on_write true success session))
statements_alone_example =
    statements_alone writing session (record { queue = refl; busy = refl }) refl refl
