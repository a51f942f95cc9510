-- ===== src/WsSession/Interleaved/Alone.antt =====
-- The statements of one thread, with none of the other between them, are `send` and `on_write`.
use boost_server_example.Base.{
  ◌≡◌, ◌⊎◌, inl, inr, refl, sym, ap, ◌∙◌, Bool, true, false, List, [], ◌∷◌, ◌++◌, Bytes, append-nil,
}
use boost_server_example.WsSession.{WsSession, Step, success, start_write, sendable, send, on_write}
use boost_server_example.WsSession.Conn.{writes_of}
use boost_server_example.WsSession.Interleaved.{
  resting, waiting, erased, Shared, decides, erase_first, pushes, looks, claims, starts, finishes,
  tests, goes_on, frees, Steps, here, next,
}
use boost_server_example.WsSession.Interleaved.Order.{decides-resting}
use boost_server_example.WsSession.Writes.{send-queued, send-started, snoc-cons, open-cases}
use boost_server_example.WsSession.Writing.{on_write-last, on_write-next}

-- The queue and the flag of a session.
pub record Shows (c : Shared) (s : WsSession) : Type 0 where
  pub queue : c.send_queue ≡ s.send_queue
  pub busy : c.is_send_busy ≡ s.is_send_busy

-- Statements that do what a handler does, and leave both threads outside of their functions.
pub record Does (c : Shared) (s : WsSession) (step : Step) : Type 0 where
  pub end : Shared
  pub run : Steps c end
  pub shows : Shows end step.0
  pub writes : end.started ≡ c.started ++ writes_of step.1
  pub caller : end.caller ≡ resting
  pub strand : end.strand ≡ waiting

send-waits :
    (c : Shared) (s : WsSession) (is_open : Bool) (text : Bytes)
    → Shows c s
    → c.caller ≡ resting
    → c.strand ≡ waiting
    → sendable text ≡ true
    → (is_open ≡ false) ⊎ (s.is_send_busy ≡ true)
    → Does c s (send is_open s text)
send-waits c s is_open text shows k w taken waits =
    let waits_too : (is_open ≡ false) ⊎ (c.is_send_busy ≡ true) = elim waits [
      | inl shut ↦ inl shut
      | inr busy ↦ inr (shows.busy ∙ busy)
    ] in
    rw (send-queued is_open s text taken waits) (record {
      end = record c {
        send_queue = c.send_queue ++ text ∷ [];
        taken = c.taken ++ text ∷ [];
        caller = decides is_open c.is_send_busy (c.send_queue ++ text ∷ []);
      };
      run = next (next here (pushes text k taken)) (looks is_open refl);
      shows = record { queue = ap (λ q. q ++ text ∷ []) shows.queue; busy = shows.busy };
      writes = sym (append-nil c.started);
      caller = decides-resting is_open c.is_send_busy (c.send_queue ++ text ∷ []) waits_too;
      strand = w;
    })

send-writes :
    (c : Shared) (s : WsSession) (text front : Bytes) (rest : List Bytes)
    → Shows c s
    → c.caller ≡ resting
    → c.strand ≡ waiting
    → sendable text ≡ true
    → s.is_send_busy ≡ false
    → s.send_queue ++ text ∷ [] ≡ front ∷ rest
    → Does c s (send true s text)
send-writes c s text front rest shows k w taken free e =
    rw (send-started s text taken free e) (record {
      end = record c {
        send_queue = c.send_queue ++ text ∷ [];
        taken = c.taken ++ text ∷ [];
        is_send_busy = true;
        in_flight = c.in_flight ++ front ∷ [];
        started = c.started ++ front ∷ [];
        caller = resting;
      };
      run =
          let q = ap (λ q. q ++ text ∷ []) shows.queue ∙ e in
          next
            (next (next (next here (pushes text k taken)) (looks true refl))
              (claims rw (shows.busy ∙ free, q) refl))
            (starts front rest refl q);
      shows = record { queue = ap (λ q. q ++ text ∷ []) shows.queue; busy = refl };
      writes = refl;
      caller = refl;
      strand = w;
    })

-- Of a message that `send` takes, the statements of `send`, one after another, do what it does.
send_alone :
    (c : Shared) (s : WsSession) (is_open : Bool) (text : Bytes)
    → Shows c s
    → c.caller ≡ resting
    → c.strand ≡ waiting
    → sendable text ≡ true
    → Does c s (send is_open s text)
send_alone c s is_open text shows k w taken = elim (open-cases is_open s.is_send_busy) [
  | inl waits ↦ send-waits c s is_open text shows k w taken waits
  | inr (opened, free) ↦
      let (front, rest, e) = snoc-cons s.send_queue text in
      rw opened (send-writes c s text front rest shows k w taken free e)
]

-- A write has completed.
abbrev behind : Shared → List Bytes → Shared
behind c others = record c {
  in_flight = others;
  send_queue = erase_first c.send_queue;
  strand = erased;
}

on_write-ends :
    (c : Shared) (s : WsSession) (text : Bytes) (others : List Bytes)
    → Shows c s
    → c.caller ≡ resting
    → c.strand ≡ waiting
    → c.in_flight ≡ text ∷ others
    → (queue : List Bytes) → s.send_queue ≡ queue
    → erase_first queue ≡ []
    → Does c s (record s { send_queue = []; is_send_busy = false }, [])
on_write-ends c s text others shows k w f queue e ends =
    let rest : erase_first c.send_queue ≡ [] = ap erase_first (shows.queue ∙ e) ∙ ends in
    record {
      end = record (behind c others) { is_send_busy = false; strand = waiting };
      run = next (next (next here (finishes text others w f)) (tests refl)) (frees (rw rest refl));
      shows = record { queue = rest; busy = refl };
      writes = sym (append-nil c.started);
      caller = k;
      strand = refl;
    }

on_write-goes_on :
    (c : Shared) (s : WsSession) (text : Bytes) (others : List Bytes) (m front : Bytes)
    (rest : List Bytes)
    → Shows c s
    → c.caller ≡ resting
    → c.strand ≡ waiting
    → c.in_flight ≡ text ∷ others
    → s.send_queue ≡ m ∷ front ∷ rest
    → Does c s (record s { send_queue = front ∷ rest }, start_write front ∷ [])
on_write-goes_on c s text others m front rest shows k w f e =
    let left : erase_first c.send_queue ≡ front ∷ rest = ap erase_first (shows.queue ∙ e) in
    record {
      end = record (behind c others) {
        in_flight = others ++ front ∷ [];
        started = c.started ++ front ∷ [];
        strand = waiting;
      };
      run =
          next (next (next here (finishes text others w f)) (tests refl))
            (goes_on front rest (rw left refl) left);
      shows = record { queue = left; busy = shows.busy };
      writes = refl;
      caller = k;
      strand = refl;
    }

on_write_alone :
    (c : Shared) (s : WsSession) (text : Bytes) (others : List Bytes) (m : Bytes)
    → Shows c s
    → c.caller ≡ resting
    → c.strand ≡ waiting
    → c.in_flight ≡ text ∷ others
    → (rest : List Bytes) → s.send_queue ≡ m ∷ rest
    → Does c s (on_write true success s)
on_write_alone c s text others m shows k w f [] e =
    rw (on_write-last s e) (on_write-ends c s text others shows k w f (m ∷ []) e refl)
on_write_alone c s text others m shows k w f (front ∷ rest) e =
    rw (on_write-next s e) (on_write-goes_on c s text others m front rest shows k w f e)

-- Where neither thread is in its function and the queue and the flag are those of a session, the
-- statements of `send`, for a message that it takes, lead to the queue and the flag that `send` as one
-- step leads to, and start the writes that it starts; and so do those of `on_write`, for a write that
-- has completed while its message is the first of the queue and the socket is open.
pub statements_alone :
    (c : Shared) (s : WsSession)
    → Shows c s
    → c.caller ≡ resting
    → c.strand ≡ waiting
    → ((is_open : Bool) (text : Bytes) → sendable text ≡ true → Does c s (send is_open s text))
      × ((m : Bytes) (others rest : List Bytes)
          → c.in_flight ≡ m ∷ others
          → s.send_queue ≡ m ∷ rest
          → Does c s (on_write true success s))
statements_alone c s shows k w = (
  λ is_open text taken. send_alone c s is_open text shows k w taken,
  λ m others rest f e. on_write_alone c s m others m shows k w f rest e,
)
