-- ===== src/WsSession/Interleaved/Phase.antt =====
-- Where the two threads stand, and what they own then: the phases of the writes of a session.
use boost_server_example.Base.{
  ◌≡◌, refl, sym, ap, ◌∙◌, Bool, true, false, List, [], ◌∷◌, ◌++◌, Bytes, append_assoc,
  if◌then◌else◌,
}
use boost_server_example.WsSession.Interleaved.{
  Caller, resting, pushed, starting, claimed, Strand, waiting, erased, more, emptied, Shared,
  is_empty, decides,
}

-- The queue has a front.
abbrev pub HasFront : List Bytes → Type 0
HasFront queue = (front : Bytes) × (rest : List Bytes) × (queue ≡ front ∷ rest)

-- The caller while the flag is down.
abbrev pub Free : Caller → List Bytes → Type 0
Free starting queue = HasFront queue
Free claimed queue = ⊥
Free _ queue = Unit {0}

-- The caller while another holds the flag.
abbrev pub Held : Caller → Type 0
Held resting = Unit {0}
Held pushed = Unit {0}
Held _ = ⊥

-- The strand behind a write.
abbrev pub Behind : Strand → List Bytes → Type 0
Behind waiting queue = ⊥
Behind more queue = HasFront queue
Behind _ queue = Unit {0}

pub data Phase (c : Shared) : Type 0 where
  idle :
      c.is_send_busy ≡ false
      → c.strand ≡ waiting
      → c.in_flight ≡ []
      → c.taken ≡ c.started ++ c.send_queue
      → Free c.caller c.send_queue
      → Phase c
  claiming :
      c.is_send_busy ≡ true
      → c.strand ≡ waiting
      → c.in_flight ≡ []
      → c.taken ≡ c.started ++ c.send_queue
      → c.caller ≡ claimed
      → HasFront c.send_queue
      → Phase c
  flying :
      (m : Bytes) (rest : List Bytes)
      → c.is_send_busy ≡ true
      → c.strand ≡ waiting
      → c.in_flight ≡ m ∷ []
      → c.send_queue ≡ m ∷ rest
      → c.taken ≡ c.started ++ rest
      → Held c.caller
      → Phase c
  behind :
      c.is_send_busy ≡ true
      → c.in_flight ≡ []
      → c.taken ≡ c.started ++ c.send_queue
      → Behind c.strand c.send_queue
      → Held c.caller
      → Phase c
  stuck :
      (m : Bytes) (rest : List Bytes)
      → c.is_send_busy ≡ true
      → c.strand ≡ waiting
      → c.in_flight ≡ []
      → c.send_queue ≡ m ∷ rest
      → c.taken ≡ c.started ++ rest
      → Held c.caller
      → Phase c

pub longer :
    {taken : List Bytes} (started queue : List Bytes) (text : Bytes)
    → taken ≡ started ++ queue
    → taken ++ text ∷ [] ≡ started ++ (queue ++ text ∷ [])
longer started queue text e = ap (λ xs. xs ++ text ∷ []) e ∙ append_assoc started queue (text ∷ [])

pub HasFront-snoc : (queue : List Bytes) (text : Bytes) → HasFront (queue ++ text ∷ [])
HasFront-snoc [] text = (text, [], refl)
HasFront-snoc (m ∷ ms) text = (m, ms ++ text ∷ [], refl)

pub Behind-snoc :
    (s : Strand) (queue : List Bytes) (text : Bytes)
    → Behind s queue
    → Behind s (queue ++ text ∷ [])
Behind-snoc waiting queue text h = h
Behind-snoc erased queue text h = tt
Behind-snoc more queue text h = HasFront-snoc queue text
Behind-snoc emptied queue text h = tt

pub decides-Free :
    (is_open busy : Bool) (queue : List Bytes) → Free (decides is_open busy queue) queue
decides-Free false busy queue = tt
decides-Free true true queue = tt
decides-Free true false [] = tt
decides-Free true false (m ∷ ms) = (m, ms, refl)

pub decides-Held :
    (is_open : Bool) {busy : Bool} (queue : List Bytes)
    → busy ≡ true
    → Held (decides is_open busy queue)
decides-Held false queue b = tt
decides-Held true queue b = rw b tt

pub tests-Behind : (queue : List Bytes) → Behind (if is_empty queue then emptied else more) queue
tests-Behind [] = tt
tests-Behind (m ∷ ms) = (m, ms, refl)

-- The first message of a queue was written.
pub moved :
    {taken : List Bytes} (started : List Bytes) (front : Bytes) (rest queue : List Bytes)
    → taken ≡ started ++ queue
    → queue ≡ front ∷ rest
    → taken ≡ (started ++ front ∷ []) ++ rest
moved started front rest queue t q =
    t ∙ ap (◌++◌ started) q ∙ sym (append_assoc started (front ∷ []) rest)
