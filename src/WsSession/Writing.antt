-- ===== src/WsSession/Writing.antt =====
-- What a session of net/websockets/WsSession.cpp is writing, and what a completed write makes of it.
use boost_server_example.Base.{
  ◌≡◌, ◌≢◌, refl, sym, ap, subst, ◌∙◌, Bool, true, false, List, [], ◌∷◌, ◌++◌, Bytes, append_assoc,
  append-nil, arith,
}
use boost_server_example.WsSession.{
  WsSession, Call, ErrorCode, success, operation_aborted, closed, other, written, start_write,
  on_write,
}
use boost_server_example.WsSession.Quiet.{Quiet}
use boost_server_example.WsSession.Conn.{
  Pending, Conn, after, begin_calls, writes_of, writes_of-append, writes-begin_calls,
}

abbrev pub started : Conn → List Bytes
started c = writes_of c.log

-- What a session is writing. `gone` are the messages that were erased from the queue.
pub data Writing (c : Conn) : Type 0 where
  idle :
      (gone : List Bytes)
      → c.session.is_send_busy ≡ false
      → c.pending.writes ≡ []
      → started c ≡ gone
      → c.taken ≡ gone ++ c.session.send_queue
      → Writing c
  flying :
      (gone : List Bytes) (m : Bytes) (rest : List Bytes)
      → c.session.is_send_busy ≡ true
      → c.session.send_queue ≡ m ∷ rest
      → c.pending.writes ≡ m ∷ []
      → started c ≡ gone ++ m ∷ []
      → c.taken ≡ gone ++ c.session.send_queue
      → Writing c
  stuck :
      (gone : List Bytes) (m : Bytes) (rest : List Bytes)
      → c.session.is_send_busy ≡ true
      → c.session.send_queue ≡ m ∷ rest
      → c.pending.writes ≡ []
      → started c ≡ gone ++ m ∷ []
      → c.taken ≡ gone ++ c.session.send_queue
      → Writing c

pub silent-pending :
    (p : Pending) (calls : List Call)
    → writes_of calls ≡ []
    → (begin_calls calls p).writes ≡ p.writes
silent-pending p calls h = writes-begin_calls calls p ∙ rw h (append-nil p.writes)

pub silent-log :
    (log calls : List Call) → writes_of calls ≡ [] → writes_of (log ++ calls) ≡ writes_of log
silent-log log calls h = writes_of-append log calls ∙ rw h (append-nil (writes_of log))

-- Two states that agree on all that `Writing` speaks of.
pub record Same (c d : Conn) : Type 0 where
  pub queue : d.session.send_queue ≡ c.session.send_queue
  pub busy : d.session.is_send_busy ≡ c.session.is_send_busy
  pub flight : d.pending.writes ≡ c.pending.writes
  pub begun : started d ≡ started c
  pub took : d.taken ≡ c.taken

pub Same-Writing : {c d : Conn} → Same c d → Writing c → Writing d
Same-Writing q (idle gone b w st tk) =
    idle gone (q.busy ∙ b) (q.flight ∙ w) (q.begun ∙ st)
      (q.took ∙ tk ∙ ap (◌++◌ gone) (sym q.queue))
Same-Writing q (flying gone m rest b e w st tk) =
    flying gone m rest (q.busy ∙ b) (q.queue ∙ e) (q.flight ∙ w) (q.begun ∙ st)
      (q.took ∙ tk ∙ ap (◌++◌ gone) (sym q.queue))
Same-Writing q (stuck gone m rest b e w st tk) =
    stuck gone m rest (q.busy ∙ b) (q.queue ∙ e) (q.flight ∙ w) (q.begun ∙ st)
      (q.took ∙ tk ∙ ap (◌++◌ gone) (sym q.queue))

-- A handler that is quiet changes nothing of it.
pub Quiet-Same :
    (c : Conn) (p : Pending) (s : WsSession) (calls : List Call)
    → p.writes ≡ c.pending.writes
    → Quiet c.session (s, calls)
    → Same c (after c p (s, calls))
Quiet-Same c p s calls kept q = record {
  queue = q.queue;
  busy = q.busy;
  flight = silent-pending p calls q.silent ∙ kept;
  begun = silent-log c.log calls q.silent;
  took = refl;
}

pub on_write-last :
    (s : WsSession) {m : Bytes}
    → s.send_queue ≡ m ∷ []
    → on_write true success s ≡ (record s { send_queue = []; is_send_busy = false }, [])
unfolding on_write
on_write-last s e = ap (λ q. written q s) e

pub on_write-next :
    (s : WsSession) {m next : Bytes} {rest : List Bytes}
    → s.send_queue ≡ m ∷ next ∷ rest
    → on_write true success s ≡ (record s { send_queue = next ∷ rest }, start_write next ∷ [])
unfolding on_write
on_write-next s e = ap (λ q. written q s) e

-- A write that ends without success leaves the session stuck; one that succeeds takes its message
-- off the queue and starts the next.
module _ (c : Conn) (text : Bytes) (others : List Bytes)
    (w : c.pending.writes ≡ text ∷ others) where
  abbrev pub ended : Bool → ErrorCode → Conn
  ended is_open ec = after c (record c.pending { writes = others }) (on_write is_open ec c.session)

  on_write-failed :
      (is_open : Bool) (ec : ErrorCode) → ec ≢ success → Writing c → Writing (ended is_open ec)
  unfolding on_write
  on_write-failed is_open success ne v = absurd (ne refl)
  on_write-failed is_open ec ne (idle gone b w' st tk) = cc
  on_write-failed is_open ec ne (flying gone m rest b e w' st tk) =
      stuck gone m rest b e (ground arith)
        (silent-log c.log (on_write is_open ec c.session).1 refl ∙ st) tk
  on_write-failed is_open ec ne (stuck gone m rest b e w' st tk) = cc

  on_write-success : (is_open : Bool) → Writing c → Writing (ended is_open success)
  on_write-success is_open (idle gone b w' st tk) = cc
  on_write-success false (flying gone m rest b e w' st tk) =
      unfold on_write in stuck gone m rest b e (ground arith) (silent-log c.log [] refl ∙ st) tk
  on_write-success true (flying gone m [] b e w' st tk) =
      subst (λ r. Writing (after c (record c.pending { writes = others }) r))
        (sym (on_write-last c.session e))
        (idle (gone ++ m ∷ []) refl (ground arith) (silent-log c.log [] refl ∙ st)
          (tk ∙ ap (◌++◌ gone) e ∙ sym (append-nil (gone ++ m ∷ []))))
  on_write-success true (flying gone m (next ∷ rest) b e w' st tk) =
      subst (λ r. Writing (after c (record c.pending { writes = others }) r))
        (sym (on_write-next c.session e))
        (flying (gone ++ m ∷ []) next rest b refl (ground arith)
          (writes_of-append c.log (start_write next ∷ []) ∙ ap (λ xs. xs ++ next ∷ []) st)
          (tk ∙ ap (◌++◌ gone) e ∙ sym (append_assoc gone (m ∷ []) (next ∷ rest))))
  on_write-success is_open (stuck gone m rest b e w' st tk) = cc

  pub on_write-Writing : (is_open : Bool) (ec : ErrorCode) → Writing c → Writing (ended is_open ec)
  on_write-Writing is_open success v = on_write-success is_open v
  on_write-Writing is_open operation_aborted v =
      on_write-failed is_open operation_aborted (λ e. cc) v
  on_write-Writing is_open closed v = on_write-failed is_open closed (λ e. cc) v
  on_write-Writing is_open (other n) v = on_write-failed is_open (other n) (λ e. cc) v
