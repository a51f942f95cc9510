-- ===== src/WsSession/Writes.antt =====
-- The send queue of net/websockets/WsSession.cpp: one write at a time, in the order of `send`.
use boost_server_example.Base.{
  ◌≤◌, ◌≡◌, ◌⊎◌, inl, inr, refl, sym, ap, ◌∙◌, Bool, true, false, not, List, [], ◌∷◌, ◌++◌, Bytes,
  if◌then◌else◌, append_assoc, arith, length, Bool-cases,
}
use boost_server_example.Callbacks.{Callbacks}
use boost_server_example.WsSession.{
  WsSession, Call, Callback, sendable, enqueue, write_front, start_write, send, new_session,
  connect_as_client,
}
use boost_server_example.WsSession.Quiet.{run_as_server-Quiet}
use boost_server_example.WsSession.Kinds.{Kind, quietly, sending, writing, Move-Kind}
use boost_server_example.WsSession.Writing.{
  Writing, idle, flying, stuck, Same-Writing, Quiet-Same, silent-log, on_write-Writing,
}
use boost_server_example.WsSession.Conn.{
  Conn, Start, as_server, as_client, Reach, start, later, after, writes_of, writes_of-append, fresh,
}

send-refused :
    (is_open : Bool) (s : WsSession) (text : Bytes)
    → sendable text ≡ false
    → send is_open s text ≡ (s, [])
unfolding send
send-refused is_open s text h = rw h

pub send-queued :
    (is_open : Bool) (s : WsSession) (text : Bytes)
    → sendable text ≡ true
    → (is_open ≡ false) ⊎ (s.is_send_busy ≡ true)
    → send is_open s text ≡ (enqueue text s, [])
unfolding send
send-queued is_open s text h (inl shut) = rw (h, shut)
send-queued false s text h (inr busy) = rw h
send-queued true s text h (inr busy) = rw h (go (s.send_queue ++ text ∷ []))
  where
    go : (q : List Bytes) → write_front q (enqueue text s) ≡ (enqueue text s, [])
    go [] = refl
    go (x ∷ q) =
        ap
          (λ b.
            if not b
            then (record (enqueue text s) { is_send_busy = true }, start_write x ∷ [])
            else (enqueue text s, []))
          busy

pub send-started :
    (s : WsSession) (text : Bytes) {front : Bytes} {rest : List Bytes}
    → sendable text ≡ true
    → s.is_send_busy ≡ false
    → s.send_queue ++ text ∷ [] ≡ front ∷ rest
    → send true s text ≡ (
      record s { send_queue = s.send_queue ++ text ∷ []; is_send_busy = true },
      start_write front ∷ [],
    )
unfolding send
send-started s text {front} h free e = rw h (
    ap (λ q. write_front q (enqueue text s)) e
    ∙ ap
        (λ b.
          if not b
          then (record (enqueue text s) { is_send_busy = true }, start_write front ∷ [])
          else (enqueue text s, []))
        free)

pub snoc-cons {ℓ} :
    {A : Type ℓ} (xs : List A) (x : A) → (y : A) × (ys : List A) × (xs ++ x ∷ [] ≡ y ∷ ys)
snoc-cons [] x = (x, [], refl)
snoc-cons (y ∷ ys) x = (y, ys ++ x ∷ [], refl)

pub open-cases : (a b : Bool) → ((a ≡ false) ⊎ (b ≡ true)) ⊎ ((a ≡ true) × (b ≡ false))
open-cases a b = ground arith

module _ (c : Conn) (text : Bytes) where
  abbrev with_taken : WsSession × List Call → List Bytes → Conn
  with_taken r taken = record (after c c.pending r) { taken = taken }

  longer :
      (gone : List Bytes)
      → c.taken ≡ gone ++ c.session.send_queue
      → c.taken ++ text ∷ [] ≡ gone ++ (c.session.send_queue ++ text ∷ [])
  longer gone tk = ap (λ q. q ++ text ∷ []) tk ∙ append_assoc gone c.session.send_queue (text ∷ [])

  queued-Writing :
      Writing c → Writing (with_taken (enqueue text c.session, []) (c.taken ++ text ∷ []))
  queued-Writing (idle gone b w st tk) =
      idle gone b w (silent-log c.log [] refl ∙ st) (longer gone tk)
  queued-Writing (flying gone m rest b e w st tk) =
      flying gone m (rest ++ text ∷ []) b (ap (λ q. q ++ text ∷ []) e) w
        (silent-log c.log [] refl ∙ st) (longer gone tk)
  queued-Writing (stuck gone m rest b e w st tk) =
      stuck gone m (rest ++ text ∷ []) b (ap (λ q. q ++ text ∷ []) e) w
        (silent-log c.log [] refl ∙ st) (longer gone tk)

  started-Writing :
      (front : Bytes) (rest : List Bytes)
      → c.session.is_send_busy ≡ false
      → c.session.send_queue ++ text ∷ [] ≡ front ∷ rest
      → Writing c
      → Writing (
          with_taken
            (
              record c.session {
                send_queue = c.session.send_queue ++ text ∷ [];
                is_send_busy = true;
              },
              start_write front ∷ [],
            )
            (c.taken ++ text ∷ []))
  started-Writing front rest b' e' (idle gone b w st tk) =
      flying gone front rest refl e' (ap (λ q. q ++ front ∷ []) w)
        (writes_of-append c.log (start_write front ∷ []) ∙ ap (λ xs. xs ++ front ∷ []) st)
        (longer gone tk)
  started-Writing front rest b' e' (flying gone m r b e w st tk) = cc
  started-Writing front rest b' e' (stuck gone m r b e w st tk) = cc

  send-Writing :
      (is_open : Bool)
      → Writing c
      → Writing (
          with_taken
            (send is_open c.session text)
            (if sendable text then c.taken ++ text ∷ [] else c.taken))
  send-Writing is_open v = elim (Bool-cases (sendable text)) [
    | inr refused ↦
        rw (refused, send-refused is_open c.session text refused)
          (Same-Writing
            (Quiet-Same c c.pending c.session [] refl
              (record { queue = refl; busy = refl; silent = refl }))
            v)
    | inl taken ↦ elim (open-cases is_open c.session.is_send_busy) [
      | inl waits ↦ rw (taken, send-queued is_open c.session text taken waits) (queued-Writing v)
      | inr (opened, free) ↦
          let (front, rest, e) = snoc-cons c.session.send_queue text in
          rw (taken, opened, send-started c.session text taken free e)
            (started-Writing front rest free e v)
    ]
  ]

regroup :
    {xs : List Bytes} (gone : List Bytes) (m : Bytes) (rest : List Bytes)
    → xs ≡ gone ++ m ∷ []
    → gone ++ (m ∷ rest) ≡ xs ++ rest
regroup gone m rest st = rw st (sym (append_assoc gone (m ∷ []) rest))

-- Every step keeps the session's account of its writes.
Kind-Writing : {c d : Conn} → Kind c d → Writing c → Writing d
Kind-Writing (quietly q) v = Same-Writing q v
Kind-Writing {c} (sending is_open text) v = send-Writing c text is_open v
Kind-Writing {c} (writing text others is_open ec h) v =
    on_write-Writing c text others h is_open ec v

module _ (callbacks : Callbacks Callback) where
  Start-Writing : {c : Conn} → Start callbacks c → Writing c
  Start-Writing (as_server name id is_open now e) = rw e (
      Same-Writing
        (Quiet-Same (fresh true (new_session name id)) _ _ _ refl
          (run_as_server-Quiet is_open now (new_session name id)))
        (unfold new_session in idle [] refl refl refl refl))
  Start-Writing (as_client name id host port e) =
      rw e (unfold new_session connect_as_client in idle [] refl refl refl refl)

  pub Reach-Writing : {c : Conn} → Reach callbacks c → Writing c
  Reach-Writing (start s) = Start-Writing s
  Reach-Writing (later r m) = Kind-Writing (Move-Kind callbacks m) (Reach-Writing r)

  -- In every state that a session can reach, at most one write is under way, and the messages whose
  -- write was started are, in order, the first of those that `send` took: none is skipped,
  -- reordered or written twice.
  pub writes_in_order :
      {c : Conn}
      → Reach callbacks c
      → (length c.pending.writes ≤ 1)
        × ((waiting : List Bytes) × (c.taken ≡ writes_of c.log ++ waiting))
  writes_in_order r = account (Reach-Writing r)
    where
      account :
          {c : Conn}
          → Writing c
          → (length c.pending.writes ≤ 1)
            × ((waiting : List Bytes) × (c.taken ≡ writes_of c.log ++ waiting))
      account {c} (idle gone b w st tk) = (
        ground arith,
        (c.session.send_queue, tk ∙ ap (λ xs. xs ++ c.session.send_queue) (sym st)),
      )
      account (flying gone m rest b e w st tk) =
          (ground arith, (rest, tk ∙ ap (◌++◌ gone) e ∙ regroup gone m rest st))
      account (stuck gone m rest b e w st tk) =
          (ground arith, (rest, tk ∙ ap (◌++◌ gone) e ∙ regroup gone m rest st))
