-- ===== src/WsSession/Stall.antt =====
-- What becomes of a session of net/websockets/WsSession.cpp once a write has failed.
use boost_server_example.Base.{◌≡◌, ◌≢◌, refl, ◌∙◌, Bool, true, List, [], ◌∷◌, Bytes, arith}
use boost_server_example.Callbacks.{Callbacks}
use boost_server_example.WsSession.{Callback, ErrorCode, success, on_write, send}
use boost_server_example.WsSession.Writes.{Reach-Writing}
use boost_server_example.WsSession.Kinds.{Kind, quietly, sending, writing, Move-Kind}
use boost_server_example.WsSession.Writing.{
  Writing, idle, flying, stuck, started, Same, silent-log, ended,
}
use boost_server_example.WsSession.Conn.{Conn, Move, Reach, after, writes_of}

-- Steps one after another.
pub data Moves (callbacks : Callbacks Callback) (c : Conn) : Conn → Type 0 where
  here : Moves callbacks c c
  next : {d e : Conn} → Moves callbacks c d → Move callbacks d e → Moves callbacks c e

-- The flag is set, and no write is under way that could take it back; `begun` was started.
record Stalled (begun : List Bytes) (c : Conn) : Type 0 where
  busy : c.session.is_send_busy ≡ true
  flight : c.pending.writes ≡ []
  log : started c ≡ begun

module _ (begun : List Bytes) where
  Same-Stalled : {c d : Conn} → Same c d → Stalled begun c → Stalled begun d
  Same-Stalled q v = record {
    busy = q.busy ∙ v.busy;
    flight = q.flight ∙ v.flight;
    log = q.begun ∙ v.log;
  }

  send-Stalled :
      (c : Conn) (is_open : Bool) (text : Bytes) (taken : List Bytes)
      → Stalled begun c
      → Stalled begun (record (after c c.pending (send is_open c.session text)) { taken = taken })
  unfolding send
  send-Stalled c is_open text taken v = ground (arith, silent-log c.log [] refl)

  Kind-Stalled : {c d : Conn} → Kind c d → Stalled begun c → Stalled begun d
  Kind-Stalled (quietly q) v = Same-Stalled q v
  Kind-Stalled {c} (sending is_open text) v = send-Stalled c is_open text _ v
  Kind-Stalled {c} (writing text others is_open ec h) v = cc (v.flight)

  Moves-Stalled :
      {callbacks : Callbacks Callback} {c d : Conn}
      → Moves callbacks c d
      → Stalled begun c
      → Stalled begun d
  Moves-Stalled here v = v
  Moves-Stalled {callbacks} (next r m) v = Kind-Stalled (Move-Kind callbacks m) (Moves-Stalled r v)

failed-Stalled :
    (c : Conn) (text : Bytes) (others : List Bytes) (is_open : Bool) (ec : ErrorCode)
    → (w : c.pending.writes ≡ text ∷ others) → ec ≢ success
    → Writing c
    → Stalled (started c) (ended c text others w is_open ec)
unfolding on_write
failed-Stalled c text others is_open success w ne v = absurd (ne refl)
failed-Stalled c text others is_open ec w ne (idle gone b w' st tk) = cc
failed-Stalled c text others is_open ec w ne (flying gone m rest b e w' st tk) = record {
  busy = b;
  flight = ground arith;
  log = silent-log c.log (on_write is_open ec c.session).1 refl;
}
failed-Stalled c text others is_open ec w ne (stuck gone m rest b e w' st tk) = cc

-- Once a write has completed without success, no write is ever started again in that session,
-- whatever is sent: `isSendBusy_` stays set, and only a write that completes could clear it.
pub failed_write_stalls :
    (callbacks : Callbacks Callback) {c d : Conn} (text : Bytes) (others : List Bytes)
    (is_open : Bool) (ec : ErrorCode)
    → Reach callbacks c
    → c.pending.writes ≡ text ∷ others
    → ec ≢ success
    → Moves callbacks
        (after c (record c.pending { writes = others }) (on_write is_open ec c.session))
        d
    → (writes_of d.log ≡ writes_of c.log) × (d.pending.writes ≡ [])
failed_write_stalls callbacks {c} text others is_open ec r w ne moves =
    let v =
      Moves-Stalled (started c) moves
        (failed-Stalled c text others is_open ec w ne (Reach-Writing callbacks r)) in
    (v.log, v.flight)
