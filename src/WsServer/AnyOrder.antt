-- ===== src/WsServer/AnyOrder.antt =====
-- The loops over all sessions of net/websockets/WsServer.cpp walk a `std::unordered_map`: what they do
-- does not depend on its order.
use boost_server_example.Base.{
  ℕ, ◌≡◌, refl, sym, ap, ◌∙◌, Bool, true, false, List, [], ◌∷◌, ◌++◌, map, Option, none, some,
  Bytes, get_elem?, ◌==◌, if◌then◌else◌, append-nil, arith, Bool-cases, inl, inr,
}
use boost_server_example.Base.Result.{ok}
use boost_server_example.SessionManager.{Sessions}
use boost_server_example.SessionManager.Laws.{Valid}
use boost_server_example.SessionManager.Same.{SameSessions}
use boost_server_example.WsCallbacks.{Dates, dispatch_session}
use boost_server_example.WsServer.{WsServer, send_to_all, handle_incoming_messages}
use boost_server_example.WsServer.Each.{calls_at, calls_of, registered-own, registered-other}
use boost_server_example.WsServer.Owned.{
  registered, registered-absent, found_unique, Owned, WellFormed,
}
use boost_server_example.WsServer.Sending.{send_to_all_lem, handle_incoming_messages_lem}
use boost_server_example.WsSession.{WsSession, Step, Call, send}

-- The calls that a session made, in order.
abbrev pub calls_to : ℕ → List (ℕ × Call) → List Call
calls_to p [] = []
calls_to p ((q, call) ∷ rest) = if q == p then call ∷ calls_to p rest else calls_to p rest

calls_to-append :
    (p : ℕ) (xs ys : List (ℕ × Call)) → calls_to p (xs ++ ys) ≡ calls_to p xs ++ calls_to p ys
calls_to-append p [] ys = refl
calls_to-append p ((q, call) ∷ xs) ys = ground (arith, calls_to-append p xs ys)

calls_to-map :
    (p q : ℕ) (calls : List Call)
    → calls_to p (map (λ c. (q, c)) calls) ≡ (if q == p then calls else [])
calls_to-map p q [] = ground arith
calls_to-map p q (call ∷ calls) = ground (arith, calls_to-map p q calls)

module _ (g : ℕ → WsSession → Step) where
  -- The calls of one session, if it is registered.
  abbrev own_calls : ℕ → WsSession → Sessions ℕ → List Call
  own_calls p s m = if registered m s.id p then (g p s).1 else []

  calls_to-of :
      (m : Sessions ℕ) (store : List WsSession) (p : ℕ) (s : WsSession)
      → Valid m
      → Owned m store
      → get_elem? store p ≡ some s
      → calls_to p (calls_of g m store) ≡ own_calls p s m
  calls_to-of [] store p s v o e = rw (registered-absent [] s.id p refl) refl
  calls_to-of ((k, none) ∷ rest) store p s v o e = elim v [ ]
  calls_to-of ((k, some q) ∷ rest) store p s (fresh, v) ((t, found, named), o) e =
      let head : calls_to p (calls_at g q (get_elem? store q))
          ≡ (if q == p then (g q t).1 else []) =
        ap (λ o. calls_to p (calls_at g q o)) found ∙ calls_to-map p q (g q t).1 in
      let others = calls_to-of rest store p s v o e in
      calls_to-append p (calls_at g q (get_elem? store q)) (calls_of g rest store)
      ∙ elim (Bool-cases (p == q)) [
        | inl here ↦
            let one : q ≡ p = ground arith in
            let same : s ≡ t = found_unique store p q e found (ground arith) in
            let (own, gone) =
              registered-own k q rest fresh s.id p (ap (λ (u : WsSession). u.id) same ∙ named)
                here in
            rw (head, others, own, gone, one, same) (ground (arith, append-nil (g p t).1))
        | inr there ↦
            let apart : (q == p) ≡ false = ground arith in
            rw (head, others, apart, registered-other k q rest fresh s.id p there) refl
      ]

  registered-same :
      (m n : Sessions ℕ) (id : Bytes) (p : ℕ)
      → SameSessions m n
      → registered m id p ≡ registered n id p
  registered-same m n id p same = ap (found_at p) (same id)
    where
      found_at : ℕ → Option ℕ → Bool
      found_at p o = elim o [ none ↦ false | some q ↦ q == p ]

  agree-calls :
      (before : List (ℕ × Call)) (m n : Sessions ℕ) (store : List WsSession) (p : ℕ) (s : WsSession)
      → Valid m × Owned m store
      → Valid n × Owned n store
      → SameSessions m n
      → get_elem? store p ≡ some s
      → calls_to p (before ++ calls_of g m store) ≡ calls_to p (before ++ calls_of g n store)
  agree-calls before m n store p s (v, o) (w, u) same e =
      let one : calls_to p (calls_of g m store) ≡ calls_to p (calls_of g n store) =
        calls_to-of m store p s v o e
        ∙ ap (λ b. if b then (g p s).1 else []) (registered-same m n s.id p same)
        ∙ sym (calls_to-of n store p s w u e) in
      calls_to-append p before (calls_of g m store)
      ∙ ap (◌++◌ (calls_to p before)) one
      ∙ sym (calls_to-append p before (calls_of g n store))

-- Each session of `server` is left in the same state, and has made the same calls, in order.
abbrev pub Alike : WsServer → WsServer → WsServer → Type 0
Alike server a b =
    (p : ℕ) (s : WsSession)
    → get_elem? server.store p ≡ some s
    → (get_elem? a.store p ≡ get_elem? b.store p) × (calls_to p a.calls ≡ calls_to p b.calls)

-- The server with its registry in another order.
abbrev pub reordered : WsServer → Sessions ℕ → WsServer
reordered server m = record server { sessions = m }

module _ (server : WsServer) (m : Sessions ℕ) (w : WellFormed server)
    (u : WellFormed (reordered server m)) (same : SameSessions server.sessions m) where
  -- What a loop does in the one order and in the other.
  alike :
      (g : ℕ → WsSession → Step) (a b : WsServer)
      → a.calls ≡ server.calls ++ calls_of g server.sessions server.store
      → b.calls ≡ server.calls ++ calls_of g m server.store
      → ((p : ℕ) (s : WsSession)
          → get_elem? server.store p ≡ some s
          → get_elem? a.store p ≡ some (if registered server.sessions s.id p then (g p s).0 else s))
      → ((p : ℕ) (s : WsSession)
          → get_elem? server.store p ≡ some s
          → get_elem? b.store p ≡ some (if registered m s.id p then (g p s).0 else s))
      → Alike server a b
  alike g a b ca cb sa sb p s e = (
    sa p s e
        ∙ ap (λ r. some (if r then (g p s).0 else s))
            (registered-same g server.sessions m s.id p same)
        ∙ sym (sb p s e),
    ap (calls_to p) ca
        ∙ agree-calls g server.calls server.sessions m server.store p s (w.valid, w.owned)
            (u.valid, u.owned) same e
        ∙ ap (calls_to p) (sym cb),
  )

-- On a well-formed server, in whatever order the registry is walked, `sendToAll`, and, if the dispatch
-- of no registered session's queue faults, `handleIncomingMessages`, return, and they leave each session
-- in one state, with the same calls of it in the same order.
pub any_order :
    {Time : Type 0} (dates : Dates Time) (rounds fuel : ℕ) (is_open : ℕ → Bool) (message : Bytes)
    (server : WsServer) (m : Sessions ℕ) (dispatched : ℕ → WsSession → Step)
    → WellFormed server
    → WellFormed (reordered server m)
    → SameSessions server.sessions m
    → ((a : WsServer) × (b : WsServer) × (send_to_all is_open message server ≡ ok a)
        × (send_to_all is_open message (reordered server m) ≡ ok b)
        × Alike server a b)
      × (((p : ℕ) (s : WsSession)
            → get_elem? server.store p ≡ some s
            → registered server.sessions s.id p ≡ true
            → dispatch_session dates rounds fuel (is_open p) s ≡ ok (dispatched p s))
          → (a : WsServer) × (b : WsServer) × (handle_incoming_messages dates rounds fuel is_open
                server
              ≡ ok a)
            × (handle_incoming_messages dates rounds fuel is_open (reordered server m) ≡ ok b)
            × Alike server a b)
any_order dates rounds fuel is_open message server m dispatched w u same =
    let (a, run, kept, calls, stores) = send_to_all_lem is_open message server w in
    let (b, run', kept', calls', stores') =
      send_to_all_lem is_open message (reordered server m) u in
    (
      (
        a,
        b,
        run,
        run',
        alike server m w u same (λ p s. send (is_open p) s message) a b calls calls' stores stores',
      ),
      λ does.
          let (c, ran, held, made, kept_stores) =
            handle_incoming_messages_lem dates rounds fuel is_open server dispatched w does in
          let (d, ran', held', made', kept_stores') =
            handle_incoming_messages_lem dates rounds fuel is_open (reordered server m) dispatched u
              λ p s e r.
                does p s e (registered-same dispatched server.sessions m s.id p same ∙ r) in
          (
            c,
            d,
            ran,
            ran',
            alike server m w u same dispatched c d made made' kept_stores kept_stores',
          ),
    )
