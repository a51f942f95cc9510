-- ===== src/WsServer/Registry.antt =====
-- The registry of net/websockets/WsServer.cpp stays true to the sessions, whatever runs.
use boost_server_example.Base.{
  ℕ, ◌≡◌, refl, sym, ap, ◌∙◌, Bool, List, [], ◌∷◌, ◌++◌, none, some, Bytes, get_elem?, length,
  if◌then◌else◌, Bool-cases, inl, inr, get_elem?-length, get_elem?-set?, set?-lt, get_elem?-some,
  get_elem?-front,
}
use boost_server_example.Base.Result.{Result, ok}
use boost_server_example.SessionManager.{
  same_id, Sessions, get_sess_by_id, add_session, store_session, remove_sess_by_id,
}
use boost_server_example.SessionManager.Laws.{add_session_lem, remove_sess_by_id_lem, same_id-eq}
use boost_server_example.WsServer.{
  WsServer, perform, unregister, run_handler, accept_client, add_new_session,
}
use boost_server_example.WsServer.Owned.{Owned, WellFormed, Owned-step}
use boost_server_example.WsSession.{
  WsSession, Step, Call, unregister_session, new_session, run_as_server,
}

Owned-remove :
    (m : Sessions ℕ) (store : List WsSession) (id : Bytes)
    → Owned m store
    → Owned (remove_sess_by_id m id).0 store
unfolding remove_sess_by_id
Owned-remove [] store id o = tt
Owned-remove ((k, none) ∷ rest) store id o = elim o [ ]
Owned-remove ((k, some p) ∷ rest) store id (own, o) = elim (Bool-cases (same_id k id)) [
  | inl same ↦ rw same o
  | inr differs ↦ rw differs (own, Owned-remove rest store id o)
]

pub unregister-WellFormed :
    (id : Bytes) (server : WsServer) → WellFormed server → WellFormed (unregister id server)
unfolding unregister
unregister-WellFormed id server w = record {
  valid = (remove_sess_by_id_lem server.sessions id w.valid).1;
  owned = Owned-remove server.sessions server.store id w.owned;
}

perform-WellFormed :
    (p : ℕ) (calls : List Call) (server : WsServer)
    → WellFormed server
    → WellFormed (perform p calls server)
unfolding perform
perform-WellFormed p [] server w = w
perform-WellFormed p (unregister_session id ∷ rest) server w =
    perform-WellFormed p rest (unregister id server) (unregister-WellFormed id server w)
perform-WellFormed p (call ∷ rest) server w =
    perform-WellFormed p rest (record server { calls = server.calls ++ (p, call) ∷ [] })
      (record { valid = w.valid; owned = w.owned })

-- The registry once the calls of `unregisterSession` among `calls` are carried out.
abbrev pub unregistered : List Call → Sessions ℕ → Sessions ℕ
unregistered [] m = m
unregistered (unregister_session id ∷ rest) m = unregistered rest (remove_sess_by_id m id).0
unregistered (call ∷ rest) m = unregistered rest m

perform-sessions :
    (p : ℕ) (calls : List Call) (server : WsServer)
    → (perform p calls server).sessions ≡ unregistered calls server.sessions
unfolding perform unregister
perform-sessions p [] server = refl
perform-sessions p (unregister_session id ∷ rest) server =
    perform-sessions p rest (unregister id server)
perform-sessions p (call ∷ rest) server =
    perform-sessions p rest (record server { calls = server.calls ++ (p, call) ∷ [] })

-- A handler that keeps the id of its session keeps the registry true to the sessions, and takes the
-- sessions off it that the handler unregisters.
pub run_handler-WellFormed :
    (handler : WsSession → Result Step) (p : ℕ) (server : WsServer) (s : WsSession) (step : Step)
    → WellFormed server
    → get_elem? server.store p ≡ some s
    → handler s ≡ ok step
    → step.0.id ≡ s.id
    → (after : WsServer) × (run_handler handler p server ≡ ok after)
      × WellFormed after
      × (after.sessions ≡ unregistered step.1 server.sessions)
unfolding run_handler
run_handler-WellFormed handler p server s step w e h named =
    let (st, done) = set?-lt server.store p step.0 (get_elem?-some server.store p e) in
    (
      perform p step.1 (record server { store = st }),
      rw (e, h, done) refl,
      perform-WellFormed p step.1 (record server { store = st })
          (record {
            valid = w.valid;
            owned =
                Owned-step server.sessions server.store st p s step.0 e named
                  (λ j. get_elem?-set? server.store p step.0 j done) w.owned;
          }),
      perform-sessions p step.1 (record server { store = st }),
    )

Owned-more :
    (m : Sessions ℕ) (store more : List WsSession) → Owned m store → Owned m (store ++ more)
Owned-more [] store more o = tt
Owned-more ((k, none) ∷ rest) store more o = elim o [ ]
Owned-more ((k, some p) ∷ rest) store more ((s, e, named), o) =
    ((s, get_elem?-front store more p e, named), Owned-more rest store more o)

Owned-store :
    (m : Sessions ℕ) (store : List WsSession) (id : Bytes) (p : ℕ) (s : WsSession)
    → get_elem? store p ≡ some s
    → s.id ≡ id
    → Owned m store
    → Owned (store_session m id (some p)) store
unfolding store_session
Owned-store [] store id p s e named o = ((s, e, named), tt)
Owned-store ((k, none) ∷ rest) store id p s e named o = elim o [ ]
Owned-store ((k, some q) ∷ rest) store id p s e named (own, o) = elim (Bool-cases (same_id k id)) [
  | inl same ↦ rw same ((s, e, named ∙ sym (same_id-eq k id same)), o)
  | inr differs ↦ rw differs (own, Owned-store rest store id p s e named o)
]

finds_new :
    (queue_name id other : Bytes) (server : WsServer)
    → get_sess_by_id (add_new_session queue_name id server).sessions other ≡ (
        if same_id id other
        then some (length server.store)
        else get_sess_by_id server.sessions other)
unfolding add_new_session
finds_new queue_name id other server =
    (add_session_lem server.sessions id (length server.store)).2 other

pub add_new_session-WellFormed :
    (queue_name id : Bytes) (server : WsServer)
    → WellFormed server
    → WellFormed (add_new_session queue_name id server)
unfolding add_new_session
add_new_session-WellFormed queue_name id server w =
    let s : WsSession = new_session queue_name id in
    let p : ℕ = length server.store in
    let (null, made, finds, valid, count) = add_session_lem server.sessions id p in
    record {
      valid = valid w.valid;
      owned =
          unfold add_session in
          Owned-store server.sessions (server.store ++ s ∷ []) id p s
            (get_elem?-length server.store s) (unfold new_session in refl)
            (Owned-more server.sessions server.store (s ∷ []) w.owned);
    }

-- A client that is accepted gets a session of its own, which is found under its id from then on;
-- every other id finds the session that it found, and the registry stays true to the sessions.
pub accept_client-WellFormed :
    (queue_name id : Bytes) (is_open : ℕ → Bool) (now : ℕ) (server : WsServer)
    → WellFormed server
    → (after : WsServer) × (accept_client queue_name id is_open now server ≡ ok after)
      × WellFormed after
      × ((other : Bytes)
          → get_sess_by_id after.sessions other ≡ (
              if same_id id other
              then some (length server.store)
              else get_sess_by_id server.sessions other))
unfolding accept_client
accept_client-WellFormed queue_name id is_open now server w =
    let s : WsSession = new_session queue_name id in
    let p : ℕ = length server.store in
    let step : Step = run_as_server (is_open p) now s in
    let (after, run, good, gone) =
      run_handler-WellFormed (λ t. ok (run_as_server (is_open p) now t)) p
        (add_new_session queue_name id server) s step
        (add_new_session-WellFormed queue_name id server w)
        (unfold add_new_session in get_elem?-length server.store s) refl
        (unfold run_as_server new_session in refl) in
    (
      after,
      run,
      good,
      λ other.
          ap (λ m. get_sess_by_id m other) (gone ∙ (unfold run_as_server new_session in refl))
          ∙ finds_new queue_name id other server,
    )
