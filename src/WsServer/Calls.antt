-- ===== src/WsServer/Calls.antt =====
-- What a handler that unregisters no session does to the server of net/websockets/WsServer.cpp.
use boost_server_example.Base.{
  ℕ, ◌≡◌, refl, sym, ◌∙◌, Bool, true, false, List, [], ◌∷◌, ◌++◌, some, map, get_elem?, set?,
  set?-lt, get_elem?-some, get_elem?-set?, ◌==◌, if◌then◌else◌, append_assoc, append-nil, ap,
}
use boost_server_example.Base.Result.{Result, ok}
use boost_server_example.WsServer.{WsServer, perform, run_handler}
use boost_server_example.WsSession.{WsSession, Step, Call, unregister_session}

-- Every call is one of Asio or Beast.
abbrev pub outward : List Call → Bool
outward [] = true
outward (unregister_session id ∷ rest) = false
outward (call ∷ rest) = outward rest

abbrev pub called : ℕ → List Call → WsServer → WsServer
called p calls server = record server { calls = server.calls ++ map (λ c. (p, c)) calls }

perform-outward :
    (p : ℕ) (calls : List Call) (server : WsServer)
    → outward calls ≡ true
    → perform p calls server ≡ called p calls server
unfolding perform
perform-outward p [] server h = ap (λ cs. record server { calls = cs }) (sym (append-nil _))
perform-outward p (unregister_session id ∷ rest) server h = cc
perform-outward p (call ∷ rest) server h =
    perform-outward p rest (called p (call ∷ []) server) h
    ∙ ap (λ cs. record server { calls = cs })
        (append_assoc server.calls ((p, call) ∷ []) (map (λ c. (p, c)) rest))

pub run_handler-outward :
    (handler : WsSession → Result Step) (p : ℕ) (server : WsServer) (s : WsSession) (step : Step)
    → get_elem? server.store p ≡ some s
    → handler s ≡ ok step
    → outward step.1 ≡ true
    → (store : List WsSession) × (set? server.store p step.0 ≡ some store)
      × (run_handler handler p server ≡ ok (called p step.1 (record server { store = store })))
unfolding run_handler
run_handler-outward handler p server s step e h quiet =
    let (store, done) = set?-lt server.store p step.0 (get_elem?-some server.store p e) in
    (
      store,
      done,
      rw (e, h, done) (ap ok (perform-outward p step.1 (record server { store = store }) quiet)),
    )

-- The same, read off the server: its sessions by id stay, the calls come behind those made before,
-- and the store changes at one place.
pub run_handler-acts :
    (handler : WsSession → Result Step) (p : ℕ) (server : WsServer) (s : WsSession) (step : Step)
    → get_elem? server.store p ≡ some s
    → handler s ≡ ok step
    → outward step.1 ≡ true
    → (after : WsServer) × (run_handler handler p server ≡ ok after)
      × (after.sessions ≡ server.sessions)
      × (after.calls ≡ server.calls ++ map (λ c. (p, c)) step.1)
      × ((j : ℕ)
          → get_elem? after.store j ≡ (if j == p then some step.0 else get_elem? server.store j))
run_handler-acts handler p server s step e h quiet =
    let (store, done, run) = run_handler-outward handler p server s step e h quiet in
    (
      called p step.1 (record server { store = store }),
      run,
      refl,
      refl,
      λ j. get_elem?-set? server.store p step.0 j done,
    )

-- What a handler does depends on the session that it finds.
pub run_handler-found :
    (handler : WsSession → Result Step) (p : ℕ) (server : WsServer) (s : WsSession) (step : Step)
    → get_elem? server.store p ≡ some s
    → handler s ≡ ok step
    → run_handler (λ t. ok step) p server ≡ run_handler handler p server
unfolding run_handler
run_handler-found handler p server s step e h = rw (e, h) refl
