-- ===== src/WsServer/Tests.antt =====
-- Runs of a server of net/websockets/WsServer.cpp with two sessions, of which one is registered.
use boost_server_example.Base.{
  ◌*◌, ℕ, zero, suc, ◌≡◌, refl, sym, ap, ◌∙◌, subst, Bool, true, false, ◌&&◌, List, [], ◌∷◌, ◌++◌,
  none, some, Bytes, length, ltb, get_elem?, ◌==◌, if◌then◌else◌,
}
use boost_server_example.Base.Result.{ok}
use boost_server_example.Base.Text.{codes}
use boost_server_example.Opcode.{c_str}
use boost_server_example.SessionManager.{Sessions, get_sess_by_id, same_id, find_session}
use boost_server_example.SessionManager.Same.{SameSessions, get-cons}
use boost_server_example.SessionManager.Unordered.{ifs_comm}
use boost_server_example.WsCallbacks.{Dates, dispatch_session}
use boost_server_example.WsServer.{
  new_server, unregister, WsServer, run_handler, send_to_all, handle_incoming_messages,
  accept_client,
}
use boost_server_example.WsServer.AnyOrder.{Alike, reordered, any_order}
use boost_server_example.WsServer.Each.{calls_of}
use boost_server_example.WsServer.Failing.{handler_drops_itself}
use boost_server_example.WsServer.Owned.{registered, WellFormed, some-injective}
use boost_server_example.WsServer.Registry.{accept_client-WellFormed}
use boost_server_example.WsServer.Sending.{handle_incoming_messages_lem}
use boost_server_example.WsServer.System.{
  Reach-WellFormed, was_written, start, later, accepts, unregisters,
}
use boost_server_example.WsSession.{
  WsSession, Step, Task, alive, send, ping_callback, on_write, other,
}

abbrev named : Bytes → List Task → WsSession
named id tasks = record {
  id = id;
  is_fully_created = true;
  recieved_buffer = [];
  timer_expiry = none;
  is_send_busy = false;
  send_queue = [];
  ping_state = alive;
  received_messages = record { name = []; threads = 0; callbacks_queue = tasks; quit = false };
  read_message_max = 64 * 1024 * 1024;
}

abbrev pinged : List Task
pinged = record { callback = ping_callback; message = codes "0hi" } ∷ []

-- The session of the client "a" has left the registry.
abbrev server : WsServer
server = record {
  sessions = (codes "b", some 1) ∷ [];
  operation_callbacks = [];
  store = named (codes "a") pinged ∷ named (codes "b") pinged ∷ [];
  calls = [];
  ws_threads = [];
}

server-WellFormed : WellFormed server
server-WellFormed = record {
  valid = (refl, tt);
  owned = ((named (codes "b") pinged, refl, refl), tt);
}

abbrev is_open : ℕ → Bool
is_open p = true

abbrev lengths : Dates ℕ
lengths = record {
  epoch = 0;
  later = λ a b. ltb b a;
  date_time_from_str = λ text. ok (length text);
  is_double = λ text. length text == 1;
}

abbrev dispatched : ℕ → WsSession → Step
dispatched p s = send true (named (codes "b") []) (codes "0hi")

server-dispatches :
    (p : ℕ) (s : WsSession)
    → get_elem? server.store p ≡ some s
    → registered server.sessions s.id p ≡ true
    → dispatch_session lengths 2 0 (is_open p) s ≡ ok (dispatched p s)
unfolding get_sess_by_id find_session dispatch_session c_str
server-dispatches zero s e reg =
    let same : s ≡ named (codes "a") pinged = some-injective (sym e) in
    let no : false ≡ true = subst (λ t. registered server.sessions t.id 0 ≡ true) same reg in cc
server-dispatches (suc zero) s e reg =
    let same : named (codes "b") pinged ≡ s = some-injective e in
    subst (λ t. dispatch_session lengths 2 0 true t ≡ ok (dispatched 1 t)) same refl
server-dispatches (suc (suc p)) s e reg = cc

handle_incoming_messages_lem_example :
    (after : WsServer) × (handle_incoming_messages lengths 2 0 is_open server ≡ ok after)
    × (after.sessions ≡ server.sessions)
    × (after.calls ≡ server.calls ++ calls_of dispatched server.sessions server.store)
    × ((p : ℕ) (s : WsSession)
        → get_elem? server.store p ≡ some s
        → get_elem? after.store p
          ≡ some (if registered server.sessions s.id p then (dispatched p s).0 else s))
handle_incoming_messages_lem_example =
    handle_incoming_messages_lem lengths 2 0 is_open server dispatched server-WellFormed
      server-dispatches

accept_client-WellFormed_example :
    (after : WsServer) × (accept_client [] (codes "c") is_open 9 server ≡ ok after)
    × WellFormed after
    × ((other : Bytes)
        → get_sess_by_id after.sessions other
          ≡ (if same_id (codes "c") other then some 2 else get_sess_by_id server.sessions other))
accept_client-WellFormed_example =
    accept_client-WellFormed [] (codes "c") is_open 9 server server-WellFormed

-- A server that has accepted a client.
abbrev accepted_c :
    (after : WsServer) × (accept_client [] (codes "c") is_open 9 new_server ≡ ok after)
unfolding new_server
accepted_c =
    let (after, run, good, finds) =
      accept_client-WellFormed [] (codes "c") is_open 9 new_server
        (Reach-WellFormed lengths (start [])) in
    (after, run)

Reach-WellFormed_example : WellFormed (unregister (codes "x") accepted_c.0)
unfolding new_server
Reach-WellFormed_example = Reach-WellFormed lengths (
    later (later (start []) (accepts [] (codes "c") is_open 9 accepted_c.1))
      (unregisters (codes "x")))

-- Both sessions are registered, in the one order and in the other.
abbrev two : WsServer
two = record server { sessions = (codes "a", some 0) ∷ (codes "b", some 1) ∷ [] }

abbrev swapped : Sessions ℕ
swapped = (codes "b", some 1) ∷ (codes "a", some 0) ∷ []

two-WellFormed : WellFormed two × WellFormed (reordered two swapped)
two-WellFormed = (
  record {
    valid = (refl, (refl, tt));
    owned = ((named (codes "a") pinged, refl, refl), ((named (codes "b") pinged, refl, refl), tt));
  },
  record {
    valid = (refl, (refl, tt));
    owned = ((named (codes "b") pinged, refl, refl), ((named (codes "a") pinged, refl, refl), tt));
  },
)

two-SameSessions : SameSessions two.sessions swapped
two-SameSessions id =
    let seen = λ (k : Bytes) (p : ℕ) (j : Bytes) (q : ℕ).
      get-cons k (some p) ((j, some q) ∷ []) id
      ∙ ap (λ o. if same_id k id then some p else o) (get-cons j (some q) [] id) in
    seen (codes "a") 0 (codes "b") 1
    ∙ ifs_comm (codes "a") (codes "b") id (some 0) (some 1) (get_sess_by_id [] id) refl
    ∙ sym (seen (codes "b") 1 (codes "a") 0)

abbrev dispatched_two : ℕ → WsSession → Step
dispatched_two zero s = send true (named (codes "a") []) (codes "0hi")
dispatched_two (suc p) s = send true (named (codes "b") []) (codes "0hi")

any_order_example :
    ((a : WsServer) × (b : WsServer) × (send_to_all is_open (codes "m") two ≡ ok a)
      × (send_to_all is_open (codes "m") (reordered two swapped) ≡ ok b)
      × Alike two a b)
    × (((p : ℕ) (s : WsSession)
          → get_elem? two.store p ≡ some s
          → registered two.sessions s.id p ≡ true
          → dispatch_session lengths 2 0 (is_open p) s ≡ ok (dispatched_two p s))
        → (a : WsServer) × (b : WsServer) × (handle_incoming_messages lengths 2 0 is_open two
            ≡ ok a)
          × (handle_incoming_messages lengths 2 0 is_open (reordered two swapped) ≡ ok b)
          × Alike two a b)
any_order_example =
    any_order lengths 2 0 is_open (codes "m") two swapped dispatched_two two-WellFormed.0
      two-WellFormed.1 two-SameSessions

two-dispatches :
    (p : ℕ) (s : WsSession)
    → get_elem? two.store p ≡ some s
    → registered two.sessions s.id p ≡ true
    → dispatch_session lengths 2 0 (is_open p) s ≡ ok (dispatched_two p s)
unfolding dispatch_session c_str
two-dispatches zero s e reg =
    subst (λ t. dispatch_session lengths 2 0 true t ≡ ok (dispatched_two 0 t)) (some-injective e)
      refl
two-dispatches (suc zero) s e reg =
    subst (λ t. dispatch_session lengths 2 0 true t ≡ ok (dispatched_two 1 t)) (some-injective e)
      refl
two-dispatches (suc (suc p)) s e reg = cc

both_dispatched :
    (a : WsServer) × (b : WsServer) × (handle_incoming_messages lengths 2 0 is_open two ≡ ok a)
    × (handle_incoming_messages lengths 2 0 is_open (reordered two swapped) ≡ ok b)
    × Alike two a b
both_dispatched = any_order_example.1 two-dispatches

-- A write of the session "b" fails.
handler_drops_itself_example :
    (after : WsServer) × (run_handler
        (λ t. ok (on_write true (other 5) (named (codes "b") pinged)))
        1
        server
      ≡ ok after)
    × WellFormed after
    × ((id : Bytes)
        → get_sess_by_id after.sessions id
          ≡ (if true && same_id (codes "b") id then none else get_sess_by_id server.sessions id))
handler_drops_itself_example =
    handler_drops_itself 1 server-WellFormed refl (was_written true (other 5))
