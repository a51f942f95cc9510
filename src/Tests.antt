-- ===== src/Tests.antt =====
-- Runs of the small parts: algo/NetworkOperation, algo/CallbackManager.hpp, algo/StringUtils,
-- algo/TickManager.hpp, algo/DispatchQueue and net/SessionManagerBase.hpp.
use boost_server_example.Base.{
  ℕ, ◌+◌, ◌*◌, ◌^◌, ◌≤◌, ◌<◌, ◌≡◌, ◌⊎◌, ◌↔◌, refl, sym, ap, true, false, List, [], ◌∷◌, ◌++◌,
  length, take, arith,
}
use boost_server_example.Base.Result.{ok, ok-injective}
use boost_server_example.Base.Text.{codes}
use boost_server_example.Callbacks.{Callbacks}
use boost_server_example.DispatchQueue.{DispatchQueue, Runner, dispatch_queued}
use boost_server_example.DispatchQueue.Drain.{IsLawful, call_all, dispatch_queued-call_all}
use boost_server_example.Opcode.{
  ping, csv_answer, opcode_to_str, ws_opcode_from_str, c_str, NetworkOperation,
}
use boost_server_example.Opcode.Laws.{opcode_round_trip}
use boost_server_example.StringUtils.{trim_whitespace}
use boost_server_example.StringUtils.Laws.{trim_whitespace_lem}
use boost_server_example.TickManager.{TickHandler, TickManager, tick}

opcode_round_trip_example :
    (ws_opcode_from_str (opcode_to_str 200 ++ codes "x") ≡ 200)
    ↔ ((200 < 128) ⊎ (2 ^ 32 ≤ 200 + 128))
opcode_round_trip_example = opcode_round_trip 200 (codes "x") (omega arith)

cut : c_str (b'a' ∷ 0 ∷ b'b' ∷ []) ≡ b'a' ∷ []
unfolding c_str
cut = refl

abbrev operation : ℕ → NetworkOperation
operation code = record {
  operation_code = code;
  operation_code_str = code ∷ [];
  operation_name = code ∷ [];
}

abbrev two_callbacks : Callbacks ℕ
two_callbacks = (operation ping, 7) ∷ (operation csv_answer, 9) ∷ []

-- White space behind the text is left.
trim_whitespace_lem_example :
    trim_whitespace (codes "  " ++ (codes "a b" ++ codes " \t\n"))
    ≡ codes "a b" ++ take (length (codes "  ")) (codes " \t\n")
trim_whitespace_lem_example =
    trim_whitespace_lem (codes "  ") (codes "a b") (codes " \t\n") (codes " b") (codes "a ") b'a'
      b'b' (refl, (refl, tt)) (refl, (refl, (refl, tt))) refl refl refl refl

abbrev adds : ℕ → TickHandler ℕ
adds n = record { id = codes "adds"; fn = λ s. s * 10 + n }

abbrev one_handler : TickManager ℕ
one_handler = record { tick_handlers = adds 1 ∷ []; need_server_run = true }

ticked : tick one_handler 3 ≡ 31
unfolding tick
ticked = refl

-- A state with a queue and what its callbacks were called with.
abbrev noter : Runner ℕ (DispatchQueue ℕ × List ℕ)
noter = record {
  queue = λ s. s.0;
  with_queue = λ s q. (q, s.1);
  call = λ a s. ok (s.0, s.1 ++ a ∷ []);
}

noter-IsLawful : IsLawful noter
noter-IsLawful = record {
  queue-with_queue = λ s q. refl;
  queue-call = λ a s t e. ap (λ (u : DispatchQueue ℕ × List ℕ). u.0) (sym (ok-injective e));
}

abbrev queue_of_two : DispatchQueue ℕ
queue_of_two = record { name = []; threads = 0; callbacks_queue = 4 ∷ 5 ∷ []; quit = false }

abbrev two_queued : DispatchQueue ℕ × List ℕ
two_queued = (queue_of_two, [])

drained :
    dispatch_queued noter 3 two_queued
    ≡ ok (record { name = []; threads = 0; callbacks_queue = []; quit = false }, 4 ∷ 5 ∷ [])
unfolding dispatch_queued
drained = refl

dispatch_queued-call_all_example :
    (queue_of_two.quit ≡ false
      → dispatch_queued noter 3 two_queued ≡ call_all noter queue_of_two (4 ∷ 5 ∷ []) two_queued)
    × (queue_of_two.quit ≡ false
        → (t : DispatchQueue ℕ × List ℕ) → dispatch_queued noter 3 two_queued ≡ ok t
        → t.0.callbacks_queue ≡ [])
    × (queue_of_two.quit ≡ true → dispatch_queued noter 3 two_queued ≡ ok two_queued)
dispatch_queued-call_all_example =
    dispatch_queued-call_all noter noter-IsLawful 3 two_queued (omega arith)
