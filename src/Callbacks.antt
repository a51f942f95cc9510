-- ===== src/Callbacks.antt =====
-- algo/CallbackManager.hpp and the class WSInputCallbacks of net/websockets/WsServer.cpp: the
-- callbacks by operation, a `std::map` ordered by operation code, as a list in that order.
pub mod Laws
use boost_server_example.Base.{ℕ, Bool, not, ◌&&◌, List, [], ◌∷◌, Option, none, some, if◌then◌else◌}
use boost_server_example.Opcode.{NetworkOperation, less}

abbrev pub Callbacks {ℓ} : Type ℓ → Type ℓ
Callbacks Cb = List (NetworkOperation × Cb)

-- Two keys of a `std::map` are one if neither is less.
abbrev pub same_key : NetworkOperation → NetworkOperation → Bool
same_key a b = not (less a b) && not (less b a)

module _ {ℓ} {Cb : Type ℓ} where
  unfoldable pub find : Callbacks Cb → NetworkOperation → Option Cb
  find [] op = none
  find ((k, cb) ∷ m) op = if same_key k op then some cb else find m op

  -- `operationCallbacks_[op] = cb`: the key of an entry stays the one inserted first.
  unfoldable pub add_callback : Callbacks Cb → NetworkOperation → Cb → Callbacks Cb
  add_callback [] op cb = (op, cb) ∷ []
  add_callback ((k, old) ∷ m) op cb =
      if same_key k op
      then (k, cb) ∷ m
      else if less op k
      then (op, cb) ∷ (k, old) ∷ m
      else (k, old) ∷ add_callback m op cb
