-- ===== src/Callbacks/Laws.antt =====
-- What a look-up in the callbacks of net/websockets/WsServer.cpp finds.
use boost_server_example.Base.{◌<◌, ◌≡◌, [], ◌∷◌, some, if◌then◌else◌, arith, ◌==◌}
use boost_server_example.Opcode.{NetworkOperation}
use boost_server_example.Callbacks.{Callbacks, find, add_callback}

module _ {ℓ} {Cb : Type ℓ} where
  -- A callback that is added is found under its code, and the other codes find what they found.
  pub find-add_callback :
      (m : Callbacks Cb) (op other : NetworkOperation) (cb : Cb)
      → find (add_callback m op cb) other
        ≡ (if op.operation_code == other.operation_code then some cb else find m other)
  unfolding find add_callback
  find-add_callback [] op other cb = ground arith
  find-add_callback ((k, old) ∷ m) op other cb = ground (arith, find-add_callback m op other cb)

  -- The codes rise along the list.
  abbrev pub Rising : Callbacks Cb → Type 0
  Rising [] = Unit {0}
  Rising ((k, cb) ∷ []) = Unit {0}
  Rising ((k, cb) ∷ (j, d) ∷ m) = (k.operation_code < j.operation_code) × Rising ((j, d) ∷ m)

  -- Adding a callback keeps the codes rising.
  pub add_callback-Rising :
      (m : Callbacks Cb) (op : NetworkOperation) (cb : Cb)
      → Rising m
      → Rising (add_callback m op cb)
  unfolding add_callback
  add_callback-Rising [] op cb r = tt
  add_callback-Rising ((k, old) ∷ []) op cb r = ground arith
  add_callback-Rising ((k, old) ∷ (j, d) ∷ m) op cb r =
      ground (arith, add_callback-Rising ((j, d) ∷ m) op cb r.1)
