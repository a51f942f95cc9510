-- ===== src/WsCallbacks/Numeral.antt =====
-- `std::to_string` as the callbacks of net/websockets/WsServer.cpp use it.
use boost_server_example.Base.{
  ℕ, zero, suc, ◌+◌, ◌*◌, ◌-◌, ◌^◌, ◌%◌, ◌/◌, ◌≤◌, ◌<◌, ◌≡◌, refl, [], ◌∷◌, Bytes, is_digit, true,
  all, length, arith,
}
use boost_server_example.WsCallbacks.{digits, to_string}

-- The number that digits stand for, behind those read so far.
abbrev pub decimal : ℕ → Bytes → ℕ
decimal v [] = v
decimal v (c ∷ cs) = decimal (v * 10 + (c - b'0')) cs

abbrev ten : ℕ → ℕ
ten zero = 1
ten (suc k) = 10 * ten k

digits_lem :
    (fuel n : ℕ) (acc : Bytes)
    → n < ten fuel
    → 0 < fuel
    → (decimal 0 (digits fuel n acc) ≡ decimal n acc)
      × (length (digits fuel n acc) ≤ fuel + length acc)
      × (all is_digit acc ≡ true → all is_digit (digits fuel n acc) ≡ true)
unfolding digits
digits_lem zero n acc h some_fuel = absurd (omega arith)
digits_lem (suc zero) n acc h some_fuel = ground arith
digits_lem (suc (suc f)) n acc h some_fuel =
    ground (arith, digits_lem (suc f) (n / 10) ((b'0' + n % 10) ∷ acc) (omega arith) (omega arith))

digits_some : (fuel n : ℕ) (acc : Bytes) → 0 < length acc → 0 < length (digits fuel n acc)
unfolding digits
digits_some zero n acc h = h
digits_some (suc fuel) n acc h =
    ground (arith, digits_some fuel (n / 10) ((b'0' + n % 10) ∷ acc) (omega arith))

pub to_string_some : (n : ℕ) → 0 < length (to_string n)
unfolding to_string digits
to_string_some n = ground (arith, digits_some 9 (n / 10) ((b'0' + n % 10) ∷ []) (omega arith))

-- The digits of an `unsigned int` stand for it, and there are at most ten.
pub to_string_lem :
    (n : ℕ)
    → n < 2 ^ 32
    → (decimal 0 (to_string n) ≡ n)
      × (length (to_string n) ≤ 10)
      × (all is_digit (to_string n) ≡ true)
unfolding to_string
to_string_lem n h =
    let (value, size, digit) = digits_lem 10 n [] (omega arith) (omega arith) in
    (value, size, digit refl)
