-- ===== src/Opcode/Laws.antt =====
-- Which codes of algo/NetworkOperation.cpp survive the way through a string.
use boost_server_example.Base.{
  zero, suc, ◌+◌, ◌^◌, ◌≤◌, ◌<◌, ◌≡◌, ◌↔◌, ◌⊎◌, [], ◌∷◌, ◌++◌, Bytes, arith,
}
use boost_server_example.Opcode.{WsOpcode, opcode_to_str, ws_opcode_from_str, c_str}

-- A code comes back from its string, whatever stands behind it, exactly if it is an ASCII code or
-- one of the last 128 numbers of 32 bits.
pub opcode_round_trip :
    (code : WsOpcode) (rest : Bytes)
    → code < 2 ^ 32
    → (ws_opcode_from_str (opcode_to_str code ++ rest) ≡ code)
      ↔ ((code < 128) ⊎ (2 ^ 32 ≤ code + 128))
unfolding opcode_to_str ws_opcode_from_str
opcode_round_trip code rest h = (λ e. ground arith, λ c. ground arith)

-- No byte of the string is zero.
abbrev pub NoNul : Bytes → Type 0
NoNul [] = Unit {0}
NoNul (c ∷ cs) = (0 < c) × NoNul cs

-- The way through `c_str` keeps a string whole exactly if it has no zero byte.
pub c_str-eq_iff : (text : Bytes) → (c_str text ≡ text) ↔ NoNul text
unfolding c_str
c_str-eq_iff [] = ground arith
c_str-eq_iff (zero ∷ cs) = ground arith
c_str-eq_iff (suc c ∷ cs) = ground (arith, c_str-eq_iff cs)
