-- ===== src/Opcode.antt =====
-- algo/NetworkOperation.hpp and .cpp: operation codes and the strings that carry them. A `char` is
-- signed, as on the supported platform: a byte of 128 or more is a negative number.
pub mod Laws
use boost_server_example.Base.{
  ℕ, ◌+◌, ◌-◌, ◌%◌, ◌^◌, Bool, List, [], ◌∷◌, Bytes, ltb, if◌then◌else◌,
}

-- A value of the enumeration is a `uint32_t`.
abbrev pub WsOpcode : Type 0
WsOpcode = ℕ

abbrev pub ping : WsOpcode
ping = 48

abbrev pub csv_analize : WsOpcode
csv_analize = 49

abbrev pub csv_answer : WsOpcode
csv_answer = 50

-- `std::string(1, static_cast<char>(code))`
unfoldable pub opcode_to_str : WsOpcode → Bytes
opcode_to_str code = code % 256 ∷ []

-- `static_cast<WS_OPCODE>(c)`: a negative `char` wraps.
abbrev pub opcode_of_char : ℕ → WsOpcode
opcode_of_char c = if ltb c 128 then c else c + (2 ^ 32 - 256)

-- `str[0]` of an empty string is the terminator.
unfoldable pub ws_opcode_from_str : Bytes → WsOpcode
ws_opcode_from_str [] = opcode_of_char 0
ws_opcode_from_str (c ∷ cs) = opcode_of_char c

-- A `std::string` made from `c_str()` ends at the first zero byte.
unfoldable pub c_str : Bytes → Bytes
c_str [] = []
c_str (ℕ.zero ∷ cs) = []
c_str (ℕ.suc c ∷ cs) = ℕ.suc c ∷ c_str cs

pub record NetworkOperation : Type 0 where
  pub operation_code : WsOpcode
  pub operation_code_str : Bytes
  pub operation_name : Bytes

-- The constructor with a name; the other gives the empty name.
unfoldable pub new_operation : WsOpcode → Bytes → NetworkOperation
unfolding opcode_to_str
new_operation code name = record {
  operation_code = code;
  operation_code_str = opcode_to_str code;
  operation_name = name;
}

-- `operator<`
abbrev pub less : NetworkOperation → NetworkOperation → Bool
less a b = ltb a.operation_code b.operation_code
