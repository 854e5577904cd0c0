-- ===== src/Descriptor/Hex.antt =====
-- descriptor.rs `hex`, and `hex32` of wollet.rs, which is the same function on 32 bytes.
pub mod RoundTrip
use emvault_elements.Prelude.{ℕ, ◌/◌, ◌%◌, none, some, [], ◌∷◌, get_elem?, codes, Text, Bytes}

abbrev pub digits : Text
digits = codes "0123456789abcdef"

-- `HEX[i]`; the index is always below 16.
abbrev pub hex_digit : ℕ → ℕ
hex_digit i = elim (get_elem? digits i) [ none ↦ 0 | some c ↦ c ]

unfoldable pub hex_encode_byte : ℕ → ℕ × ℕ
hex_encode_byte b = (hex_digit (b / 16), hex_digit (b % 16))

unfoldable pub encode : Bytes → Text
unfolding hex_encode_byte
encode [] = []
encode (b ∷ bs) = (hex_encode_byte b).0 ∷ (hex_encode_byte b).1 ∷ encode bs
