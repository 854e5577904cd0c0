-- ===== src/Descriptor/Hex/RoundTrip.antt =====
-- Hexadecimal can be read back.
use emvault_elements.Prelude.{
  ℕ, zero, suc, ◌/◌, ◌%◌, get_elem?, some, ◌+◌, ◌-◌, ◌*◌, ◌<◌, ◌≡◌, refl, ap, [], ◌∷◌, arith, All,
  length, leb, IsMember, inl, inr, if◌then◌else◌, Text, Bytes,
}
use emvault_elements.Descriptor.Hex.{digits, hex_digit, hex_encode_byte, encode}

-- The value of a digit.
digit_value : ℕ → ℕ
digit_value c = if leb c b'9' then c - b'0' else c - 87

-- Each two digits are one byte.
pub decode : Text → Bytes
decode [] = []
decode (a ∷ []) = []
decode (a ∷ b ∷ rest) = (16 * digit_value a + digit_value b) ∷ decode rest

-- The digits of a list have the values from `k` on.
IsTable : ℕ → Text → Type 0
IsTable k [] = Unit
IsTable k (c ∷ cs) = (digit_value c ≡ k) × IsTable (suc k) cs

digits-IsTable : IsTable 0 digits
unfolding IsTable digit_value
digits-IsTable = (
  refl,
  (
    refl,
    (
      refl,
      (
        refl,
        (
          refl,
          (
            refl,
            (refl, (refl, (refl, (refl, (refl, (refl, (refl, (refl, (refl, (refl, tt)))))))))),
          ),
        ),
      ),
    ),
  ),
)

get_elem?-IsTable :
    (k i : ℕ) (cs : Text)
    → IsTable k cs
    → i < length cs
    → (c : ℕ) × (get_elem? cs i ≡ some c) × (digit_value c ≡ k + i)
unfolding IsTable
get_elem?-IsTable k i [] t h = absurd (omega arith)
get_elem?-IsTable k zero (c ∷ cs) t h = (c, refl, omega (arith, t.0))
get_elem?-IsTable k (suc i) (c ∷ cs) t h =
    let (d, found, e) = get_elem?-IsTable (suc k) i cs t.1 (omega arith) in
    (d, found, omega (arith, e))

digit_value-hex_digit : (i : ℕ) → i < 16 → digit_value (hex_digit i) ≡ i
digit_value-hex_digit i h =
    let (c, found, e) = get_elem?-IsTable 0 i digits digits-IsTable h in rw found (omega (arith, e))

-- Each of the bytes fits eight bits.
unfoldable pub IsBytes : Bytes → Type 0
IsBytes = All (λ b. b < 256)

-- The hexadecimal text of bytes has two digits for each, and reading it gives the bytes back.
pub decode-encode :
    (bs : Bytes) → IsBytes bs → (length (encode bs) ≡ 2 * length bs) × (decode (encode bs) ≡ bs)
unfolding encode hex_encode_byte decode IsBytes
decode-encode [] h = (refl, refl)
decode-encode (b ∷ bs) h =
    let later = decode-encode bs h.1 in
    (
      omega (arith, later.0),
      rw
          (
            digit_value-hex_digit (b / 16) (omega arith),
            digit_value-hex_digit (b % 16) (omega arith),
            later.1,
          )
          (ap (λ x. x ∷ bs) (omega arith)),
    )

-- A text of hexadecimal digits, small letters only
unfoldable pub IsHex : Text → Type 0
IsHex = All (λ c. IsMember c digits)

listed : (i : ℕ) (cs : Text) → i < length cs → (c : ℕ) × (get_elem? cs i ≡ some c) × IsMember c cs
listed i [] h = absurd (omega arith)
listed zero (c ∷ cs) h = (c, refl, inl refl)
listed (suc i) (c ∷ cs) h =
    let (d, found, member) = listed i cs (omega arith) in (d, found, inr member)

hex_digit-IsMember : (i : ℕ) → i < 16 → IsMember (hex_digit i) digits
hex_digit-IsMember i h = let (c, found, member) = listed i digits h in rw found member

pub encode-IsHex : (bs : Bytes) → IsBytes bs → IsHex (encode bs)
unfolding encode hex_encode_byte IsHex IsBytes
encode-IsHex [] h = tt
encode-IsHex (b ∷ bs) h = (
  hex_digit-IsMember (b / 16) (omega arith),
  (hex_digit-IsMember (b % 16) (omega arith), encode-IsHex bs h.1),
)
