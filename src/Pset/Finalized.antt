-- ===== src/Pset/Finalized.antt =====
-- pset.rs: the final transaction as bytes and as hexadecimal.
use emvault_elements.Prelude.{
  ◌*◌, ◌/◌, ◌%◌, ◌≡◌, ap, ◌∙◌, [], ◌∷◌, ◌++◌, append_assoc, append-nil, sym, length, Text, Bytes,
}
use emvault_elements.Elements.{Transaction}
use emvault_elements.Descriptor.Hex.{hex_digit, encode, hex_encode_byte}
use emvault_elements.Descriptor.Hex.RoundTrip.{IsBytes, decode, decode-encode}
use emvault_elements.Pset.Coordinator.{FinalizedPset}

-- The loop of `write!(hex, "{b:02x}")`: two digits for each byte, behind what is written.
unfoldable pub push_hex : Text → Bytes → Text
push_hex hex [] = hex
push_hex hex (b ∷ bytes) = push_hex (hex ++ hex_digit (b / 16) ∷ hex_digit (b % 16) ∷ []) bytes

-- `elements::encode::serialize` is the caller's.
module _ (consensus_serialize : Transaction → Bytes) where
  unfoldable pub serialize : FinalizedPset → Bytes
  serialize f = consensus_serialize f.transaction

  unfoldable pub serialize_hex : FinalizedPset → Text
  unfolding serialize push_hex
  serialize_hex f = push_hex [] (serialize f)

push_hex-encode : (hex : Text) (bytes : Bytes) → push_hex hex bytes ≡ hex ++ encode bytes
unfolding push_hex encode hex_encode_byte
push_hex-encode hex [] = sym (append-nil hex)
push_hex-encode hex (b ∷ bytes) =
    push_hex-encode (hex ++ hex_digit (b / 16) ∷ hex_digit (b % 16) ∷ []) bytes
    ∙ append_assoc hex (hex_digit (b / 16) ∷ hex_digit (b % 16) ∷ []) (encode bytes)

-- If the consensus serialization consists of bytes, then `serialize_hex` has two digits for each
-- of them, and reading it gives the serialization back.
pub decode-serialize_hex :
    (consensus_serialize : Transaction → Bytes) (f : FinalizedPset)
    → IsBytes (serialize consensus_serialize f)
    → (length (serialize_hex consensus_serialize f) ≡ 2 * length (serialize consensus_serialize f))
      × (decode (serialize_hex consensus_serialize f) ≡ serialize consensus_serialize f)
unfolding serialize_hex
decode-serialize_hex consensus_serialize f h =
    let bytes = serialize consensus_serialize f in
    let (doubled, back) = decode-encode bytes h in
    let same = push_hex-encode [] bytes in (ap length same ∙ doubled, ap decode same ∙ back)
