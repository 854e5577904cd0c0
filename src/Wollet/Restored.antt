-- ===== src/Wollet/Restored.antt =====
-- A wollet from the handle of a federation: descriptor.rs, federated_wallet.rs and wollet.rs.
use emvault_elements.Prelude.{◌≡◌, refl, ◌∷◌, ◌++◌, All, arith, length, Text, Bytes}
use emvault_elements.Prelude.Map.{values}
use emvault_elements.Prelude.Result.{Result, ok}
use emvault_elements.Descriptor.{CtKeyMode, CtDescriptorBuilder, descriptor_text}
use emvault_elements.Descriptor.Hex.{encode}
use emvault_elements.Descriptor.Hex.RoundTrip.{IsBytes, IsHex, decode, decode-encode, encode-IsHex}
use emvault_elements.Descriptor.Multipath.{IsPlain, multipath_text, to_multipath_string_lem}
use emvault_elements.Elements.{WolletDescriptor}
use emvault_elements.Network.{ElementsNetwork, LwkNetwork, to_lwk}
use emvault_elements.Wollet.{from_descriptor_str, from_handle, from_handle_with_lwk}

module _ (from_str : Text → Result Text WolletDescriptor)
    (build : LwkNetwork → WolletDescriptor → Result Text (Unit {0}))
    (blinding_from_str : Text → Result Text Bytes) where
  -- `MasterBlindingKey::from_str` reads 64 hexadecimal digits.
  unfoldable pub ReadsKeys : Type 0
  ReadsKeys = (t : Text) → IsHex t → length t ≡ 64 → blinding_from_str t ≡ ok (decode t)

  -- If the fingerprints and extended keys of a builder in ranged mode print without '*' and '#',
  -- LWK parses the text with both chains in each key and builds a wollet of it for the network,
  -- the handle's blinding key has 32 bytes, and a blinding key is read from 64 hexadecimal
  -- digits, then `from_handle` succeeds on the handle with the builder's text and any checksum:
  -- the wollet has the descriptor that was parsed, the handle's blinding key, and the network.
  pub from_handle-Restores :
      (b : CtDescriptorBuilder) (checksum : Text) (key : Bytes) (network : ElementsNetwork)
      (descriptor : WolletDescriptor)
      → b.mode ≡ CtKeyMode.ranged
      → All IsPlain (values b.entries)
      → from_str (multipath_text b) ≡ ok descriptor
      → build (to_lwk network) descriptor ≡ ok tt
      → IsBytes key
      → length key ≡ 32
      → ReadsKeys
      → from_handle from_str build blinding_from_str
          (record { ct_descriptor = descriptor_text b ++ b'#' ∷ checksum; blinding_key = key })
          network
        ≡ ok (record {
          descriptor = descriptor;
          master_blinding_key = key;
          network = network;
          lwk_network = to_lwk network;
        })
  unfolding from_handle from_handle_with_lwk from_descriptor_str ReadsKeys
  from_handle-Restores b checksum key network descriptor mode plain parsed built bytes long reads =
      let (doubled, back) = decode-encode key bytes in
      rw
        (
          to_multipath_string_lem b checksum mode plain,
          parsed,
          built,
          reads (encode key) (encode-IsHex key bytes) (omega (arith, doubled, long)),
          back,
        )
        refl
