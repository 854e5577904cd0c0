-- ===== src/Tests/WolletTests.antt =====
-- A wollet from the handle of a federation with two signers.
use emvault_elements.Prelude.{
  ℕ, zero, suc, ◌<◌, ◌≡◌, refl, [], ◌∷◌, ◌++◌, arith, length, if◌then◌else◌, ◌==◌, codes, Text,
  Bytes,
}
use emvault_elements.Prelude.Tests.{nat_eq}
use emvault_elements.Prelude.Result.{Result, ok, err}
use emvault_elements.Descriptor.{descriptor_text}
use emvault_elements.Descriptor.Hex.RoundTrip.{IsBytes, decode}
use emvault_elements.Descriptor.Multipath.{multipath_text}
use emvault_elements.Elements.{WolletDescriptor}
use emvault_elements.Network.{ElementsNetwork, LwkNetwork, to_lwk}
use emvault_elements.Wollet.{from_handle}
use emvault_elements.Wollet.Restored.{ReadsKeys, from_handle-Restores}
use emvault_elements.Tests.SpendTests.{wollet}
use emvault_elements.Tests.StageTests.{builder, aa-IsPlain, bb-IsPlain}

abbrev parsed : Text → WolletDescriptor
parsed t = record (wollet.descriptor) { text = t }

abbrev build : LwkNetwork → WolletDescriptor → Result Text (Unit {0})
build network descriptor = ok tt

-- A text of another length is refused.
abbrev read_key : Text → Result Text Bytes
read_key t = if length t == 64 then ok (decode t) else err (codes "length")

read_key-ReadsKeys : ReadsKeys (λ t. ok (parsed t)) build read_key
unfolding ReadsKeys
read_key-ReadsKeys t hex long = rw long refl

abbrev repeated : ℕ → ℕ → Bytes
repeated zero b = []
repeated (suc n) b = b ∷ repeated n b

repeated-IsBytes : (n b : ℕ) → b < 256 → IsBytes (repeated n b)
unfolding IsBytes
repeated-IsBytes zero b h = tt
repeated-IsBytes (suc n) b h = (h, repeated-IsBytes n b h)

abbrev key : Bytes
key = repeated 32 171

from_handle-Restores_example :
    from_handle
      (λ t. ok (parsed t))
      build
      read_key
      (record { ct_descriptor = descriptor_text builder ++ b'#' ∷ codes "x"; blinding_key = key })
      ElementsNetwork.elements_regtest
    ≡ ok (record {
      descriptor = parsed (multipath_text builder);
      master_blinding_key = key;
      network = ElementsNetwork.elements_regtest;
      lwk_network = to_lwk ElementsNetwork.elements_regtest;
    })
from_handle-Restores_example =
    from_handle-Restores (λ t. ok (parsed t)) build read_key builder (codes "x") key
      ElementsNetwork.elements_regtest (parsed (multipath_text builder)) refl
      (aa-IsPlain, (bb-IsPlain, tt)) refl refl (repeated-IsBytes 32 171 (omega arith)) refl
      read_key-ReadsKeys
