-- ===== src/Tests/StageTests.antt =====
-- The stages of the pipeline on PSETs with one input, and a multipath text.
use emvault_elements.Prelude.{Bytes, ◌≡◌, refl, none, some, [], ◌∷◌, ◌++◌, codes, Text}
use emvault_elements.Prelude.Chars.{decimal}
use emvault_elements.Prelude.Result.{err}
use emvault_elements.Elements.{Transaction, Pset, PsetInput, PsetOutput}
use emvault_elements.Error.{not_blinded, unexpected_signatures}
use emvault_elements.Pset.{new_unsigned, total_sigs, new_blinded}
use emvault_elements.Pset.Coordinator.{FinalizedPset}
use emvault_elements.Pset.Finalized.{push_hex, serialize, serialize_hex}
use emvault_elements.Descriptor.{
  KeyEntry, CtKeyMode, CtDescriptorBuilder, normal, hardened, join, format_key, format_origin,
  segment, descriptor_text, to_multipath_string, before_checksum, replace_from,
}
use emvault_elements.Descriptor.Hex.{encode, hex_encode_byte}
use emvault_elements.Descriptor.Plain.{star, hash}
use emvault_elements.Descriptor.Multipath.{IsPlain, multipath_text, to_multipath_string_lem}

abbrev input : PsetInput
input = record {
  previous_txid = 7;
  previous_output_index = 0;
  witness_utxo = none;
  partial_sigs = [];
  witness_script = none;
  bip32_derivation = [];
  redeem_script = none;
  sighash_type = none;
  final_script_witness = none;
}

abbrev output : PsetOutput
output = record {
  script_pubkey = 0 ∷ [];
  amount_comm = none;
  asset_comm = none;
  value_rangeproof = none;
  asset_surjection_proof = none;
  blinder_index = some 0;
}

abbrev pset : Pset
pset = record { inputs = input ∷ []; outputs = output ∷ [] }

signed_refused :
    new_unsigned
      (record pset { inputs = record input { partial_sigs = (1, []) ∷ (2, []) ∷ [] } ∷ [] })
    ≡ err (unexpected_signatures 2)
unfolding new_unsigned total_sigs
signed_refused = refl

unproved_refused : new_blinded pset ≡ err not_blinded
unfolding new_blinded
unproved_refused = refl

abbrev entry_of : Text → KeyEntry
entry_of fp = record {
  fingerprint = fp;
  derivation_path = hardened 48 ∷ normal 0 ∷ [];
  public_key = codes "02";
  xpub = codes "tpub" ++ fp;
}

abbrev pub builder : CtDescriptorBuilder
builder = record {
  threshold = 2;
  mode = CtKeyMode.ranged;
  master_blinding_key = 171 ∷ [];
  entries = (1, entry_of (codes "aa")) ∷ (2, entry_of (codes "bb")) ∷ [];
}

written :
    to_multipath_string (descriptor_text builder ++ codes "#x")
    ≡ codes "ct(slip77(ab),elwsh(sortedmulti(2,[aa/48h/0]tpubaa/<0;1>/*,[bb/48h/0]tpubbb/<0;1>/*)))"
unfolding to_multipath_string before_checksum replace_from descriptor_text join format_key
    format_origin segment encode hex_encode_byte decimal
written = refl

pub aa-IsPlain : IsPlain (entry_of (codes "aa"))
unfolding IsPlain
aa-IsPlain _ star = (refl, refl)
aa-IsPlain _ hash = (refl, refl)

pub bb-IsPlain : IsPlain (entry_of (codes "bb"))
unfolding IsPlain
bb-IsPlain _ star = (refl, refl)
bb-IsPlain _ hash = (refl, refl)

to_multipath_string_lem_example :
    to_multipath_string (descriptor_text builder ++ b'#' ∷ codes "x") ≡ multipath_text builder
to_multipath_string_lem_example =
    to_multipath_string_lem builder (codes "x") refl (aa-IsPlain, (bb-IsPlain, tt))

-- The serialization has the id of the transaction in front.
abbrev consensus_serialize : Transaction → Bytes
consensus_serialize tx = tx.txid ∷ 171 ∷ []

abbrev final : FinalizedPset
final = record { pset = pset; transaction = record { txid = 5; input = []; output = [] } }

final_hex : serialize_hex consensus_serialize final ≡ codes "05ab"
unfolding serialize_hex push_hex serialize
final_hex = refl
