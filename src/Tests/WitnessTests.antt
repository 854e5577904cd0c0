-- ===== src/Tests/WitnessTests.antt =====
-- A PSET of one input with a 2-of-2 script, signed by its two members and finalized.
use emvault_elements.Prelude.{ℕ, ◌+◌, ◌≡◌, refl, none, some, Option, [], ◌∷◌, Bytes, arith}
use emvault_elements.Prelude.Tests.{nat_eq}
use emvault_elements.Prelude.Result.{ok}
use emvault_elements.Elements.{Pset, PsetInput, ScriptOps, push_bytes}
use emvault_elements.Pset.{BlindedPset, new_blinded}
use emvault_elements.Confidential.{
  validate_blinding, validate_blinding_raw, check_outputs, check_output,
}
use emvault_elements.Pset.Finalize.{multisig_threshold, extract_pubkeys_from_witness_script}
use emvault_elements.Pset.Coordinator.{Coordinator, new}
use emvault_elements.Pset.Coordinator.Quorum.{IsDistinct}
use emvault_elements.Testkit.{mine}
use emvault_elements.Testkit.Written.{own_total}
use emvault_elements.Testkit.Team.{Able, Team}
use emvault_elements.Testkit.Sealed.{is_owned}
use emvault_elements.Testkit.Witnessed.{Covered, owned_count, Witnesses, Team-Witnesses}
use emvault_elements.Tests.TeamTests.{
  proved_output, keys, tx, pset_ops, signer_of, child_of, federation, team, input,
}

-- 33 bytes
abbrev key_bytes : ℕ → Bytes
key_bytes k =
    k ∷ 0 ∷ 0 ∷ 0 ∷ 0 ∷ 0 ∷ 0 ∷ 0 ∷ 0 ∷ 0 ∷ 0 ∷ 0 ∷ 0 ∷ 0 ∷ 0 ∷ 0 ∷ 0 ∷ 0 ∷ 0 ∷ 0 ∷ 0 ∷ 0 ∷ 0 ∷ 0
    ∷ 0 ∷ 0 ∷ 0 ∷ 0 ∷ 0 ∷ 0 ∷ 0 ∷ 0 ∷ 0 ∷ []

abbrev first_byte : Bytes → Option ℕ
first_byte [] = none
first_byte (b ∷ bytes) = some b

-- The script pushes the keys 1 and 2.
abbrev ops : ScriptOps
ops = record {
  instructions = λ s. push_bytes (key_bytes 1) ∷ push_bytes (key_bytes 2) ∷ [];
  from_slice = first_byte;
}

abbrev bare : PsetInput
bare = record input { partial_sigs = [] }

abbrev pset : Pset
pset = record { inputs = bare ∷ []; outputs = proved_output ∷ [] }

abbrev begun : Coordinator
begun = record { federation = federation; pset = pset; signed = [] }

abbrev blinded : BlindedPset
blinded = record { pset = pset }

blinded_lem : new_blinded pset ≡ ok blinded
unfolding new_blinded
blinded_lem = refl

begun_lem : new federation blinded ≡ ok begun
unfolding new validate_blinding validate_blinding_raw check_outputs check_output
begun_lem = refl

total_ten : own_total keys (signer_of 10) (child_of 10) pset.inputs ≡ 1
unfolding own_total mine
total_ten = refl

total_twenty : own_total keys (signer_of 20) (child_of 20) pset.inputs ≡ 1
unfolding own_total mine
total_twenty = refl

ten-Able : Able keys pset_ops pset (signer_of 10)
ten-Able = record {
  child = child_of 10;
  derives = λ path. refl;
  tx = tx;
  extracts = λ q h. refl;
  message = ◌+◌ 100;
  hashes = λ q idx h small. refl;
  owns = omega (arith, total_ten);
  counts = omega (arith, total_ten);
}

twenty-Able : Able keys pset_ops pset (signer_of 20)
twenty-Able = record {
  child = child_of 20;
  derives = λ path. refl;
  tx = tx;
  extracts = λ q h. refl;
  message = ◌+◌ 100;
  hashes = λ q idx h small. refl;
  owns = omega (arith, total_twenty);
  counts = omega (arith, total_twenty);
}

abbrev members : Team keys pset_ops pset ops federation team
members = record {
  members = (refl, (refl, tt));
  able = (ten-Able, (twenty-Able, tt));
  distinct = unfold IsDistinct in (refl, (refl, tt));
}

both_owned :
    owned_count keys pset_ops pset ops team bare
      (extract_pubkeys_from_witness_script ops (0x52 ∷ []))
    ≡ 2
unfolding owned_count is_owned mine extract_pubkeys_from_witness_script
both_owned = refl

two_of : multisig_threshold (0x52 ∷ []) ≡ some 2
unfolding multisig_threshold
two_of = refl

covered : Covered keys pset_ops pset ops team bare
covered = record {
  script = 0x52 ∷ [];
  has = refl;
  m = 2;
  opens = two_of;
  enough = omega (arith, both_owned);
}

Team-Witnesses_example :
    Witnesses keys pset_ops pset ops federation team begun members (covered, tt)
Team-Witnesses_example =
    Team-Witnesses keys pset_ops pset ops federation team begun begun_lem members (omega arith)
      (omega arith) (refl, tt) (covered, tt) (λ r h. (tx, refl))
