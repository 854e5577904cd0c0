-- ===== src/Tests/PsetTests.antt =====
-- The signing pipeline on small PSETs.
use emvault_elements.Prelude.{
  ℕ, ◌*◌, zero, suc, ◌≡◌, refl, ◌||◌, Option, none, some, [], ◌∷◌, All, ◌==◌, Text, Bytes,
}
use emvault_elements.Prelude.Tests.{nat_eq}
use emvault_elements.Prelude.Result.{Result, ok, err}
use emvault_elements.Prelude.Map
use emvault_elements.Prelude.Exec.{pure}
use emvault_elements.Elements.{
  Pset, PsetInput, PsetOutput, Script, ScriptOps, Transaction, push_bytes, other,
}
use emvault_elements.Error.{insufficient_signatures}
use emvault_elements.Network.{NetworkType, ElementsNetworkId}
use emvault_elements.Federation.{Federation}
use emvault_elements.Pset.{BlindedPset, new_blinded}
use emvault_elements.Confidential.{
  validate_blinding, validate_blinding_raw, check_outputs, check_output,
}
use emvault_elements.Pset.Finalize.{
  finalize_p2wsh_pset, finalize_inputs, witness_stack, multisig_threshold, missing_script,
  extract_pubkeys_from_witness_script,
}
use emvault_elements.Pset.Finalize.Witness.{
  IsScripted, Multisig, finalized, finalize_p2wsh_pset-stop, witness_stack-Multisig,
}
use emvault_elements.Pset.Coordinator.{
  Coordinator, ElementsSigner, new, sign_with, merge_inputs, receive_signature, is_complete,
  finalize,
}
use emvault_elements.Pset.Coordinator.Merge.{Merged, receive_signature-Merged}
use emvault_elements.Pset.Coordinator.Quorum.{Reachable, start, signed, Quorum, finalize-Quorum}

abbrev zeros : ℕ → Bytes
zeros zero = []
zeros (suc n) = 0 ∷ zeros n

-- A key is 33 bytes, and its first byte names it.
abbrev key : ℕ → Bytes
key k = k ∷ zeros 32

abbrev first_byte : Bytes → Option ℕ
first_byte [] = none
first_byte (b ∷ bs) = some b

-- Every script holds the keys 1, 2 and 3.
abbrev ops : ScriptOps
ops = record {
  instructions =
      λ s. other ∷ push_bytes (key 1) ∷ push_bytes (key 2) ∷ push_bytes (key 3) ∷ other ∷ [];
  from_slice = first_byte;
}

-- OP_2, and so a threshold of two
abbrev script : Script
script = 0x52 ∷ 0xae ∷ []

abbrev input : PsetInput
input = record {
  previous_txid = 7;
  previous_output_index = 0;
  witness_utxo = none;
  partial_sigs = (3, 33 ∷ []) ∷ (1, 11 ∷ []) ∷ (2, 22 ∷ []) ∷ [];
  witness_script = some script;
  bip32_derivation = (3, (30, [])) ∷ [];
  redeem_script = none;
  sighash_type = some 1;
  final_script_witness = none;
}

abbrev bare : PsetInput
bare = record input { witness_script = none }

abbrev pub output : PsetOutput
output = record {
  script_pubkey = 0 ∷ [];
  amount_comm = some (2 ∷ []);
  asset_comm = some (3 ∷ []);
  value_rangeproof = some (1 ∷ []);
  asset_surjection_proof = some (1 ∷ []);
  blinder_index = some 1;
}

abbrev pub fee : PsetOutput
fee = record {
  script_pubkey = [];
  amount_comm = none;
  asset_comm = none;
  value_rangeproof = none;
  asset_surjection_proof = none;
  blinder_index = none;
}

abbrev pub two_inputs : Pset
two_inputs = record { inputs = input ∷ input ∷ []; outputs = output ∷ fee ∷ [] }

abbrev pub blinded : BlindedPset
blinded = record { pset = two_inputs }

blinded_lem : new_blinded two_inputs ≡ ok blinded
unfolding new_blinded
blinded_lem = refl

-- The thresholds at both ends, and first bytes beside them
one_of : multisig_threshold (0x51 ∷ []) ≡ some 1
unfolding multisig_threshold
one_of = refl

sixteen_of : multisig_threshold (0x60 ∷ []) ≡ some 16
unfolding multisig_threshold
sixteen_of = refl

below_one : multisig_threshold (0x50 ∷ []) ≡ none
unfolding multisig_threshold
below_one = refl

above_sixteen : multisig_threshold (0x61 ∷ []) ≡ none
unfolding multisig_threshold
above_sixteen = refl

-- A push of another length is not a key.
keys_found :
    extract_pubkeys_from_witness_script
      (record {
        instructions = λ s.
            other
            ∷ push_bytes (9 ∷ [])
            ∷ push_bytes (key 4)
            ∷ other
            ∷ push_bytes (0 ∷ key 5)
            ∷ push_bytes (key 2)
            ∷ [];
        from_slice = first_byte;
      })
      script
    ≡ 4 ∷ 2 ∷ []
unfolding extract_pubkeys_from_witness_script
keys_found = refl

stack : witness_stack ops input script ≡ [] ∷ (11 ∷ []) ∷ (22 ∷ []) ∷ script ∷ []
unfolding witness_stack Map.get
stack = refl

threshold_two : multisig_threshold script ≡ some 2
unfolding multisig_threshold
threshold_two = refl

script_of_first : All IsScripted (input ∷ [])
unfolding IsScripted
script_of_first = ((script, refl), tt)

script_of_both : All IsScripted (two_inputs.inputs)
unfolding IsScripted
script_of_both = ((script, refl), ((script, refl), tt))

witness_stack-Multisig_example : Multisig ops input script 2
witness_stack-Multisig_example = witness_stack-Multisig ops input script 2 threshold_two

finalize_p2wsh_pset-stop_example :
    finalize_p2wsh_pset ops (record two_inputs { inputs = input ∷ bare ∷ input ∷ [] }) ≡ (
      err (missing_script 1),
      record two_inputs { inputs = finalized ops input ∷ bare ∷ input ∷ [] },
    )
finalize_p2wsh_pset-stop_example =
    finalize_p2wsh_pset-stop ops (record two_inputs { inputs = input ∷ bare ∷ input ∷ [] })
      (input ∷ []) bare (input ∷ []) refl script_of_first refl

-- A 2-of-3 federation
abbrev federation : Federation
federation = record {
  threshold = 2;
  network = NetworkType.elements ElementsNetworkId.liquid;
  signers = 1 ∷ 2 ∷ 3 ∷ [];
  contains = λ id. (id == 1) || ((id == 2) || (id == 3));
  find = λ id. some (10 * id);
}

-- It counts one input, as if it had signed it.
abbrev signer : ElementsSigner
signer = record { sign_pset = pure 1 }

abbrev begun : Coordinator
begun = record { federation = federation; pset = two_inputs; signed = [] }

abbrev once : Coordinator
once = (sign_with signer 1 begun).1

abbrev twice : Coordinator
twice = (sign_with signer 3 once).1

abbrev extract_tx : Pset → Result Text Transaction
extract_tx p = ok (record { txid = 5; input = []; output = [] })

abbrev final_pset : Pset
final_pset = record two_inputs { inputs = finalized ops input ∷ finalized ops input ∷ [] }

begun_lem : new federation blinded ≡ ok begun
unfolding new validate_blinding validate_blinding_raw check_outputs check_output
begun_lem = refl

-- One signer is not enough, and neither is the same one again.
too_few : finalize ops extract_tx (sign_with signer 1 once).1 ≡ err (insufficient_signatures 1 2)
unfolding finalize is_complete sign_with
too_few = refl

enough :
    finalize ops extract_tx twice
    ≡ ok (record { pset = final_pset; transaction = record { txid = 5; input = []; output = [] } })
unfolding finalize is_complete sign_with finalize_p2wsh_pset finalize_inputs finalized
enough = refl

twice_reached : Reachable federation twice
twice_reached = signed once signer 3 (signed begun signer 1 (start blinded begun begun_lem))

finalize-Quorum_example : Quorum federation (twice.signed)
finalize-Quorum_example = finalize-Quorum ops extract_tx federation twice _ twice_reached enough

-- A returned PSET with the old signatures and one of key 4, which it attributes to signer 3.
abbrev returned : Pset
returned = record two_inputs {
  inputs =
      record input {
        partial_sigs = (4, 44 ∷ []) ∷ (3, 99 ∷ []) ∷ [];
        bip32_derivation = (4, (30, [])) ∷ (3, (30, [])) ∷ [];
      }
      ∷ [];
}

-- The signature of key 3 stays, that of key 4 is added.
received : (receive_signature 3 returned begun).1 ≡ record {
  federation = federation;
  pset = record two_inputs {
    inputs =
        record input {
          partial_sigs = (3, 33 ∷ []) ∷ (1, 11 ∷ []) ∷ (2, 22 ∷ []) ∷ (4, 44 ∷ []) ∷ [];
        }
        ∷ input
        ∷ [];
  };
  signed = 3 ∷ [];
}
unfolding receive_signature merge_inputs Map.contains_key Map.insert
received = refl

receive_signature-Merged_example : Merged begun (receive_signature 3 returned begun).1
receive_signature-Merged_example = receive_signature-Merged 3 returned begun
