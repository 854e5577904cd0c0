-- ===== src/Pset/Finalize.antt =====
-- pset.rs: P2WSH finalization.
pub mod Witness
use emvault_elements.Prelude.{
  ℕ, suc, ◌-◌, ◌&&◌, Option, none, some, List, [], ◌∷◌, ◌++◌, length, take, leb, ltb, if◌then◌else◌,
  ◌==◌, codes, decimal, Bytes,
}
use emvault_elements.Prelude.Tests.{nat_eq}
use emvault_elements.Prelude.Result.{ok, err}
use emvault_elements.Prelude.Exec.{Exec}
use emvault_elements.Prelude.Map
use emvault_elements.Prelude.Map.{Map}
use emvault_elements.Elements.{Pset, PsetInput, Script, ScriptOps, Instruction, push_bytes, other}
use emvault_elements.Error.{PsetError, finalization_failed}

-- `OP_1..=OP_16`, the first byte of the script
unfoldable pub multisig_threshold : Script → Option ℕ
multisig_threshold [] = none
multisig_threshold (b ∷ rest) = if leb 0x51 b && leb b 0x60 then some (b - 0x50) else none

abbrev pub missing_script : ℕ → PsetError
missing_script idx =
    finalization_failed (codes "input " ++ (decimal idx ++ codes " missing witness_script"))

module _ (ops : ScriptOps) where
  abbrev push_key : Option ℕ → List ℕ → List ℕ
  push_key none keys = keys
  push_key (some pk) keys = pk ∷ keys

  unfoldable pub pubkeys_of : List Instruction → List ℕ
  pubkeys_of [] = []
  pubkeys_of (other ∷ rest) = pubkeys_of rest
  pubkeys_of (push_bytes bytes ∷ rest) =
      let keys = pubkeys_of rest in
      if length bytes == 33 then push_key (ops.from_slice bytes) keys else keys

  unfoldable pub extract_pubkeys_from_witness_script : Script → List ℕ
  unfolding pubkeys_of
  extract_pubkeys_from_witness_script script = pubkeys_of (ops.instructions script)

  abbrev pub push_sig : Option Bytes → List Bytes → List Bytes
  push_sig none sigs = sigs
  push_sig (some sig) sigs = sig ∷ sigs

  -- The signatures in the order of the keys.
  unfoldable pub ordered_sigs : Map ℕ Bytes → List ℕ → List Bytes
  ordered_sigs sigs [] = []
  ordered_sigs sigs (pk ∷ pks) = push_sig (Map.get pk sigs) (ordered_sigs sigs pks)

  -- `if let Some(m) = .. && sigs.len() > m { sigs.truncate(m) }`
  unfoldable pub truncate : Option ℕ → List Bytes → List Bytes
  truncate none sigs = sigs
  truncate (some m) sigs = if ltb m (length sigs) then take m sigs else sigs

  unfoldable pub witness_stack : PsetInput → Script → List Bytes
  unfolding ordered_sigs truncate multisig_threshold extract_pubkeys_from_witness_script
  witness_stack input script =
      let sigs = ordered_sigs input.partial_sigs (extract_pubkeys_from_witness_script script) in
      [] ∷ (truncate (multisig_threshold script) sigs ++ script ∷ [])

  unfoldable pub finalize_input : PsetInput → Script → PsetInput
  unfolding witness_stack
  finalize_input input script = record input {
    final_script_witness = some (witness_stack input script);
    partial_sigs = [];
    witness_script = none;
    bip32_derivation = [];
    redeem_script = none;
    sighash_type = none;
  }

  -- The loop over the inputs from `idx` on. It stops at an input without a script; the inputs
  -- before it stay finalized.
  unfoldable pub finalize_inputs : ℕ → Exec (List PsetInput) PsetError (Unit {0})
  finalize_inputs idx [] = (ok tt, [])
  finalize_inputs idx (input ∷ rest) =
      let later = finalize_inputs (suc idx) rest in
      elim input.witness_script [
        | none ↦ (err (missing_script idx), input ∷ rest)
        | some script ↦ (later.0, finalize_input input script ∷ later.1)
      ]

  unfoldable pub finalize_p2wsh_pset : Exec Pset PsetError (Unit {0})
  finalize_p2wsh_pset pset =
      let (r, inputs) = finalize_inputs 0 pset.inputs in (r, record pset { inputs = inputs })
