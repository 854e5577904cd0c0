-- ===== src/Confidential.antt =====
-- confidential.rs: the gate before signing.
pub mod Gate
use emvault_elements.Prelude.{
  ℕ, suc, Option, none, some, List, [], ◌∷◌, ◌++◌, length, is_empty, leb, if◌then◌else◌, codes,
  decimal, Text,
}
use emvault_elements.Prelude.Result.{Result, ok, err, ◌>>◌}
use emvault_elements.Elements.{Pset, PsetOutput}
use emvault_elements.Pset.{BlindedPset}
use emvault_elements.Error.{PsetError, blinding_failed}

-- `if o.is_none() { return Err(..) }`
abbrev require {ℓ} : {A : Type ℓ} → Option A → PsetError → Result PsetError (Unit {0})
require none e = err e
require (some _) e = ok tt

abbrev pub missing : ℕ → Text → PsetError
missing idx what = blinding_failed (codes "output " ++ (decimal idx ++ what))

abbrev pub out_of_range : ℕ → ℕ → ℕ → PsetError
out_of_range idx blinder n = blinding_failed (
    codes "output "
    ++ (decimal idx
        ++ (codes " blinder_index "
            ++ (decimal blinder ++ (codes " exceeds input count " ++ decimal n)))))

unfoldable pub check_blinder : ℕ → ℕ → Option ℕ → Result PsetError (Unit {0})
check_blinder n idx none = ok tt
check_blinder n idx (some blinder) =
    if leb n blinder then err (out_of_range idx blinder n) else ok tt

unfoldable pub check_output : ℕ → ℕ → PsetOutput → Result PsetError (Unit {0})
unfolding check_blinder
check_output n idx output = if is_empty output.script_pubkey then ok tt else do
  require output.value_rangeproof (missing idx (codes " missing range proof"))
  require output.asset_surjection_proof (missing idx (codes " missing surjection proof"))
  check_blinder n idx output.blinder_index

unfoldable pub check_outputs : ℕ → ℕ → List PsetOutput → Result PsetError (Unit {0})
check_outputs n idx [] = ok tt
check_outputs n idx (output ∷ rest) = do check_output n idx output; check_outputs n (suc idx) rest

unfoldable pub validate_blinding_raw : Pset → Result PsetError (Unit {0})
validate_blinding_raw pset = check_outputs (length pset.inputs) 0 pset.outputs

unfoldable pub validate_blinding : BlindedPset → Result PsetError (Unit {0})
unfolding validate_blinding_raw
validate_blinding pset = validate_blinding_raw pset.pset
