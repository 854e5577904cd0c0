-- ===== src/Tests/GateTests.antt =====
-- The gate before signing, on PSETs with two inputs.
use emvault_elements.Prelude.{map, ◌≡◌, ◌↔◌, refl, none, some, [], ◌∷◌, All, codes}
use emvault_elements.Prelude.Tests.{nat_eq}
use emvault_elements.Prelude.Result.{ok, err}
use emvault_elements.Elements.{Pset}
use emvault_elements.Pset.{new_blinded}
use emvault_elements.Confidential.{
  validate_blinding, validate_blinding_raw, check_outputs, check_output, missing,
}
use emvault_elements.Confidential.Gate.{IsBlinded, uncommitted, validate_blinding_iff}
use emvault_elements.Tests.PsetTests.{output, fee, two_inputs, blinded}

accepts : validate_blinding_raw two_inputs ≡ ok tt
unfolding validate_blinding_raw check_outputs check_output
accepts = refl

-- Without the range proof
rejects :
    validate_blinding_raw
      (record two_inputs { outputs = fee ∷ record output { value_rangeproof = none } ∷ [] })
    ≡ err (missing 1 (codes " missing range proof"))
unfolding validate_blinding_raw check_outputs check_output
rejects = refl

-- An output with both proofs and neither commitment
uncommitted_accepted :
    validate_blinding_raw (record two_inputs { outputs = uncommitted output ∷ fee ∷ [] }) ≡ ok tt
unfolding validate_blinding_raw check_outputs check_output
uncommitted_accepted = refl

-- The only range proof is on a fee output.
fee_proof_accepted :
    let fees : Pset = record two_inputs {
      outputs = record fee { value_rangeproof = some (1 ∷ []) } ∷ [];
    } in
    new_blinded fees ≡ ok (record { pset = fees })
unfolding new_blinded
fee_proof_accepted = refl

validate_blinding_iff_example :
    ((validate_blinding blinded ≡ ok tt) ↔ All (IsBlinded 2) (output ∷ fee ∷ []))
    × (validate_blinding
          (record { pset = record two_inputs { outputs = map uncommitted (output ∷ fee ∷ []) } })
        ≡ validate_blinding blinded)
validate_blinding_iff_example = validate_blinding_iff blinded
