-- ===== src/Confidential/Gate.antt =====
-- What the gate of confidential.rs lets through.
use emvault_elements.Prelude.{
  ℕ, suc, ◌<◌, ◌≡◌, ◌↔◌, ◌⊎◌, ◌≢◌, refl, true, Option, none, some, List, [], ◌∷◌, arith, All,
  is_empty, length, map, ap,
}
use emvault_elements.Prelude.Result.{ok, >>=-eq-ok, ◌>>◌}
use emvault_elements.Elements.{PsetOutput}
use emvault_elements.Pset.{BlindedPset}
use emvault_elements.Confidential.{
  check_blinder, check_output, check_outputs, validate_blinding_raw, validate_blinding,
}

-- The blinder index, where there is one, is that of an input.
pub IsInput : ℕ → Option ℕ → Type 0
IsInput n none = Unit
IsInput n (some i) = i < n

-- A fee output, or one with both proofs and a blinder among the `n` inputs.
pub IsBlinded : ℕ → PsetOutput → Type 0
IsBlinded n o =
    (is_empty o.script_pubkey ≡ true)
    ⊎ ((o.value_rangeproof ≢ none) × (o.asset_surjection_proof ≢ none) × IsInput n o.blinder_index)

check_blinder_iff : (n idx : ℕ) (b : Option ℕ) → (check_blinder n idx b ≡ ok tt) ↔ IsInput n b
unfolding check_blinder IsInput
check_blinder_iff n idx none = (λ _. tt, λ _. refl)
check_blinder_iff n idx (some b) = (λ h. ground arith, λ h. ground arith)

check_output_iff : (n idx : ℕ) (o : PsetOutput) → (check_output n idx o ≡ ok tt) ↔ IsBlinded n o
unfolding check_output IsBlinded
check_output_iff n idx o = (
  λ h. ground (arith, check_blinder_iff n idx o.blinder_index),
  λ h. ground (arith, check_blinder_iff n idx o.blinder_index),
)

check_outputs_iff :
    (n idx : ℕ) (os : List PsetOutput) → (check_outputs n idx os ≡ ok tt) ↔ All (IsBlinded n) os
unfolding check_outputs
check_outputs_iff n idx [] = (λ _. tt, λ _. refl)
check_outputs_iff n idx (o ∷ os) = (
  λ h.
      let (u, first, rest) =
        >>=-eq-ok (check_output n idx o) (λ _. check_outputs n (suc idx) os) h in
      ((check_output_iff n idx o).0 first, (check_outputs_iff n (suc idx) os).0 rest),
  λ h. rw ((check_output_iff n idx o).1 h.0) ((check_outputs_iff n (suc idx) os).1 h.1),
)

-- The output without its commitments
abbrev pub uncommitted : PsetOutput → PsetOutput
uncommitted o = record o { amount_comm = none; asset_comm = none }

uncommitted-check_outputs :
    (n idx : ℕ) (os : List PsetOutput)
    → check_outputs n idx (map uncommitted os) ≡ check_outputs n idx os
unfolding check_outputs check_output
uncommitted-check_outputs n idx [] = refl
uncommitted-check_outputs n idx (o ∷ os) =
    ap (λ r. check_output n idx o >> r) (uncommitted-check_outputs n (suc idx) os)

-- `validate_blinding` accepts a PSET exactly when each of its outputs is a fee output (an empty
-- script), or has a range proof, a surjection proof and, if it names a blinder, one of the PSET's
-- inputs. The value and asset commitments, whose presence the documentation of
-- `validate_blinding` lists among its checks, play no part: the outcome is the same, errors
-- included, if they are taken from every output.
pub validate_blinding_iff :
    (b : BlindedPset)
    → ((validate_blinding b ≡ ok tt) ↔ All (IsBlinded (length b.pset.inputs)) b.pset.outputs)
      × (validate_blinding
            (record { pset = record b.pset { outputs = map uncommitted b.pset.outputs } })
          ≡ validate_blinding b)
unfolding validate_blinding validate_blinding_raw
validate_blinding_iff b = (
  check_outputs_iff (length b.pset.inputs) 0 b.pset.outputs,
  uncommitted-check_outputs (length b.pset.inputs) 0 b.pset.outputs,
)
