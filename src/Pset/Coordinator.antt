-- ===== src/Pset/Coordinator.antt =====
-- pset.rs: `ElementsSigningCoordinator`.
pub mod Quorum
pub mod Merge
pub mod Live
use emvault_elements.Prelude.{
  ℕ, suc, ◌^◌, Bool, true, false, ◌&&◌, ◌||◌, Option, none, some, List, [], ◌∷◌, ◌++◌, length, any,
  leb, ltb, get_elem?, set, if◌then◌else◌, ◌==◌, codes, Text, Bytes,
}
use emvault_elements.Prelude.Tests.{nat_eq}
use emvault_elements.Prelude.Result.{Result, ok, err, panic, map_err}
use emvault_elements.Prelude.Result
use emvault_elements.Prelude.Exec.{Exec, continue}
use emvault_elements.Prelude.Map
use emvault_elements.Prelude.Map.{Map}
use emvault_elements.Confidential.{validate_blinding}
use emvault_elements.Elements.{Pset, PsetInput, ScriptOps, Transaction}
use emvault_elements.Error.{
  PsetError, unknown_signer, invalid_signature, insufficient_signatures, finalization_failed,
}
use emvault_elements.Federation.{Federation}
use emvault_elements.Pset.{BlindedPset}
use emvault_elements.Pset.Finalize.{finalize_p2wsh_pset}

-- signer.rs: a signer writes partial signatures into the PSET and counts the inputs it signed.
pub record ElementsSigner : Type 0 where
  pub sign_pset : Exec Pset PsetError ℕ

pub record Coordinator : Type 0 where
  pub federation : Federation
  pub pset : Pset
  pub signed : List ℕ

-- `HashSet::insert`
unfoldable pub add_signer : ℕ → List ℕ → List ℕ
add_signer id signed = if any (λ x. x == id) signed then signed else signed ++ id ∷ []

unfoldable pub new : Federation → BlindedPset → Result PsetError Coordinator
new federation pset =
    Result.◌>>◌ (validate_blinding pset)
      (ok (record { federation = federation; pset = pset.pset; signed = [] }))

unfoldable pub signatures_collected : Coordinator → ℕ
signatures_collected c = length c.signed

-- The conversion of the count to `u32` panics where it does not fit.
unfoldable pub is_complete : Coordinator → Result PsetError Bool
unfolding signatures_collected
is_complete c =
    if ltb (signatures_collected c) (2 ^ 32)
    then ok (leb c.federation.threshold (signatures_collected c))
    else panic

-- `n` inputs were signed.
abbrev pub note_signer : ℕ → ℕ → Coordinator → Coordinator
note_signer id n c = if n == 0 then c else record c { signed = add_signer id c.signed }

-- `find` gives the fingerprint of the signer that it finds.
unfoldable pub sign_with : ElementsSigner → ℕ → Exec Coordinator PsetError ℕ
unfolding add_signer
sign_with signer id c =
    if c.federation.contains id
    then (let (r, pset) = signer.sign_pset c.pset in
        continue r (λ n c'. (ok n, note_signer id n c')) (record c { pset = pset }))
    else (err (unknown_signer id), c)

-- The key belongs to the fingerprint, by the PSET that was returned.
unfoldable pub is_attributed : ℕ → PsetInput → ℕ → Bool
is_attributed fp signed_input pk =
    any (λ d. (d.1.0 == fp) && (d.0 == pk)) signed_input.bip32_derivation

-- The signatures of one input to insert; `own` is the coordinator's input at that index, if any.
unfoldable pub new_sigs :
    ℕ → Option PsetInput → PsetInput → Map ℕ Bytes → Result PsetError (Map ℕ Bytes)
new_sigs fp own signed_input [] = ok []
new_sigs fp own signed_input ((pk, sig) ∷ rest) =
    let others = new_sigs fp own signed_input rest in
    if is_attributed fp signed_input pk
    then elim own [
      | none ↦ panic
      | some input ↦
          if Map.contains_key pk input.partial_sigs
          then others
          else Result.◌>>=◌ others (λ l. ok ((pk, sig) ∷ l))
    ]
    else others

unfoldable pub insert_sigs : Map ℕ Bytes → PsetInput → PsetInput
insert_sigs [] input = input
insert_sigs ((pk, sig) ∷ rest) input =
    insert_sigs rest (record input { partial_sigs = Map.insert pk sig input.partial_sigs })

abbrev pub is_nonempty {ℓ} : {A : Type ℓ} → List A → Bool
is_nonempty [] = false
is_nonempty (_ ∷ _) = true

abbrev pub merge_input : ℕ → Map ℕ Bytes → List PsetInput → List PsetInput
merge_input idx sigs inputs = elim (get_elem? inputs idx) [
  | none ↦ inputs
  | some input ↦ set inputs idx (insert_sigs sigs input)
]

-- The loop over the returned inputs from `idx` on: whether something new was found.
unfoldable pub merge_inputs : ℕ → ℕ → List PsetInput → Bool → Exec (List PsetInput) PsetError Bool
unfolding new_sigs insert_sigs is_attributed
merge_inputs fp idx [] found inputs = (ok found, inputs)
merge_inputs fp idx (signed_input ∷ rest) found inputs =
    continue (new_sigs fp (get_elem? inputs idx) signed_input signed_input.partial_sigs)
      (λ sigs inputs'.
        merge_inputs fp (suc idx) rest (found || is_nonempty sigs) (merge_input idx sigs inputs'))
      inputs

abbrev pub no_new_signature : ℕ → PsetError
no_new_signature id =
    invalid_signature id (codes "no new partial signature attributable to this signer")

abbrev pub accept : ℕ → Bool → Exec Coordinator PsetError (Unit {0})
accept id true c = (ok tt, record c { signed = add_signer id c.signed })
accept id false c = (err (no_new_signature id), c)

unfoldable pub receive_signature : ℕ → Pset → Exec Coordinator PsetError (Unit {0})
unfolding add_signer
receive_signature id signed_pset c =
    if c.federation.contains id
    then elim (c.federation.find id) [
      | none ↦ (err (unknown_signer id), c)
      | some fp ↦
          let (r, inputs) = merge_inputs fp 0 signed_pset.inputs false c.pset.inputs in
          continue r (accept id) (record c { pset = record (c.pset) { inputs = inputs } })
    ]
    else (err (unknown_signer id), c)

pub record FinalizedPset : Type 0 where
  pub pset : Pset
  pub transaction : Transaction

-- `extract_tx` is `Pset::extract_tx`.
module _ (ops : ScriptOps) (extract_tx : Pset → Result Text Transaction) where
  unfoldable pub finalize : Coordinator → Result PsetError FinalizedPset
  finalize c = Result.◌>>=◌ (is_complete c) λ complete.
      if complete
      then (let (r, pset) = finalize_p2wsh_pset ops c.pset in
          Result.◌>>=◌ r λ _.
            Result.◌>>=◌ (map_err finalization_failed (extract_tx pset))
              λ transaction. ok (record { pset = pset; transaction = transaction }))
      else err (insufficient_signatures (signatures_collected c) c.federation.threshold)
