-- ===== src/Pset/Stages.antt =====
-- What the types of the pipeline promise: no signatures before blinding, a proof after it.
use emvault_elements.Prelude.{
  ℕ, ◌≡◌, ◌↔◌, refl, sym, subst, ap, ◌∙◌, inl, inr, true, ◌||◌, some, List, [], ◌∷◌, All, IsMember,
  any, arith, length, ◌==◌, nat_eqb_iff, Bool-cases, Option-cases, Bytes, Text,
}
use mathlib.Core.Bool.{true≢false}
use emvault_elements.Prelude.Tests.{nat_eq}
use emvault_elements.Prelude.Result.{Result, ok, err, panic, map_err, ◌>>=◌}
use emvault_elements.Prelude.Map.{Map}
use emvault_elements.Elements.{Pset, PsetInput, PsetOutput, TxOutSecrets}
use emvault_elements.Error.{PsetError, blinding_failed}
use emvault_elements.Pset.{
  UnsignedPset, BlindedPset, total_sigs, new_unsigned, is_some, new_blinded, blind_pset,
}

-- The input has no signature.
abbrev pub IsUnsigned : PsetInput → Type 0
IsUnsigned i = i.partial_sigs ≡ []

-- Some output has a range proof.
pub record IsProved (outputs : List PsetOutput) : Type 0 where
  pub output : PsetOutput
  pub listed : IsMember output outputs
  pub proof : Bytes
  pub proves : output.value_rangeproof ≡ some proof

length_zero : {A : Type 0} (xs : List A) → length xs ≡ 0 → xs ≡ []
length_zero [] e = refl
length_zero (x ∷ xs) e = absurd (omega (arith, e))

total_sigs_iff : (is : List PsetInput) → (total_sigs is ≡ 0) ↔ All IsUnsigned is
unfolding total_sigs
total_sigs_iff [] = (λ e. tt, λ h. refl)
total_sigs_iff (i ∷ is) =
    let rest = total_sigs_iff is in
    (
      λ e. (length_zero i.partial_sigs (omega (arith, e)), rest.0 (omega (arith, e))),
      λ h. omega (arith, ap length h.0, rest.1 h.1),
    )

any-IsProved :
    (os : List PsetOutput) → (any (λ o. is_some o.value_rangeproof) os ≡ true) ↔ IsProved os
any-IsProved [] = (λ e. absurd (true≢false (sym e)), λ p. elim p.listed [ ])
any-IsProved (o ∷ os) =
    let rest = any-IsProved os in
    (
      λ e. elim (Option-cases o.value_rangeproof) [
        | inr (proof, found) ↦ record {
          output = o;
          listed = inl refl;
          proof = proof;
          proves = found;
        }
        | inl missing ↦
            let later =
              rest.0 (
                sym (ap (λ r. is_some r || any (λ x. is_some x.value_rangeproof) os) missing)
                ∙ e) in
            record {
              output = later.output;
              listed = inr later.listed;
              proof = later.proof;
              proves = later.proves;
            }
      ],
      λ p. elim p.listed [
        | inl same ↦
            let here : o.value_rangeproof ≡ some p.proof =
              sym (ap (λ (x : PsetOutput). x.value_rangeproof) same) ∙ p.proves in
            rw here refl
        | inr listed ↦
            let later =
              rest.1 (record {
                output = p.output;
                listed = listed;
                proof = p.proof;
                proves = p.proves;
              }) in
            elim (Bool-cases (is_some o.value_rangeproof)) [
              | inl here ↦ rw here refl
              | inr none_here ↦ rw none_here later
            ]
      ],
    )

ok-eq : {A : Type 0} (a b : A) → ◌≡◌ {A = Result PsetError A} (ok a) (ok b) → a ≡ b
ok-eq a b e = cc

not_ok : {A : Type 0} (x : PsetError) (a : A) → ◌≡◌ {A = Result PsetError A} (err x) (ok a) → ⊥
not_ok x a e = cc

-- An `UnsignedPset` is made from a PSET exactly if no input has a signature, and holds that PSET.
pub new_unsigned_iff :
    (p : Pset) (u : UnsignedPset)
    → (new_unsigned p ≡ ok u) ↔ ((u.pset ≡ p) × All IsUnsigned p.inputs)
unfolding new_unsigned
new_unsigned_iff p u =
    let counted = total_sigs_iff p.inputs in
    elim (Bool-cases (total_sigs p.inputs == 0)) [
      | inl free ↦ rw free (
        λ e. (
          sym (ap (λ (x : UnsignedPset). x.pset) (ok-eq _ u e)),
          counted.0 ((nat_eqb_iff _ 0).0 free),
        ),
        λ h. ap (λ (x : Pset). ok (record { pset = x })) (sym h.0),
      )
      | inr signed ↦ rw signed (
        λ e. absurd (not_ok _ u e),
        λ h.
            absurd
              (true≢false (sym ((nat_eqb_iff (total_sigs p.inputs) 0).1 (counted.1 h.1)) ∙ signed)),
      )
    ]

pub new_blinded_iff :
    (p : Pset) (b : BlindedPset) → (new_blinded p ≡ ok b) ↔ ((b.pset ≡ p) × IsProved p.outputs)
unfolding new_blinded
new_blinded_iff p b =
    let proved = any-IsProved p.outputs in
    elim (Bool-cases (any (λ o. is_some o.value_rangeproof) p.outputs)) [
      | inl some_proof ↦ rw some_proof (
        λ e. (sym (ap (λ (x : BlindedPset). x.pset) (ok-eq _ b e)), proved.0 some_proof),
        λ h. ap (λ (x : Pset). ok (record { pset = x })) (sym h.0),
      )
      | inr no_proof ↦
          rw no_proof
            (λ e. absurd (not_ok _ b e), λ h. absurd (true≢false (sym (proved.1 h.1) ∙ no_proof)))
    ]

blinded_iff :
    (b : BlindedPset) (r : Result Text Pset)
    → ((map_err blinding_failed r >>= new_blinded) ≡ ok b)
      ↔ ((r ≡ ok b.pset) × IsProved b.pset.outputs)
blinded_iff b (ok p) =
    let made = new_blinded_iff p b in
    (
      λ e.
          let (same, proved) = made.0 e in
          (ap ok (sym same), subst (λ (x : Pset). IsProved x.outputs) (sym same) proved),
      λ h.
          let same : p ≡ b.pset = cc in
          made.1 (sym same, subst (λ (x : Pset). IsProved x.outputs) (sym same) h.1),
    )
blinded_iff b (err x) = (λ e. absurd (not_ok _ b e), λ h. absurd (cc))
blinded_iff b panic = (λ e. absurd (cc), λ h. absurd (cc))

-- `blind_pset` returns a `BlindedPset` exactly if LWK blinds the PSET and some output of what it
-- returns has a range proof, and holds what it returns.
pub blind_pset_iff :
    (blind_last : Pset → Map ℕ TxOutSecrets → Result Text Pset) (u : UnsignedPset)
    (secrets : Map ℕ TxOutSecrets) (b : BlindedPset)
    → (blind_pset blind_last u secrets ≡ ok b)
      ↔ ((blind_last u.pset secrets ≡ ok b.pset) × IsProved b.pset.outputs)
unfolding blind_pset
blind_pset_iff blind_last u secrets b = blinded_iff b (blind_last u.pset secrets)
