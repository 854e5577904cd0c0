-- ===== src/Pset/Finalize/Witness.antt =====
-- The witnesses that the P2WSH finalizer assembles.
use emvault_elements.Prelude.{
  ℕ, zero, suc, ◌+◌, ◌≤◌, ◌≡◌, refl, ap, ◌∙◌, inl, inr, Option, none, some, List, [], ◌∷◌, ◌++◌,
  map, arith, All, length, length-take, take, Option-cases, Bytes,
}
use Prim.Native.Nat.{min}
use native.Mathlib.Nat.{zero-add}
use emvault_elements.Prelude.Tests.{nat_eq}
use emvault_elements.Prelude.Result.{ok, err}
use emvault_elements.Prelude.Map
use emvault_elements.Prelude.Map.{Map}
use emvault_elements.Elements.{Pset, PsetInput, Script, ScriptOps}
use emvault_elements.Pset.Finalize.{
  multisig_threshold, extract_pubkeys_from_witness_script, ordered_sigs, push_sig, truncate,
  witness_stack, finalize_input, finalize_inputs, finalize_p2wsh_pset, missing_script,
}

-- The input has a witness script.
unfoldable pub IsScripted : PsetInput → Type 0
IsScripted input = (script : Script) × (input.witness_script ≡ some script)

-- `out` holds signatures of some of the keys, in the order of the keys.
pub data Signs (sigs : Map ℕ Bytes) : List ℕ → List Bytes → Type 0 where
  done : (keys : List ℕ) → Signs sigs keys []
  skip :
      (k : ℕ) (keys : List ℕ) (out : List Bytes) → Signs sigs keys out → Signs sigs (k ∷ keys) out
  sign :
      (k : ℕ) (s : Bytes) (keys : List ℕ) (out : List Bytes)
      → Map.get k sigs ≡ some s
      → Signs sigs keys out
      → Signs sigs (k ∷ keys) (s ∷ out)

abbrev count_of : Option Bytes → ℕ
count_of none = 0
count_of (some _) = 1

-- How many of the keys have a signature.
unfoldable pub signed_count : Map ℕ Bytes → List ℕ → ℕ
signed_count sigs [] = 0
signed_count sigs (k ∷ keys) = count_of (Map.get k sigs) + signed_count sigs keys

take-Signs :
    (sigs : Map ℕ Bytes) (m : ℕ) (keys : List ℕ) (out : List Bytes)
    → Signs sigs keys out
    → Signs sigs keys (take m out)
take-Signs sigs zero keys out h = done keys
take-Signs sigs (suc m) _ _ (done keys) = done keys
take-Signs sigs (suc m) _ _ (skip k keys out h) = skip k keys _ (take-Signs sigs (suc m) keys out h)
take-Signs sigs (suc m) _ _ (sign k s keys out e h) =
    sign k s keys _ e (take-Signs sigs m keys out h)

take_past {ℓ} : {A : Type ℓ} (m : ℕ) (xs : List A) → length xs ≤ m → take m xs ≡ xs
take_past zero [] h = refl
take_past zero (x ∷ xs) h = absurd (omega arith)
take_past (suc m) [] h = refl
take_past (suc m) (x ∷ xs) h = ap (◌∷◌ x) (take_past m xs (omega arith))

module _ (ops : ScriptOps) where
  -- An input with a script is finalized, another one is left alone.
  unfoldable pub finalized : PsetInput → PsetInput
  finalized input = elim input.witness_script [
    | none ↦ input
    | some script ↦ finalize_input ops input script
  ]

  pub finalized-some :
      (input : PsetInput) (script : Script)
      → input.witness_script ≡ some script
      → finalized input ≡ finalize_input ops input script
  unfolding finalized
  finalized-some input script e = rw e

  finalize_inputs-cons :
      (idx : ℕ) (input : PsetInput) (rest : List PsetInput)
      → IsScripted input
      → finalize_inputs ops idx (input ∷ rest) ≡ (
        (finalize_inputs ops (suc idx) rest).0,
        finalized input ∷ (finalize_inputs ops (suc idx) rest).1,
      )
  unfolding finalize_inputs IsScripted
  finalize_inputs-cons idx input rest (script, e) = simp (e, finalized-some input script e)

  finalize_inputs-IsScripted :
      (idx : ℕ) (before : List PsetInput)
      → All IsScripted before
      → finalize_inputs ops idx before ≡ (ok tt, map finalized before)
  unfolding finalize_inputs
  finalize_inputs-IsScripted idx [] h = refl
  finalize_inputs-IsScripted idx (i ∷ is) (s, h) =
      finalize_inputs-cons idx i is s
      ∙ ap (λ r. (r.0, finalized i ∷ r.1)) (finalize_inputs-IsScripted (suc idx) is h)

  finalize_inputs-stop :
      (idx : ℕ) (before : List PsetInput) (input : PsetInput) (after : List PsetInput)
      → All IsScripted before
      → input.witness_script ≡ none
      → finalize_inputs ops idx (before ++ input ∷ after)
        ≡ (err (missing_script (idx + length before)), map finalized before ++ input ∷ after)
  unfolding finalize_inputs
  finalize_inputs-stop idx [] input after h e =
      let here : idx + 0 ≡ idx = omega arith in simp (e, here)
  finalize_inputs-stop idx (i ∷ is) input after (s, h) e =
      let here : suc idx + length is ≡ idx + suc (length is) = omega arith in
      finalize_inputs-cons idx i (is ++ input ∷ after) s
      ∙ ap (λ r. (r.0, finalized i ∷ r.1)) (finalize_inputs-stop (suc idx) is input after h e)
      ∙ ap (λ n. (err (missing_script n), finalized i ∷ (map finalized is ++ input ∷ after))) here

  -- If every input has a witness script, the finalizer succeeds and finalizes each of them, and
  -- changes nothing else in the PSET.
  pub finalize_p2wsh_pset-IsScripted :
      (pset : Pset)
      → All IsScripted pset.inputs
      → finalize_p2wsh_pset ops pset ≡ (ok tt, record pset { inputs = map finalized pset.inputs })
  unfolding finalize_p2wsh_pset
  finalize_p2wsh_pset-IsScripted pset h = rw (finalize_inputs-IsScripted 0 pset.inputs h)

  -- At the first input without a witness script the finalizer stops with the error that names its
  -- position. The inputs before it stay finalized, and the later ones are as they were.
  pub finalize_p2wsh_pset-stop :
      (pset : Pset) (before : List PsetInput) (input : PsetInput) (after : List PsetInput)
      → pset.inputs ≡ before ++ input ∷ after
      → All IsScripted before
      → input.witness_script ≡ none
      → finalize_p2wsh_pset ops pset ≡ (
        err (missing_script (length before)),
        record pset { inputs = map finalized before ++ input ∷ after },
      )
  unfolding finalize_p2wsh_pset
  finalize_p2wsh_pset-stop pset before input after shape h e =
      rw (shape, finalize_inputs-stop 0 before input after h e, zero-add (length before))

  length-push_sig :
      (o : Option Bytes) (sigs : List Bytes)
      → length (push_sig ops o sigs) ≡ count_of o + length sigs
  length-push_sig none sigs = omega arith
  length-push_sig (some s) sigs = omega arith

  length-ordered_sigs :
      (sigs : Map ℕ Bytes) (keys : List ℕ)
      → length (ordered_sigs ops sigs keys) ≡ signed_count sigs keys
  unfolding ordered_sigs signed_count
  length-ordered_sigs sigs [] = refl
  length-ordered_sigs sigs (k ∷ keys) =
      length-push_sig (Map.get k sigs) (ordered_sigs ops sigs keys)
      ∙ ap (λ n. count_of (Map.get k sigs) + n) (length-ordered_sigs sigs keys)

  ordered_sigs-Signs :
      (sigs : Map ℕ Bytes) (keys : List ℕ) → Signs sigs keys (ordered_sigs ops sigs keys)
  unfolding ordered_sigs
  ordered_sigs-Signs sigs [] = done []
  ordered_sigs-Signs sigs (k ∷ keys) =
      let rest = ordered_sigs-Signs sigs keys in
      elim (Option-cases (Map.get k sigs)) [
        | inl missing ↦ rw missing (skip k keys _ rest)
        | inr (s, found) ↦ rw found (sign k s keys _ found rest)
      ]

  truncate-take : (m : ℕ) (sigs : List Bytes) → truncate ops (some m) sigs ≡ take m sigs
  unfolding truncate
  truncate-take m sigs = ground (arith, take_past m sigs)

  -- The witness of an input for an m-of-n script.
  pub record Multisig (input : PsetInput) (script : Script) (m : ℕ) : Type 0 where
    pub sigs : List Bytes
    pub shape : witness_stack ops input script ≡ [] ∷ (sigs ++ script ∷ [])
    pub in_order : Signs input.partial_sigs (extract_pubkeys_from_witness_script ops script) sigs
    pub count :
        length sigs
        ≡ min m (signed_count input.partial_sigs (extract_pubkeys_from_witness_script ops script))

  -- For a script that starts with the opcode of m, the witness is the empty element, signatures
  -- of keys of the script in the script's order, and the script. There are m signatures if that
  -- many keys have one, and otherwise one for each key that has one.
  pub witness_stack-Multisig :
      (input : PsetInput) (script : Script) (m : ℕ)
      → multisig_threshold script ≡ some m
      → Multisig input script m
  unfolding witness_stack
  witness_stack-Multisig input script m e =
      let keys = extract_pubkeys_from_witness_script ops script in
      let all = ordered_sigs ops input.partial_sigs keys in
      record {
        sigs = take m all;
        shape = rw (e, truncate-take m all);
        in_order =
            take-Signs input.partial_sigs m keys all (ordered_sigs-Signs input.partial_sigs keys);
        count = length-take m all ∙ ap (min m) (length-ordered_sigs input.partial_sigs keys);
      }
