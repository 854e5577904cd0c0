-- ===== src/Testkit/Written.antt =====
-- The signatures that the software signer owes to an input, without the loop that writes them.
use emvault_elements.Prelude.{
  ℕ, zero, suc, ◌+◌, ◌≡◌, refl, ◌⊎◌, subst, ap, ◌∙◌, inl, inr, some, List, [], ◌∷◌, All, IsMember,
  arith, get_elem?, nat_eqb_iff, ◌==◌, Text, Bytes, length, Bool-cases,
}
use mathlib.Core.Option.{some-injective}
use emvault_elements.Prelude.Tests.{nat_eq}
use emvault_elements.Prelude.Map
use emvault_elements.Prelude.Map.{Map}
use emvault_elements.Prelude.Map.Laws.{get-insert}
use emvault_elements.Elements.{PsetInput}
use emvault_elements.Testkit.{Keys, SoftwareSigner, mine, serialized}

module _ {K : Type 0} (keys : Keys K) (signer : SoftwareSigner K) (child : Text → K) where
  -- The signatures of one input, with those for the keys and paths written on top of them.
  unfoldable pub written : ℕ → List (ℕ × Text) → Map ℕ Bytes → Map ℕ Bytes
  written message [] m = m
  written message ((pk, path) ∷ ks) m =
      written message ks (Map.insert pk (serialized keys message (child path)) m)

  unfoldable pub signed_input : ℕ → PsetInput → PsetInput
  signed_input message i = record i {
    partial_sigs = written message (mine keys signer i) i.partial_sigs;
  }

  unfoldable pub signed_inputs : (ℕ → ℕ) → ℕ → List PsetInput → List PsetInput
  signed_inputs message idx [] = []
  signed_inputs message idx (i ∷ is) =
      signed_input (message idx) i ∷ signed_inputs message (suc idx) is

  -- The key has the signature that the child key at one of its paths makes.
  pub record SignedFor (message : ℕ) (owned : List (ℕ × Text)) (sigs : Map ℕ Bytes) (pk : ℕ)
      : Type 0 where
    pub path : Text
    pub owns : IsMember (pk, path) owned
    pub signature : Map.get pk sigs ≡ some (serialized keys message (child path))

  insert-SignedFor :
      (message k : ℕ) (path : Text) (owned : List (ℕ × Text)) (sigs : Map ℕ Bytes) (pk : ℕ)
      → IsMember (k, path) owned
      → (k ≡ pk) ⊎ SignedFor message owned sigs pk
      → SignedFor message owned (Map.insert k (serialized keys message (child path)) sigs) pk
  insert-SignedFor message k path owned sigs pk owns h = elim (Bool-cases (k == pk)) [
    | inl same ↦ record {
      path = path;
      owns = subst (λ x. IsMember (x, path) owned) ((nat_eqb_iff k pk).0 same) owns;
      signature = get-insert k pk _ sigs ∙ ground (arith, same);
    }
    | inr other ↦ elim h [
      | inl e ↦ absurd (ground (arith, nat_eqb_iff k pk))
      | inr old ↦ record {
        path = old.path;
        owns = old.owns;
        signature = get-insert k pk _ sigs ∙ ground (arith, other, old.signature);
      }
    ]
  ]

  written-SignedFor :
      (message : ℕ) (ks owned : List (ℕ × Text)) (sigs : Map ℕ Bytes) (pk : ℕ)
      → ((k : ℕ × Text) → IsMember k ks → IsMember k owned)
      → SignedFor message owned sigs pk
      → SignedFor message owned (written message ks sigs) pk
  unfolding written
  written-SignedFor message [] owned sigs pk sub h = h
  written-SignedFor message ((k, path) ∷ ks) owned sigs pk sub h =
      written-SignedFor message ks owned _ pk (λ x m. sub x (inr m))
        (insert-SignedFor message k path owned sigs pk (sub (k, path) (inl refl)) (inr h))

  pub written_all :
      (message : ℕ) (ks owned : List (ℕ × Text)) (sigs : Map ℕ Bytes)
      → ((k : ℕ × Text) → IsMember k ks → IsMember k owned)
      → All (λ k. SignedFor message owned (written message ks sigs) k.0) ks
  unfolding written
  written_all message [] owned sigs sub = tt
  written_all message ((k, path) ∷ ks) owned sigs sub = (
    written-SignedFor message ks owned _ k (λ x m. sub x (inr m))
        (insert-SignedFor message k path owned sigs k (sub (k, path) (inl refl)) (inl refl)),
    written_all message ks owned _ (λ x m. sub x (inr m)),
  )

  -- The number of key paths of the signer in the inputs.
  unfoldable pub own_total : List PsetInput → ℕ
  own_total [] = 0
  own_total (i ∷ is) = length (mine keys signer i) + own_total is

  -- An input that the signer has signed: every key that it owns there has a signature of it.
  pub record Complete (message : ℕ) (old new : PsetInput) : Type 0 where
    pub signatures :
        All {A = ℕ × Text}
          (λ k. SignedFor message (mine keys signer old) new.partial_sigs k.0)
          (mine keys signer old)

  pub get_elem?-signed_inputs :
      (message : ℕ → ℕ) (is : List PsetInput) (idx j : ℕ) (i : PsetInput)
      → get_elem? is j ≡ some i
      → get_elem? (signed_inputs message idx is) j ≡ some (signed_input (message (idx + j)) i)
  unfolding signed_inputs
  get_elem?-signed_inputs message [] idx j i e = cc
  get_elem?-signed_inputs message (x ∷ is) idx zero i e =
      rw (some-injective x i e) (ap (λ n. some (signed_input (message n) i)) (omega arith))
  get_elem?-signed_inputs message (x ∷ is) idx (suc j) i e =
      get_elem?-signed_inputs message is (suc idx) j i e
      ∙ ap (λ n. some (signed_input (message n) i)) (omega arith)
