-- ===== src/Testkit/Attested.antt =====
-- Who made the signatures of a PSET that a team of software signers signs.
use emvault_elements.Prelude.{
  ℕ, ◌≡◌, refl, subst, sym, ap, ◌∙◌, ◌⊎◌, inl, inr, Bool, true, false, ◌||◌, some, List, [], ◌∷◌,
  All, IsMember, arith, any, get_elem?, nat_eqb_iff, ◌==◌, Text, Bytes, Bool-cases, filter, map,
}
use mathlib.Core.Option.{some-injective}
use emvault_elements.Prelude.Tests.{nat_eq}
use emvault_elements.Prelude.Pairwise.{get_elem?-Pairwise, partner-Pairwise}
use emvault_elements.Prelude.Map
use emvault_elements.Prelude.Map.{Map}
use emvault_elements.Elements.{Pset, PsetInput}
use emvault_elements.Testkit.{Keys, PsetOps, SoftwareSigner, mine, sign_pset, serialized}
use emvault_elements.Testkit.Touched.{Touched, Within, Foreign, sign_pset-Within}
use emvault_elements.Testkit.Written.{SignedFor, Complete}
use emvault_elements.Testkit.Signing.{Hashes, Signs, sign_pset-Signs}
use emvault_elements.Testkit.Team.{SameInput, Resembles, Within-Resembles, Able}

-- The key is one of those that are listed with a path.
abbrev pub has_path : ℕ → List (ℕ × Text) → Bool
has_path pk ks = any (λ k. k.0 == pk) ks

filter-member :
    (fp pk : ℕ) (path : Text) (ds : Map ℕ (ℕ × Text))
    → IsMember (pk, (fp, path)) ds
    → has_path pk (map (λ d. (d.0, d.1.1)) (filter (λ d. d.1.0 == fp) ds)) ≡ true
filter-member fp pk path [] m = elim m [ ]
filter-member fp pk path ((k, (f, t)) ∷ ds) (inl e) =
    ground (arith, ap (λ (d : ℕ × (ℕ × Text)). d.0) e, ap (λ (d : ℕ × (ℕ × Text)). d.1.0) e)
filter-member fp pk path ((k, (f, t)) ∷ ds) (inr m) = ground (arith, filter-member fp pk path ds m)

-- A key with a listed path, with the path
path_of :
    (P : ℕ × Text → Type 0) (pk : ℕ) (ks : List (ℕ × Text))
    → All P ks
    → has_path pk ks ≡ true
    → (k : ℕ × Text) × (k.0 ≡ pk) × P k
path_of P pk [] h e = cc
path_of P pk (k ∷ ks) (p, h) e = elim (Bool-cases (k.0 == pk)) [
  | inl same ↦ (k, (nat_eqb_iff k.0 pk).0 same, p)
  | inr other ↦ path_of P pk ks h (ground arith)
]

module _ {K : Type 0} (keys : Keys K) (pset_ops : PsetOps) (p : Pset) where
  -- The signature is one that the signer makes for the input at `idx`, by a key path that it owns
  -- there.
  pub record Attests (signer : SoftwareSigner K) (able : Able keys pset_ops p signer) (idx : ℕ)
      (i : PsetInput) (pk : ℕ) (sig : Bytes) : Type 0 where
    pub path : Text
    pub owns : IsMember (pk, path) (mine keys signer i)
    pub made : sig ≡ serialized keys (able.message idx) (able.child path)

  -- Every signature satisfies `P`, and every key that `H` names has one.
  pub record Sealed (P : ℕ → PsetInput → ℕ → Bytes → Type 0) (H : PsetInput → ℕ → Bool) (q : Pset)
      : Type 0 where
    pub resembles : Resembles p q
    pub attested :
        (idx : ℕ) (i j : PsetInput) (pk : ℕ) (sig : Bytes)
        → get_elem? p.inputs idx ≡ some i
        → get_elem? q.inputs idx ≡ some j
        → Map.get pk j.partial_sigs ≡ some sig
        → P idx i pk sig
    pub present :
        (idx : ℕ) (i j : PsetInput) (pk : ℕ)
        → get_elem? p.inputs idx ≡ some i
        → get_elem? q.inputs idx ≡ some j
        → H i pk ≡ true
        → Map.contains_key pk j.partial_sigs ≡ true

  module _ (P : ℕ → PsetInput → ℕ → Bytes → Type 0) (H : PsetInput → ℕ → Bool)
      (signer : SoftwareSigner K) (able : Able keys pset_ops p signer) (q : Pset)
      (s : Sealed P H q) where
    hashed : Hashes keys signer able.child able.derives pset_ops able.tx able.message q
    unfolding Hashes
    hashed r idx w small =
        able.hashes r idx (Within-Resembles signer.fingerprint p q r s.resembles w) small

    signs :
        (after : Pset) × Signs keys signer able.child able.derives pset_ops able.tx able.message q
          hashed after
    signs =
        sign_pset-Signs keys signer able.child able.derives pset_ops able.tx able.message q hashed
          (able.extracts q s.resembles)

    after : Pset
    after = (sign_pset keys pset_ops signer q).1

    after-Within : Within signer.fingerprint q after
    unfolding after
    after-Within = sign_pset-Within keys signer pset_ops q

    module _ (idx : ℕ) (i j : PsetInput) (here : get_elem? p.inputs idx ≡ some i)
        (there : get_elem? after.inputs idx ≡ some j) where
      -- The input before the call
      between : (x : PsetInput) × (get_elem? q.inputs idx ≡ some x) × SameInput i x
      between = partner-Pairwise SameInput p.inputs q.inputs idx i s.resembles here

      touched : Touched signer.fingerprint between.0 j
      touched =
          get_elem?-Pairwise (Touched signer.fingerprint) q.inputs after.inputs idx between.0 j
            after-Within.inputs between.1 there

      complete : Complete keys signer able.child (able.message idx) between.0 j
      unfolding after
      complete =
          let (x, found, c) = signs.1.each idx between.0 between.1 in
          subst (Complete keys signer able.child (able.message idx) between.0)
            (some-injective x j
              (sym (ap (λ r. get_elem? r.1.inputs idx) signs.1.runs ∙ found) ∙ there))
            c

      same_mine : mine keys signer between.0 ≡ mine keys signer i
      unfolding mine SameInput
      same_mine =
          ap
            (λ (x : PsetInput).
              map (λ d. (d.0, d.1.1))
                (filter (λ d. d.1.0 == signer.fingerprint) x.bip32_derivation))
            between.2

      module _ (pk : ℕ) where
        signed_key :
            has_path pk (mine keys signer i) ≡ true
            → SignedFor keys signer able.child
                (able.message idx)
                (mine keys signer between.0)
                j.partial_sigs
                pk
        signed_key owned =
            let (k, same, h) =
              path_of
                (λ k.
                  SignedFor keys signer able.child (able.message idx) (mine keys signer between.0)
                    j.partial_sigs k.0)
                pk (mine keys signer between.0) complete.signatures
                (ap (has_path pk) same_mine ∙ owned) in
            subst
              (SignedFor keys signer able.child (able.message idx) (mine keys signer between.0)
                j.partial_sigs)
              same h

        Foreign-key :
            has_path pk (mine keys signer i) ≡ false
            → Foreign signer.fingerprint between.0.bip32_derivation pk
        unfolding Foreign mine
        Foreign-key other path m =
            let found = filter-member signer.fingerprint pk path between.0.bip32_derivation m in
            let owned : has_path pk (mine keys signer i) ≡ true =
              ap (has_path pk) (sym same_mine) ∙ found in
            cc

        sealed_sig :
            (sig : Bytes)
            → Map.get pk j.partial_sigs ≡ some sig
            → P idx i pk sig ⊎ Attests signer able idx i pk sig
        sealed_sig sig found = elim (Bool-cases (has_path pk (mine keys signer i))) [
          | inl owned ↦
              let h = signed_key owned in
              inr (record {
                path = h.path;
                owns = subst (IsMember (pk, h.path)) same_mine h.owns;
                made = some-injective sig _ (sym found ∙ h.signature);
              })
          | inr other ↦ inl (
              s.attested idx i between.0 pk sig here between.1
                (sym (touched.foreign pk (Foreign-key other)) ∙ found))
        ]

        sealed_key :
            (H i pk || has_path pk (mine keys signer i)) ≡ true
            → Map.contains_key pk j.partial_sigs ≡ true
        unfolding Map.contains_key
        sealed_key held = elim (Bool-cases (has_path pk (mine keys signer i))) [
          | inl owned ↦ rw ((signed_key owned).signature, Map.contains_key) refl
          | inr other ↦ touched.kept pk (s.present idx i between.0 pk here between.1 (ground arith))
        ]

    -- One signer more
    pub sign_pset-Sealed :
        Sealed
          (λ idx i pk sig. P idx i pk sig ⊎ Attests signer able idx i pk sig)
          (λ i pk. H i pk || has_path pk (mine keys signer i))
          (sign_pset keys pset_ops signer q).1
    unfolding after
    sign_pset-Sealed = record {
      resembles = Within-Resembles signer.fingerprint p q after s.resembles after-Within;
      attested = λ idx i j pk sig here there found. sealed_sig idx i j here there pk sig found;
      present = λ idx i j pk here there held. sealed_key idx i j here there pk held;
    }
