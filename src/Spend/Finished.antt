-- ===== src/Spend/Finished.antt =====
-- The PSET of a spend or a migration: its inputs are described by the items that they spend.
use emvault_elements.Prelude.{
  ℕ, ◌≡◌, refl, inl, inr, true, some, List, [], ◌∷◌, All, IsMember, map, any, get_elem?, set,
  Option-cases, Text,
}
use emvault_elements.Prelude.Result.{Result, ok}
use emvault_elements.Prelude.Pairwise.{Pairwise, none_left, both}
use emvault_elements.Prelude.Map
use emvault_elements.Prelude.Map.{Map}
use emvault_elements.Elements.{OutPoint, outpoint_eq, DefiniteDescriptor, Pset, PsetInput}
use emvault_elements.Error.{SpendError}
use emvault_elements.Pset.{BlindedPset, is_some}
use emvault_elements.Sync.Types.{CapturedUtxo}
use emvault_elements.Spend.{finish_blinded}
use emvault_elements.Spend.Sources.{Source, Enriches, none_there}
use emvault_elements.Spend.Enrich.{prevout_of, enriched_by, IsAnswered, finish_blinded_lem}

module _ (update : Pset → ℕ → DefiniteDescriptor → Result Text Pset)
    (described : DefiniteDescriptor → PsetInput → PsetInput) {A : Type 0}
    (utxo_of : A → CapturedUtxo) (Describes : A → DefiniteDescriptor → Type 0)
    (items : List A) where
  -- An input that spends the UTXO of an item carries a descriptor of an item with this
  -- outpoint; another one is as the builder left it.
  pub data Described (i : PsetInput) : PsetInput → Type 0 where
    foreign : ((a : A) → IsMember a items → (utxo_of a).outpoint ≡ prevout_of i → ⊥) → Described i i
    ours :
        (d : DefiniteDescriptor)
        → Source utxo_of Describes items (prevout_of i) d
        → Described i (described d i)

  -- `update_input_with_descriptor` accepts, for an input that spends the UTXO of an item, the
  -- descriptor of that item, and rewrites that input only.
  unfoldable pub IsAccepted : PsetInput → Type 0
  IsAccepted i =
      (d : DefiniteDescriptor) (p : Pset) (idx : ℕ)
      → Source utxo_of Describes items (prevout_of i) d
      → get_elem? p.inputs idx ≡ some i
      → update p idx d ≡ ok (record p { inputs = set p.inputs idx (described d i) })

  -- What the builder's PSET becomes
  pub record Spends (pset : Pset) (result : Result SpendError BlindedPset) : Type 0 where
    pub out : Pset
    pub runs : result ≡ ok (record { pset = out })
    pub inputs : Pairwise Described pset.inputs out.inputs
    pub outputs : out.outputs ≡ pset.outputs

  module _ (enrich : Map OutPoint DefiniteDescriptor)
      (enriches : Enriches utxo_of Describes items enrich) where
    enriched_by-Described : (i : PsetInput) → Described i (enriched_by update described enrich i)
    enriched_by-Described i = elim (Option-cases (Map.get (prevout_of i) enrich)) [
      | inl missing ↦
          rw (missing, enriched_by)
            (foreign (none_there utxo_of Describes items enrich (prevout_of i) enriches missing))
      | inr (d, found) ↦ rw (found, enriched_by) (ours d (enriches.sources (prevout_of i) d found))
    ]

    all_described :
        (is : List PsetInput) → Pairwise Described is (map (enriched_by update described enrich) is)
    all_described [] = none_left
    all_described (i ∷ is) = both i _ is _ (enriched_by-Described i) (all_described is)

    all-IsAnswered :
        (is : List PsetInput) → All IsAccepted is → All (IsAnswered update described enrich) is
    unfolding IsAccepted IsAnswered
    all-IsAnswered [] h = tt
    all-IsAnswered (i ∷ is) (h, hs) = (
      λ d p idx found here. h d p idx (enriches.sources (prevout_of i) d found) here,
      all-IsAnswered is hs,
    )

    -- If the map has exactly the descriptors of the items, the PSET has a range proof, and the
    -- descriptors are accepted at the inputs that spend the items, then `finish_blinded` succeeds
    -- with every input described, and with the outputs that the PSET has.
    pub finish_blinded-Spends :
        (pset : Pset)
        → any (λ o. is_some o.value_rangeproof) pset.outputs ≡ true
        → All IsAccepted pset.inputs
        → Spends pset (finish_blinded update pset enrich)
    finish_blinded-Spends pset blinded accepted = record {
      out = record pset { inputs = map (enriched_by update described enrich) pset.inputs };
      runs =
          finish_blinded_lem update described pset enrich (all-IsAnswered pset.inputs accepted)
            blinded;
      inputs = all_described pset.inputs;
      outputs = refl;
    }
