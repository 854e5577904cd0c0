-- ===== src/Spend/Migrated.antt =====
-- A migration, from the UTXOs of many accounts to the blinded PSET.
use emvault_elements.Prelude.{
  ℕ, ◌≡◌, refl, sym, ap, ◌∙◌, true, some, List, [], ◌∷◌, ◌++◌, All, any, append_assoc, append-nil,
  Text,
}
use emvault_elements.Prelude.Result.{Result, ok}
use emvault_elements.Prelude.Map
use emvault_elements.Prelude.Map.{Map}
use emvault_elements.Elements.{
  OutPoint, outpoint_eq, SingleDescriptor, DefiniteDescriptor, Pset, PsetInput, Address,
}
use emvault_elements.Error.{SpendError}
use emvault_elements.Pset.{is_some}
use emvault_elements.Wollet.{ElementsWollet}
use emvault_elements.Sync.Types.{CapturedUtxo}
use emvault_elements.Spend.{
  TxBuilder, ExternalUtxo, external_utxo, add_recipients, migrate_from, build_migration_pset,
}
use emvault_elements.Spend.Places.{
  Describes, Weighs, Splits, offered, Describes-definite_at, Weighs-max_weight_of,
  Splits-singles_of,
}
use emvault_elements.Spend.Sources.{Definite, enriched, enriched_all-Enriches}
use emvault_elements.Spend.Finished.{IsAccepted, Spends, finish_blinded-Spends}
use emvault_elements.Spend.Migration.{IsFormed, migrate_each, migrate_from_lem}

-- The items of a migration are UTXOs with their owners.
abbrev pub Owned : Type 0
Owned = CapturedUtxo × ElementsWollet

abbrev pub utxo_of : Owned → CapturedUtxo
utxo_of o = o.0

-- The descriptor is that of the UTXO's own owner, at the UTXO's chain and index.
pub record OwnerDescribes (o : Owned) (d : DefiniteDescriptor) : Type 0 where
  pub singles : List SingleDescriptor
  pub splits : Splits o.1 singles
  pub describes : Describes singles o.0 d

-- The owner's descriptor splits, gives a weight, and a descriptor at the UTXO's chain and index.
pub record Derivable (o : Owned) : Type 0 where
  pub singles : List SingleDescriptor
  pub weight : ℕ
  pub definite : DefiniteDescriptor
  pub splits : Splits o.1 singles
  pub weighs : Weighs singles weight
  pub describes : Describes singles o.0 definite

Derivable-Definite : (o : Owned) → Derivable o → Definite utxo_of OwnerDescribes o
Derivable-Definite o d = record {
  definite = d.definite;
  describes = record { singles = d.singles; splits = d.splits; describes = d.describes };
}

definites : (os : List Owned) → All Derivable os → All (Definite utxo_of OwnerDescribes) os
definites [] ds = tt
definites (o ∷ os) (d, ds) = (Derivable-Definite o d, definites os ds)

-- One external UTXO for each captured one, with the weight of its owner
unfoldable pub externals_of : (os : List Owned) → All Derivable os → List ExternalUtxo
externals_of [] ds = []
externals_of (o ∷ os) (d, ds) = offered o.0 d.weight ∷ externals_of os ds

migrate_each_lem :
    (os : List Owned) (ds : All Derivable os) (externals : List ExternalUtxo)
    (m : Map OutPoint DefiniteDescriptor)
    → migrate_each os (externals, m)
      ≡ ok (externals ++ externals_of os ds, enriched utxo_of OwnerDescribes os (definites os ds) m)
unfolding migrate_each enriched external_utxo externals_of definites Derivable-Definite
migrate_each_lem [] ds externals m = ap (λ l. ok (l, m)) (sym (append-nil externals))
migrate_each_lem (o ∷ os) (d, ds) externals m =
    let m' = Map.insert o.0.outpoint d.definite m in
    rw
      (
        Splits-singles_of o.1 d.singles d.splits,
        Weighs-max_weight_of d.singles d.weight d.weighs,
        Describes-definite_at d.singles o.0 d.definite d.describes,
      )
      (migrate_each_lem os ds (externals ++ offered o.0 d.weight ∷ []) m'
        ∙ ap (λ l. ok (l, enriched utxo_of OwnerDescribes os (definites os ds) m'))
            (append_assoc externals (offered o.0 d.weight ∷ []) (externals_of os ds)))

module _ {B F : Type 0} (lwk : TxBuilder B F) where
  -- The recipients are added in order, each with its exact amount.
  pub data Pays : List (Address × ℕ) → B → B → Type 0 where
    done : (b : B) → Pays [] b b
    pay :
        (addr : Address) (amount : ℕ) (rest : List (Address × ℕ)) (b c d : B)
        → lwk.add_lbtc_recipient addr amount b ≡ ok c
        → Pays rest c d
        → Pays ((addr, amount) ∷ rest) b d

  add_recipients_lem :
      (update : Pset → ℕ → DefiniteDescriptor → Result Text Pset) (to : List (Address × ℕ))
      (b c : B)
      → Pays to b c
      → add_recipients update lwk to b ≡ ok c
  unfolding add_recipients
  add_recipients_lem update _ _ _ (done b) = refl
  add_recipients_lem update _ _ _ (pay addr amount rest b c d e h) =
      rw e (add_recipients_lem update rest c d h)

  -- What the builder makes of the external UTXOs, the customers and the drain
  pub record Assembled (wollet : ElementsWollet) (externals : List ExternalUtxo)
      (customers : List (Address × ℕ)) (dest : Address) (fee : F) : Type 0 where
    pub funded : B
    pub paid : B
    pub pset : Pset
    pub funds : lwk.add_external_utxos externals (lwk.new wollet.lwk_network) ≡ ok funded
    pub pays : Pays customers funded paid
    pub finishes :
        lwk.finish wollet
          (lwk.fee_rate (some fee) (lwk.drain_lbtc_to dest (lwk.drain_lbtc_wallet paid)))
        ≡ ok pset

module _ (update : Pset → ℕ → DefiniteDescriptor → Result Text Pset)
    (described : DefiniteDescriptor → PsetInput → PsetInput)
    (forms : Text → Result SpendError (List SingleDescriptor)) (inputs : List Owned) where
  -- If every owner's descriptor splits, gives a weight and a descriptor at the chain and index of
  -- its UTXO, owners whose descriptors have the same text have the same single-path forms, the
  -- builder assembles a PSET with a range proof from the UTXOs (each with its own owner's weight),
  -- the customers in order, each with its amount, and the drain to the fee account, and the
  -- descriptors are accepted at the inputs that spend the UTXOs, then `build_migration_pset`
  -- succeeds. Its PSET has the builder's outputs and inputs, each input that spends one of the
  -- UTXOs described by that UTXO's own owner at its chain and index, and every other input
  -- unchanged.
  pub build_migration_pset-Spends :
      {B F : Type 0} (lwk : TxBuilder B F) (fee_wollet : ElementsWollet)
      (customers : List (Address × ℕ)) (dest : Address) (fee : F)
      → All (λ o. IsFormed forms o.1) inputs
      → (ds : All Derivable inputs)
      → (built : Assembled lwk fee_wollet (externals_of inputs ds) customers dest fee)
      → any (λ o. is_some o.value_rangeproof) built.pset.outputs ≡ true
      → All (IsAccepted update described utxo_of OwnerDescribes inputs) built.pset.inputs
      → Spends update described utxo_of OwnerDescribes inputs built.pset
          (build_migration_pset update lwk fee_wollet inputs customers dest fee)
  unfolding build_migration_pset
  build_migration_pset-Spends lwk fee_wollet customers dest fee formed ds built blinded accepted =
      let enrich = enriched utxo_of OwnerDescribes inputs (definites inputs ds) [] in
      let prepared : migrate_from inputs [] ([], []) ≡ ok (externals_of inputs ds, enrich) =
        migrate_from_lem forms inputs ([], []) formed ∙ migrate_each_lem inputs ds [] [] in
      rw
        (
          prepared,
          built.funds,
          add_recipients_lem lwk update customers _ _ built.pays,
          built.finishes,
        )
        (finish_blinded-Spends update described utxo_of OwnerDescribes inputs enrich
          (enriched_all-Enriches utxo_of OwnerDescribes inputs (definites inputs ds)) built.pset
          blinded accepted)
