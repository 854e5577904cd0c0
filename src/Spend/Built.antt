-- ===== src/Spend/Built.antt =====
-- A spend and a sweep, from the UTXOs to the blinded PSET.
use emvault_elements.Prelude.{ℕ, ◌≡◌, true, some, List, All, map, any, Text}
use emvault_elements.Prelude.Result.{Result, ok}
use emvault_elements.Elements.{
  outpoint_eq, SingleDescriptor, DefiniteDescriptor, Pset, PsetInput, Address,
}
use emvault_elements.Pset.{is_some}
use emvault_elements.Wollet.{ElementsWollet}
use emvault_elements.Sync.Types.{CapturedUtxo}
use emvault_elements.Spend.{TxBuilder, build_spend_pset, build_sweep_pset}
use emvault_elements.Spend.Places.{Describes, Weighs, Splits, offered, Splits-singles_of}
use emvault_elements.Spend.Sources.{Definite}
use emvault_elements.Spend.Prepare.{own, prepare_inputs-Prepares}
use emvault_elements.Spend.Finished.{IsAccepted, Spends, finish_blinded-Spends}

module _ (update : Pset → ℕ → DefiniteDescriptor → Result Text Pset)
    (described : DefiniteDescriptor → PsetInput → PsetInput) (singles : List SingleDescriptor)
    (utxos : List CapturedUtxo) where
  -- What the builder makes of the external UTXOs and one recipient
  pub record Assembled {B F : Type 0} (lwk : TxBuilder B F) (wollet : ElementsWollet) (weight : ℕ)
      (recipient : Address) (amount : ℕ) (fee : F) : Type 0 where
    pub funded : B
    pub paid : B
    pub pset : Pset
    pub funds :
        lwk.add_external_utxos (map (λ u. offered u weight) utxos) (lwk.new wollet.lwk_network)
        ≡ ok funded
    pub pays : lwk.add_lbtc_recipient recipient amount funded ≡ ok paid
    pub finishes : lwk.finish wollet (lwk.fee_rate (some fee) paid) ≡ ok pset

  -- What the builder makes of the external UTXOs when all of them are drained to one address
  pub record Drained {B F : Type 0} (lwk : TxBuilder B F) (wollet : ElementsWollet) (weight : ℕ)
      (recipient : Address) (fee : F) : Type 0 where
    pub funded : B
    pub pset : Pset
    pub funds :
        lwk.add_external_utxos (map (λ u. offered u weight) utxos) (lwk.new wollet.lwk_network)
        ≡ ok funded
    pub finishes :
        lwk.finish wollet
          (lwk.fee_rate (some fee) (lwk.drain_lbtc_to recipient (lwk.drain_lbtc_wallet funded)))
        ≡ ok pset

  -- If the wollet's descriptor splits, gives a weight, and gives each UTXO a descriptor at its
  -- chain and index, if the builder assembles a PSET of the captured UTXOs (one external UTXO for
  -- each) with a range proof, and if the descriptors are accepted at the inputs that spend them,
  -- then `build_spend_pset` succeeds. Its PSET has the builder's outputs and inputs, each input
  -- that spends a captured UTXO described by that UTXO's chain and index, and every other input
  -- unchanged.
  pub build_spend_pset-Spends :
      {B F : Type 0} (lwk : TxBuilder B F) (wollet : ElementsWollet) (weight : ℕ)
      (recipient : Address) (amount : ℕ) (fee : F)
      → Splits wollet singles
      → Weighs singles weight
      → All (Definite own (Describes singles)) utxos
      → (built : Assembled lwk wollet weight recipient amount fee)
      → any (λ o. is_some o.value_rangeproof) built.pset.outputs ≡ true
      → All (IsAccepted update described own (Describes singles) utxos) built.pset.inputs
      → Spends update described own
          (Describes singles)
          utxos
          built.pset
          (build_spend_pset update lwk wollet utxos recipient amount fee)
  unfolding build_spend_pset
  build_spend_pset-Spends lwk wollet weight recipient amount fee splits weighs definites built
        blinded accepted =
      let prepared = prepare_inputs-Prepares singles weight utxos weighs definites in
      rw
        (
          Splits-singles_of wollet singles splits,
          prepared.runs,
          built.funds,
          built.pays,
          built.finishes,
        )
        (finish_blinded-Spends update described own (Describes singles) utxos prepared.enrich
          prepared.enriches built.pset blinded accepted)

  -- If the wollet's descriptor splits, gives a weight, and gives each UTXO a descriptor at its
  -- chain and index, if the builder assembles a PSET with a range proof from the captured UTXOs
  -- (one external UTXO for each), drained to the recipient, and if the descriptors are accepted
  -- at the inputs that spend them, then `build_sweep_pset` succeeds. Its PSET has the builder's
  -- outputs and inputs, each input that spends a captured UTXO described by that UTXO's chain and
  -- index, and every other input unchanged.
  pub build_sweep_pset-Spends :
      {B F : Type 0} (lwk : TxBuilder B F) (wollet : ElementsWollet) (weight : ℕ)
      (recipient : Address) (fee : F)
      → Splits wollet singles
      → Weighs singles weight
      → All (Definite own (Describes singles)) utxos
      → (built : Drained lwk wollet weight recipient fee)
      → any (λ o. is_some o.value_rangeproof) built.pset.outputs ≡ true
      → All (IsAccepted update described own (Describes singles) utxos) built.pset.inputs
      → Spends update described own
          (Describes singles)
          utxos
          built.pset
          (build_sweep_pset update lwk wollet utxos recipient fee)
  unfolding build_sweep_pset
  build_sweep_pset-Spends lwk wollet weight recipient fee splits weighs definites built blinded
        accepted =
      let prepared = prepare_inputs-Prepares singles weight utxos weighs definites in
      rw (Splits-singles_of wollet singles splits, prepared.runs, built.funds, built.finishes)
        (finish_blinded-Spends update described own (Describes singles) utxos prepared.enrich
          prepared.enriches built.pset blinded accepted)
