-- ===== src/Spend.antt =====
-- spend.rs: spend-path construction.
pub mod Migration
pub mod Places
pub mod Sources
pub mod Prepare
pub mod Enrich
pub mod Built
pub mod Finished
pub mod Migrated
pub mod Proved
use emvault_elements.Prelude.{
  ℕ, zero, suc, false, Option, none, some, List, [], ◌∷◌, ◌++◌, length, get_elem?, codes, Text,
}
use emvault_elements.Prelude.Tests.{bytes_eq}
use emvault_elements.Prelude.Result.{Result, ok, map_err, ok_or, expect, ◌>>=◌}
use emvault_elements.Prelude.Map
use emvault_elements.Prelude.Map.{Map}
use emvault_elements.Elements.{
  OutPoint, outpoint_eq, TxOut, TxOutSecrets, Chain, external, internal, Address, SingleDescriptor,
  DefiniteDescriptor, Pset,
}
use emvault_elements.Error.{SpendError, WolletError}
use emvault_elements.Network.{LwkNetwork}
use emvault_elements.Wollet
use emvault_elements.Wollet.{ElementsWollet}
use emvault_elements.Pset.{BlindedPset, new_blinded}
use emvault_elements.Sync.Types.{WalletId, CapturedUtxo}

-- lwk_wollet::ExternalUtxo; its field `tx` is always `None` here.
pub record ExternalUtxo : Type 0 where
  pub outpoint : OutPoint
  pub txout : TxOut
  pub unblinded : TxOutSecrets
  pub max_weight_to_satisfy : ℕ

-- lwk_wollet::TxBuilder: a builder `B`, and fee rates `F` (an `f32` in the source).
pub record TxBuilder (B F : Type 0) : Type 0 where
  pub new : LwkNetwork → B
  pub add_external_utxos : List ExternalUtxo → B → Result Text B
  pub add_lbtc_recipient : Address → ℕ → B → Result Text B
  pub drain_lbtc_wallet : B → B
  pub drain_lbtc_to : Address → B → B
  pub fee_rate : Option F → B → B
  pub finish : ElementsWollet → B → Result Text Pset

-- What happened in the builder is a build error.
abbrev built : {A : Type 0} → Result Text A → Result SpendError A
built = map_err SpendError.build

unfoldable pub captured_from_output :
    ElementsWollet
    → ℕ
    → ℕ
    → TxOut
    → WalletId
    → ℕ
    → (WolletError → Text)
    → Result SpendError CapturedUtxo
captured_from_output wollet txid vout txout wallet_id wildcard_index to_text = do
  secrets ← map_err (λ e. SpendError.unblind (to_text e)) (Wollet.unblind wollet txout)
  ok (record {
    wallet_id = wallet_id;
    outpoint = record { txid = txid; vout = vout };
    txout = txout;
    secrets = secrets;
    chain = external;
    wildcard_index = wildcard_index;
    height = 0;
    is_spent = false;
  })

abbrev described : {A : Type 0} → Result Text A → Result SpendError A
described = map_err SpendError.descriptor

unfoldable pub singles_of : ElementsWollet → Result SpendError (List SingleDescriptor)
singles_of wollet = do
  multipath ← described wollet.descriptor.descriptor
  described multipath.into_single_descriptors

unfoldable pub definite_at : List SingleDescriptor → ℕ → ℕ → Result SpendError DefiniteDescriptor
definite_at singles chain index = do
  single ←
      ok_or (SpendError.descriptor (codes "missing chain descriptor")) (get_elem? singles chain)
  described (single.at_derivation_index index)

unfoldable pub max_weight_of : List SingleDescriptor → Result SpendError ℕ
max_weight_of singles = do
  single ← ok_or (SpendError.descriptor (codes "descriptor has no chains")) (get_elem? singles 0)
  definite ← described (single.at_derivation_index 0)
  described definite.max_weight_to_satisfy

unfoldable pub external_utxo : CapturedUtxo → ℕ → ExternalUtxo
external_utxo u max_weight = record {
  outpoint = u.outpoint;
  txout = u.txout;
  unblinded = u.secrets;
  max_weight_to_satisfy = max_weight;
}

-- `chain as usize`
abbrev pub chain_index : Chain → ℕ
chain_index external = 0
chain_index internal = 1

abbrev pub Prepared : Type 0
Prepared = List ExternalUtxo × Map OutPoint DefiniteDescriptor

unfoldable pub prepare_from :
    List SingleDescriptor → ℕ → List CapturedUtxo → Prepared → Result SpendError Prepared
unfolding external_utxo
prepare_from singles weight [] done = ok done
prepare_from singles weight (u ∷ us) (externals, enrich) = do
  definite ← definite_at singles (chain_index u.chain) u.wildcard_index
  prepare_from singles weight us
      (externals ++ external_utxo u weight ∷ [], Map.insert u.outpoint definite enrich)

unfoldable pub prepare_inputs :
    List CapturedUtxo → List SingleDescriptor → Result SpendError Prepared
prepare_inputs utxos singles = do
  weight ← max_weight_of singles
  prepare_from singles weight utxos ([], [])

abbrev pub Cache : Type 0
Cache = Map Text (List SingleDescriptor)

-- The single-path forms of the owner, from the cache or put into it.
unfoldable pub cached_singles :
    Cache → ElementsWollet → Result SpendError (List SingleDescriptor × Cache)
cached_singles cache owner = elim (Map.get owner.descriptor.text cache) [
  | some singles ↦ ok (singles, cache)
  | none ↦ do
    singles ← singles_of owner
    ok (singles, Map.insert owner.descriptor.text singles cache)
]

unfoldable pub migrate_from :
    List (CapturedUtxo × ElementsWollet) → Cache → Prepared → Result SpendError Prepared
unfolding cached_singles external_utxo
migrate_from [] cache done = ok done
migrate_from ((utxo, owner) ∷ rest) cache (externals, enrich) = do
  (singles, cache') ← cached_singles cache owner
  weight ← max_weight_of singles
  definite ← definite_at singles (chain_index utxo.chain) utxo.wildcard_index
  migrate_from rest cache'
      (externals ++ external_utxo utxo weight ∷ [], Map.insert utxo.outpoint definite enrich)

-- `PsbtExt::update_input_with_descriptor` is the caller's.
module _ (update : Pset → ℕ → DefiniteDescriptor → Result Text Pset) where
  unfoldable pub enrich_input : Map OutPoint DefiniteDescriptor → ℕ → Pset → Result SpendError Pset
  enrich_input enrich idx pset = do
    input ← expect (get_elem? pset.inputs idx)
    let prevout : OutPoint = record {
      txid = input.previous_txid;
      vout = input.previous_output_index;
    }
    elim (Map.get prevout enrich) [
      | none ↦ ok pset
      | some definite ↦ map_err SpendError.enrich (update pset idx definite)
    ]

  -- The loop `for idx in idx..` with `n` rounds left.
  unfoldable pub enrich_from :
      Map OutPoint DefiniteDescriptor → ℕ → ℕ → Pset → Result SpendError Pset
  unfolding enrich_input
  enrich_from enrich zero idx pset = ok pset
  enrich_from enrich (suc n) idx pset = do
    pset' ← enrich_input enrich idx pset
    enrich_from enrich n (suc idx) pset'

  unfoldable pub finish_blinded :
      Pset → Map OutPoint DefiniteDescriptor → Result SpendError BlindedPset
  unfolding enrich_from
  finish_blinded pset enrich = do
    enriched ← enrich_from enrich (length pset.inputs) 0 pset
    map_err SpendError.pset (new_blinded enriched)

  module _ {B F : Type 0} (lwk : TxBuilder B F) where
    unfoldable pub build_spend_pset :
        ElementsWollet → List CapturedUtxo → Address → ℕ → F → Result SpendError BlindedPset
    build_spend_pset wollet utxos recipient amount fee = do
      singles ← singles_of wollet
      (externals, enrich) ← prepare_inputs utxos singles
      funded ← built (lwk.add_external_utxos externals (lwk.new wollet.lwk_network))
      paid ← built (lwk.add_lbtc_recipient recipient amount funded)
      pset ← built (lwk.finish wollet (lwk.fee_rate (some fee) paid))
      finish_blinded pset enrich

    unfoldable pub build_sweep_pset :
        ElementsWollet → List CapturedUtxo → Address → F → Result SpendError BlindedPset
    build_sweep_pset wollet utxos recipient fee = do
      singles ← singles_of wollet
      (externals, enrich) ← prepare_inputs utxos singles
      funded ← built (lwk.add_external_utxos externals (lwk.new wollet.lwk_network))
      pset ← built (
          lwk.finish wollet
            (lwk.fee_rate (some fee) (lwk.drain_lbtc_to recipient (lwk.drain_lbtc_wallet funded))))
      finish_blinded pset enrich

    unfoldable pub add_recipients : List (Address × ℕ) → B → Result SpendError B
    add_recipients [] b = ok b
    add_recipients ((addr, amount) ∷ rest) b = do
      b' ← built (lwk.add_lbtc_recipient addr amount b)
      add_recipients rest b'

    unfoldable pub build_migration_pset :
        ElementsWollet
        → List (CapturedUtxo × ElementsWollet)
        → List (Address × ℕ)
        → Address
        → F
        → Result SpendError BlindedPset
    build_migration_pset fee_wollet inputs customers dest fee = do
      (externals, enrich) ← migrate_from inputs [] ([], [])
      funded ← built (lwk.add_external_utxos externals (lwk.new fee_wollet.lwk_network))
      paid ← add_recipients customers funded
      pset ← built (
          lwk.finish fee_wollet
            (lwk.fee_rate (some fee) (lwk.drain_lbtc_to dest (lwk.drain_lbtc_wallet paid))))
      finish_blinded pset enrich
