-- ===== src/Spend/Proved.antt =====
-- No PSET leaves the pipeline as blinded without a range proof: pset.rs and spend.rs.
use emvault_elements.Prelude.{ℕ, ◌≡◌, refl, subst, sym, some, List, [], Text}
use emvault_elements.Prelude.Result.{Result, ok, err, panic, map_err, >>=-eq-ok, ◌>>=◌}
use emvault_elements.Prelude.Map.{Map}
use emvault_elements.Elements.{
  OutPoint, outpoint_eq, DefiniteDescriptor, Pset, Address, TxOutSecrets,
}
use emvault_elements.Error.{SpendError, PsetError}
use emvault_elements.Pset.{UnsignedPset, BlindedPset, new_blinded, blind_pset}
use emvault_elements.Pset.Stages.{IsProved, new_blinded_iff, blind_pset_iff}
use emvault_elements.Wollet.{ElementsWollet}
use emvault_elements.Sync.Types.{CapturedUtxo}
use emvault_elements.Spend.{
  TxBuilder, Prepared, finish_blinded, singles_of, prepare_inputs, migrate_from, add_recipients,
  build_spend_pset, build_sweep_pset, build_migration_pset,
}

-- If the call returns a PSET, it has a range proof.
OnlyProved : Result SpendError BlindedPset → Type 0
OnlyProved r = (b : BlindedPset) → r ≡ ok b → IsProved b.pset.outputs

bind-OnlyProved :
    {A : Type 0} (r : Result SpendError A) (k : A → Result SpendError BlindedPset)
    → ((a : A) → OnlyProved (k a))
    → OnlyProved (r >>= k)
unfolding OnlyProved
bind-OnlyProved r k h b e = let (a, returned, e') = >>=-eq-ok r k e in h a b e'

wrapped-OnlyProved :
    (p : Pset) (r : Result PsetError BlindedPset)
    → new_blinded p ≡ r
    → OnlyProved (map_err SpendError.pset r)
unfolding OnlyProved
wrapped-OnlyProved p (ok a) made b e =
    let same : a ≡ b = cc in
    let (holds, proved) = (new_blinded_iff p a).0 made in
    subst (λ (x : BlindedPset). IsProved x.pset.outputs) same
      (subst (λ (x : Pset). IsProved x.outputs) (sym holds) proved)
wrapped-OnlyProved p (err x) made b e = cc
wrapped-OnlyProved p panic made b e = cc

module _ (update : Pset → ℕ → DefiniteDescriptor → Result Text Pset) {B F : Type 0}
    (lwk : TxBuilder B F) (blind_last : Pset → Map ℕ TxOutSecrets → Result Text Pset) where
  finished-OnlyProved :
      (pset : Pset) (enrich : Map OutPoint DefiniteDescriptor)
      → OnlyProved (finish_blinded update pset enrich)
  unfolding finish_blinded
  finished-OnlyProved pset enrich =
      bind-OnlyProved _ _ λ p. wrapped-OnlyProved p (new_blinded p) refl

  abbrev funding : ElementsWollet → Prepared → Result SpendError B
  funding wollet prepared =
      map_err SpendError.build (lwk.add_external_utxos prepared.0 (lwk.new wollet.lwk_network))

  abbrev finishing : ElementsWollet → F → B → Result SpendError Pset
  finishing wollet fee b = map_err SpendError.build (lwk.finish wollet (lwk.fee_rate (some fee) b))

  abbrev draining : Address → B → B
  draining dest b = lwk.drain_lbtc_to dest (lwk.drain_lbtc_wallet b)

  spent-OnlyProved :
      (wollet : ElementsWollet) (utxos : List CapturedUtxo) (recipient : Address) (amount : ℕ)
      (fee : F)
      → OnlyProved (build_spend_pset update lwk wollet utxos recipient amount fee)
  unfolding build_spend_pset
  spent-OnlyProved wollet utxos recipient amount fee =
      bind-OnlyProved (singles_of wollet) _ λ singles.
        bind-OnlyProved (prepare_inputs utxos singles) _ λ prepared.
          bind-OnlyProved (funding wollet prepared) _ λ funded.
            bind-OnlyProved
              (map_err SpendError.build (lwk.add_lbtc_recipient recipient amount funded)) _
              λ paid.
                bind-OnlyProved (finishing wollet fee paid) _
                  λ pset. finished-OnlyProved pset prepared.1

  swept-OnlyProved :
      (wollet : ElementsWollet) (utxos : List CapturedUtxo) (recipient : Address) (fee : F)
      → OnlyProved (build_sweep_pset update lwk wollet utxos recipient fee)
  unfolding build_sweep_pset
  swept-OnlyProved wollet utxos recipient fee = bind-OnlyProved (singles_of wollet) _ λ singles.
      bind-OnlyProved (prepare_inputs utxos singles) _ λ prepared.
        bind-OnlyProved (funding wollet prepared) _ λ funded.
          bind-OnlyProved (finishing wollet fee (draining recipient funded)) _
            λ pset. finished-OnlyProved pset prepared.1

  migrated-OnlyProved :
      (wollet : ElementsWollet) (inputs : List (CapturedUtxo × ElementsWollet))
      (customers : List (Address × ℕ)) (dest : Address) (fee : F)
      → OnlyProved (build_migration_pset update lwk wollet inputs customers dest fee)
  unfolding build_migration_pset
  migrated-OnlyProved wollet inputs customers dest fee =
      bind-OnlyProved (migrate_from inputs [] ([], [])) _ λ prepared.
        bind-OnlyProved (funding wollet prepared) _ λ funded.
          bind-OnlyProved (add_recipients update lwk customers funded) _ λ paid.
            bind-OnlyProved (finishing wollet fee (draining dest paid)) _
              λ pset. finished-OnlyProved pset prepared.1

  -- A `BlindedPset` that some call returns
  pub data Returned (b : BlindedPset) : Type 0 where
    wrapped : (p : Pset) → new_blinded p ≡ ok b → Returned b
    blinded :
        (u : UnsignedPset) (secrets : Map ℕ TxOutSecrets)
        → blind_pset blind_last u secrets ≡ ok b
        → Returned b
    spent :
        (wollet : ElementsWollet) (utxos : List CapturedUtxo) (recipient : Address) (amount : ℕ)
        (fee : F)
        → build_spend_pset update lwk wollet utxos recipient amount fee ≡ ok b
        → Returned b
    swept :
        (wollet : ElementsWollet) (utxos : List CapturedUtxo) (recipient : Address) (fee : F)
        → build_sweep_pset update lwk wollet utxos recipient fee ≡ ok b
        → Returned b
    migrated :
        (wollet : ElementsWollet) (inputs : List (CapturedUtxo × ElementsWollet))
        (customers : List (Address × ℕ)) (dest : Address) (fee : F)
        → build_migration_pset update lwk wollet inputs customers dest fee ≡ ok b
        → Returned b

  -- Whatever the third-party calls return: a `BlindedPset` that `BlindedPset::new`, `blind_pset`,
  -- `build_spend_pset`, `build_sweep_pset` or `build_migration_pset` returns has an output with a
  -- range proof.
  pub Returned-IsProved : (b : BlindedPset) → Returned b → IsProved b.pset.outputs
  unfolding OnlyProved
  Returned-IsProved b (wrapped p e) =
      let (holds, proved) = (new_blinded_iff p b).0 e in
      subst (λ (x : Pset). IsProved x.outputs) (sym holds) proved
  Returned-IsProved b (blinded u secrets e) = ((blind_pset_iff blind_last u secrets b).0 e).1
  Returned-IsProved b (spent wollet utxos recipient amount fee e) =
      spent-OnlyProved wollet utxos recipient amount fee b e
  Returned-IsProved b (swept wollet utxos recipient fee e) =
      swept-OnlyProved wollet utxos recipient fee b e
  Returned-IsProved b (migrated wollet inputs customers dest fee e) =
      migrated-OnlyProved wollet inputs customers dest fee b e
