-- ===== src/Sync/Engine.antt =====
-- sync/scan.rs: `BlockScanEngine`, over any chain source and any stores.
use emvault_elements.Prelude.{
  ℕ, zero, suc, ◌+◌, ◌-◌, Bool, true, false, Option, none, some, List, [], ◌∷◌, ◌++◌, length,
  is_empty, leb, ltb, if◌then◌else◌, ◌==◌, wrap32, wrap64,
}
use emvault_elements.Prelude.Tests.{nat_eq, bytes_eq}
use emvault_elements.Prelude.Result.{map_err}
use emvault_elements.Prelude.Exec.{Exec, pure, lift, ◌>>=◌, ◌>>◌}
use emvault_elements.Prelude.Map
use emvault_elements.Prelude.Map.{Map}
use emvault_elements.Elements.{OutPoint, outpoint_eq, Script, Chain}
use emvault_elements.Error.{SyncError}
use emvault_elements.Wollet
use emvault_elements.Wollet.{ElementsWollet}
use emvault_elements.Sync.Types.{
  WalletId, SyncedTip, WalletUtxoStore, BlockStore, ElementsChainSource,
}
use emvault_elements.Sync.Scan.{ScriptEntry, BlockScanEngine, Pass, scan_txs}

pub record SyncSummary : Type 0 where
  pub blocks_scanned : ℕ
  pub utxos_captured : ℕ
  pub utxos_spent : ℕ
  pub skipped_unblindable : ℕ
  pub reorg_to : Option ℕ

-- `SyncSummary::default()`
abbrev pub empty_summary : SyncSummary
empty_summary = record {
  blocks_scanned = 0;
  utxos_captured = 0;
  utxos_spent = 0;
  skipped_unblindable = 0;
  reorg_to = none;
}

-- `BlockScanEngine::new` and `default`
abbrev pub new : BlockScanEngine
new = record { index = []; wollets = [] }

unfoldable pub index_scripts :
    WalletId → ℕ → List (Script × Chain × ℕ) → Map Script ScriptEntry → Map Script ScriptEntry
index_scripts id wollet_idx [] index = index
index_scripts id wollet_idx ((spk, chain, widx) ∷ rest) index = index_scripts id wollet_idx rest (
    Map.insert spk
      (record { wallet_id = id; chain = chain; wildcard_index = widx; wollet_idx = wollet_idx })
      index)

-- The wollet is pushed before its scripts are derived, so it stays after an error.
unfoldable pub register_wallet :
    WalletId → ElementsWollet → ℕ → Exec BlockScanEngine SyncError (Unit {0})
unfolding index_scripts
register_wallet id wollet gap engine =
    (do
      scripts ← lift (map_err SyncError.wollet (Wollet.watched_scripts wollet gap))
      λ e. pure tt (record e { index = index_scripts id (length engine.wollets) scripts e.index }))
      (record engine { wollets = engine.wollets ++ wollet ∷ [] })

unfoldable pub indexed_script_count : BlockScanEngine → ℕ
indexed_script_count e = length e.index

module _ {S : Type 0} (chain : ElementsChainSource S) (blocks : BlockStore S) where
  -- The guard of the loop: a hash is stored at `h`, and the node has the same one.
  unfoldable pub is_shared : ℕ → Exec S SyncError Bool
  is_shared h = do
    stored ← blocks.block_hash_at h
    elim stored [
      | none ↦ pure false
      | some hash ↦ do current ← chain.block_hash h; pure (hash == current)
    ]

  unfoldable pub find_common_ancestor : ℕ → Exec S SyncError ℕ
  find_common_ancestor zero = do is_shared zero; pure zero
  find_common_ancestor (suc h) = do
    shared ← is_shared (suc h)
    elim shared [ true ↦ pure (suc h) | false ↦ find_common_ancestor h ]

  module _ (utxos : WalletUtxoStore S) where
    -- The height to start from, and the ancestor that a reorganisation rolled back to.
    unfoldable pub start_height : Option SyncedTip → Exec S SyncError (ℕ × Option ℕ)
    start_height none = pure (0, none)
    start_height (some t) = do
      hash ← chain.block_hash t.height
      if hash == t.hash then pure (wrap32 (t.height + 1), none) else do
        ancestor ← find_common_ancestor t.height
        blocks.rollback_above ancestor
        utxos.rollback_above ancestor
        pure (wrap32 (ancestor + 1), some ancestor)

    -- `if !captured.is_empty() { utxos.upsert_utxos(&captured)?; }`, and so for the spends
    unfoldable pub write_pass : Pass → ℕ → Exec S SyncError (Unit {0})
    write_pass p h = do
      if is_empty p.captured then pure tt else utxos.upsert_utxos p.captured
      if is_empty p.spent then pure tt else utxos.mark_spent p.spent h

    abbrev pub add_pass : SyncSummary → Pass → SyncSummary
    add_pass s p = record s {
      blocks_scanned = wrap32 (s.blocks_scanned + 1);
      utxos_captured = wrap64 (s.utxos_captured + length p.captured);
      utxos_spent = wrap64 (s.utxos_spent + length p.spent);
      skipped_unblindable = p.skipped_unblindable;
    }

    module _ (engine : BlockScanEngine) where
      -- One round of the loop over the heights.
      unfoldable pub scan_block :
          ℕ
          → Map OutPoint WalletId
          → SyncSummary
          → Exec S SyncError (Map OutPoint WalletId × SyncSummary)
      scan_block h spend_index summary = do
        hash ← chain.block_hash h
        block ← chain.block hash
        blocks.store_block h hash block.serialized
        pass ← lift (
            scan_txs engine h block.txdata (record {
              spend_index = spend_index;
              captured = [];
              spent = [];
              skipped_unblindable = summary.skipped_unblindable;
            }))
        write_pass pass h
        pure (pass.spend_index, add_pass summary pass)

      -- `n` heights from `h` on.
      unfoldable pub scan_blocks :
          ℕ → ℕ → Map OutPoint WalletId → SyncSummary → Exec S SyncError SyncSummary
      scan_blocks zero h spend_index summary = pure summary
      scan_blocks (suc n) h spend_index summary = do
        (spend_index', summary') ← scan_block h spend_index summary
        scan_blocks n (suc h) spend_index' summary'

      -- The cursor moves to the chain's tip.
      unfoldable pub advance : ℕ → Exec S SyncError (Unit {0})
      advance tip = do
        tip_hash ← chain.block_hash tip
        blocks.set_synced_tip (record { height = tip; hash = tip_hash })

      unfoldable pub sync : Exec S SyncError SyncSummary
      sync = do
        tip ← chain.tip_height
        synced ← blocks.synced_tip
        (first, reorg_to) ← start_height synced
        let start = if ltb (wrap32 (tip + 1)) first then wrap32 (tip + 1) else first
        unspent ← utxos.unspent_outpoints
        summary ←
            scan_blocks (suc tip - start) start (Map.collect unspent)
              (record empty_summary { reorg_to = reorg_to })
        if leb start (wrap32 (tip + 1)) then advance tip else pure tt
        pure summary
