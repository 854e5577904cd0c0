-- ===== src/Sync/Behind.antt =====
-- A node whose chain is shorter than what has been synced.
use emvault_elements.Prelude.{
  ℕ, ◌-◌, List, [], ◌∷◌, ◌≤◌, ◌<◌, ◌^◌, ◌≡◌, some, ◌++◌, arith, length, get_elem?-past, codes,
  decimal,
}
use emvault_elements.Prelude.Result.{ok, err}
use emvault_elements.Elements.{Block, Transaction}
use emvault_elements.Error.{SyncError}
use emvault_elements.Sync.Types.{SyncedTip}
use emvault_elements.Sync.Scan.{BlockScanEngine}
use emvault_elements.Sync.Engine.{start_height, sync}
use emvault_elements.Sync.Fakes.{World, mock_chain, mem_blocks, mem_utxos, block_hash, tip_height}

-- The error of the node for a height it has no block at.
abbrev pub no_block : ℕ → SyncError
no_block h = SyncError.chain_source (codes "no block at height " ++ decimal h)

tip_exists :
    (sent : List Transaction) (bs : List Block)
    → 0 < length bs
    → length bs < 2 ^ 32
    → tip_height (record { chain = bs; broadcasted = sent }) ≡ ok (length bs - 1)
unfolding tip_height
tip_exists sent [] some_block short = elim some_block [ ]
tip_exists sent (b ∷ bs) some_block short = ground arith

module _ (engine : BlockScanEngine) (w : World) (t : SyncedTip) where
  no_hash :
      length w.source.chain ≤ t.height → block_hash w.source t.height ≡ err (no_block t.height)
  unfolding block_hash
  no_hash behind = rw (get_elem?-past w.source.chain t.height behind)

  -- If the cursor stands above the node's chain (which is not empty, and whose height fits a
  -- `u32`), a pass fails with the node's error and writes nothing. So the clamp of the start
  -- height in `sync` is not reached with such a chain source.
  pub sync_behind :
      w.store.tip ≡ some t
      → length w.source.chain ≤ t.height
      → 0 < length w.source.chain
      → length w.source.chain < 2 ^ 32
      → sync mock_chain mem_blocks mem_utxos engine w ≡ (err (no_block t.height), w)
  unfolding sync start_height
  sync_behind cursor behind some_block short =
      rw (tip_exists w.source.broadcasted w.source.chain some_block short, cursor, no_hash behind)
