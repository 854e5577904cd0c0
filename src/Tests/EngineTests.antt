-- ===== src/Tests/EngineTests.antt =====
-- Runs of the engine, and a pass that fails half-way.
use emvault_elements.Prelude.{
  ℕ, ◌≡◌, true, false, Bool, refl, none, some, List, [], ◌∷◌, if◌then◌else◌, ◌==◌, codes, arith,
}
use emvault_elements.Prelude.Tests.{nat_eq, bytes_eq}
use emvault_elements.Prelude.Result.{Result, ok, err}
use emvault_elements.Prelude.Map
use emvault_elements.Elements.{outpoint_eq, Block, Chain}
use emvault_elements.Error.{SyncError}
use emvault_elements.Wollet
use emvault_elements.Sync.Types.{CapturedUtxo, ElementsChainSource, wallet_eq}
use emvault_elements.Sync.Scan.{scan_txs}
use emvault_elements.Sync.Engine.{
  sync, SyncSummary, start_height, advance, scan_blocks, scan_block, write_pass,
  find_common_ancestor, is_shared,
}
use emvault_elements.Sync.Fakes.{
  World, mock_chain, mem_blocks, mem_utxos, block_hash_at, block, block_hash, tip_height,
  store_block, unspent_outpoints, upsert_all, mark_spent, list_unspent,
}
use emvault_elements.Prelude.Exec.{pure, ◌>>=◌}
use emvault_elements.Sync.WalkBack.{round, walk_back, walk_back_lem}
use emvault_elements.Sync.Interrupted.{IsReader, Settled, sync-Settled}
use emvault_elements.Tests.SyncTests.{
  engine, old_chain, empty_world, diverged, wallet_id, genesis, paid, secrets,
}

find_ancestor_runs : find_common_ancestor mock_chain mem_blocks 2 diverged ≡ (ok 1, diverged)
unfolding find_common_ancestor is_shared block_hash_at block_hash Map.get
find_ancestor_runs = refl

-- The loop returns in its second round.
two_rounds : walk_back mock_chain mem_blocks 2 2 diverged ≡ (ok (some 1), diverged)
unfolding walk_back round is_shared block_hash_at block_hash Map.get
two_rounds = refl

walk_back_lem_example :
    walk_back mock_chain mem_blocks 3 2 diverged
    ≡ (find_common_ancestor mock_chain mem_blocks 2 >>= λ h. pure (some h)) diverged
walk_back_lem_example = walk_back_lem mock_chain mem_blocks 3 2 diverged (omega arith)

abbrev all_scanned : SyncSummary
all_scanned = record {
  blocks_scanned = 3;
  utxos_captured = 2;
  utxos_spent = 1;
  skipped_unblindable = 0;
  reorg_to = none;
}

sync_runs : (sync mock_chain mem_blocks mem_utxos engine (empty_world old_chain)).0 ≡ ok all_scanned
unfolding sync start_height advance scan_blocks scan_block scan_txs write_pass block block_hash
    tip_height store_block unspent_outpoints upsert_all mark_spent Map.collect Map.insert Map.remove
    Map.contains_key Map.modify Wollet.unblind
sync_runs = refl

-- A node that does not answer for block 102.
abbrev flaky : ElementsChainSource World
flaky = record mock_chain {
  block = λ hash w.
      if hash == 102
      then (err (SyncError.chain_source (codes "lost")), w)
      else (block w.source hash, w);
}

abbrev failed : World
failed = (sync flaky mem_blocks mem_utxos engine (empty_world old_chain)).1

failed_runs :
    (sync flaky mem_blocks mem_utxos engine (empty_world old_chain)).0
    ≡ err (SyncError.chain_source (codes "lost"))
unfolding sync start_height advance scan_blocks scan_block scan_txs write_pass block block_hash
    tip_height store_block unspent_outpoints upsert_all mark_spent Map.collect Map.insert Map.remove
    Map.contains_key Map.modify Wollet.unblind
failed_runs = refl

-- Then the node leaves the block that pays the wallet.
abbrev elsewhere : List Block
elsewhere = genesis ∷ record { block_hash = 301; txdata = []; serialized = [] } ∷ []

abbrev afterwards : World
afterwards =
    (sync mock_chain mem_blocks mem_utxos engine
      (record failed { source = record { chain = elsewhere; broadcasted = [] } })).1

abbrev phantom : CapturedUtxo
phantom = record {
  wallet_id = wallet_id;
  outpoint = record { txid = 11; vout = 0 };
  txout = paid;
  secrets = secrets;
  chain = Chain.external;
  wildcard_index = 0;
  height = 1;
  is_spent = false;
}

-- The next pass succeeds, and the output of the block that was left is still listed: the cursor
-- had not moved, so nothing was rolled back.
phantom_listed : list_unspent (afterwards.utxos) wallet_id ≡ phantom ∷ []
unfolding list_unspent sync start_height advance scan_blocks scan_block scan_txs write_pass block
    block_hash tip_height store_block unspent_outpoints upsert_all mark_spent Map.collect Map.insert
    Map.remove Map.contains_key Map.modify Wollet.unblind
phantom_listed = refl

cursor_moved : afterwards.store.tip ≡ some (record { height = 1; hash = 301 })
unfolding sync start_height advance scan_blocks scan_block scan_txs write_pass block block_hash
    tip_height store_block unspent_outpoints upsert_all mark_spent Map.collect Map.insert Map.remove
    Map.contains_key Map.modify Wollet.unblind
cursor_moved = refl

flaky-block :
    (hash : ℕ) (w : World) (b : Bool)
    → (if◌then◌else◌ {A = Result SyncError Block × World} b
        (err (SyncError.chain_source (codes "lost")), w)
        (block w.source hash, w)).1.store
      ≡ w.store
flaky-block hash w true = refl
flaky-block hash w false = refl

flaky-IsReader : IsReader flaky
flaky-IsReader = record {
  tips = λ w. refl;
  hashes = λ h w. refl;
  blocks = λ hash w. flaky-block hash w (hash == 102);
}

sync-Settled_example :
    Settled flaky flaky-IsReader
      (empty_world old_chain).store
      (sync flaky mem_blocks mem_utxos engine (empty_world old_chain))
sync-Settled_example = sync-Settled flaky flaky-IsReader engine (empty_world old_chain)
