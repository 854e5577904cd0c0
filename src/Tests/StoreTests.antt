-- ===== src/Tests/StoreTests.antt =====
-- What the stores hold after a pass: what is listed, a rollback, and a node that falls back.
use emvault_elements.Prelude.{
  IsMember, ◌≡◌, ◌↔◌, false, refl, none, some, [], ◌∷◌, arith, take, drop,
}
use emvault_elements.Prelude.Tests.{bytes_eq, nat_eq}
use emvault_elements.Prelude.Result.{err}
use emvault_elements.Elements.{outpoint_eq, Chain}
use emvault_elements.Sync.Types.{CapturedUtxo}
use emvault_elements.Sync.Engine.{sync}
use emvault_elements.Sync.Fakes.{World, mock_chain, mem_blocks, mem_utxos, list_unspent}
use emvault_elements.Sync.Ledger.{dated, ledger}
use emvault_elements.Sync.Cursor.{Synced}
use emvault_elements.Sync.Rollback.{rolled_back, rolled_back-Synced}
use emvault_elements.Sync.Balance.{Spendable, list_unspent_lem}
use emvault_elements.Sync.Behind.{no_block, sync_behind}
use emvault_elements.Tests.SyncTests.{
  engine, wallet_id, secrets, paid, genesis, empty_world, old_chain, old-IsChain, first_pass,
}

-- The node fell back to its first two blocks.
abbrev behind : World
behind = record (empty_world (genesis ∷ [])) {
  store = record { blocks = []; tip = some (record { height = 2; hash = 102 }) };
}

sync_behind_example :
    sync mock_chain mem_blocks mem_utxos engine behind ≡ (err (no_block 2), behind)
sync_behind_example =
    sync_behind engine behind (record { height = 2; hash = 102 }) refl (omega arith) (omega arith)
      (omega arith)

-- The spend at height 2 is undone.
rolled_back-Synced_example : Synced engine (rolled_back first_pass.after 1) (take 2 old_chain)
unfolding first_pass
rolled_back-Synced_example =
    rolled_back-Synced engine first_pass.after 1 (take 2 old_chain) (drop 2 old_chain) (omega arith)
      old-IsChain.once first_pass.synced

-- The second output is the wallet's.
abbrev pub balance : CapturedUtxo
balance = record {
  wallet_id = wallet_id;
  outpoint = record { txid = 12; vout = 0 };
  txout = paid;
  secrets = secrets;
  chain = Chain.external;
  wildcard_index = 0;
  height = 2;
  is_spent = false;
}

list_unspent_lem_example :
    IsMember balance (list_unspent (first_pass.after.utxos) wallet_id)
    ↔ Spendable (λ op. ledger engine op (dated 0 old_chain) none) wallet_id balance
unfolding first_pass
list_unspent_lem_example =
    list_unspent_lem engine first_pass.after old_chain first_pass.synced.holds wallet_id balance
