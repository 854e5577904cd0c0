-- ===== src/Sync/History.antt =====
-- Stores over time: a node that extends and reorganises its chain, and a pass after each change.
use emvault_elements.Prelude.{
  ℕ, ◌≤◌, ◌<◌, ◌≡◌, refl, subst, sym, ap, ◌∙◌, none, List, [], length, IsMember, ◌↔◌,
}
use emvault_elements.Prelude.Map
use emvault_elements.Elements.{OutPoint, outpoint_eq, Block}
use emvault_elements.Sync.Types.{CapturedUtxo, WalletId}
use emvault_elements.Sync.Balance.{list_unspent_lem}
use emvault_elements.Sync.Scan.{BlockScanEngine}
use emvault_elements.Sync.Engine.{sync}
use emvault_elements.Sync.Fakes.{
  World, MockChainSource, mock_chain, mem_blocks, mem_utxos, block_hash_at, list_unspent,
}
use emvault_elements.Sync.Ledger.{dated, ledger, IsOnce}
use emvault_elements.Sync.Agreement.Outputs.{IsWired}
use emvault_elements.Sync.Chain.{IsChain}
use emvault_elements.Sync.Restart.{IsFork}
use emvault_elements.Sync.Cursor.{Synced}
use emvault_elements.Sync.Refinement.{Caught, sync-Synced}

-- `MemBlockStore::new`, `MemUtxoStore::new`
abbrev pub fresh : MockChainSource → World
fresh source = record { source = source; store = record { blocks = []; tip = none }; utxos = [] }

-- Two stores that nobody who asks can tell apart
pub record Alike (w w' : World) : Type 0 where
  pub entries : (op : OutPoint) → Map.get op w.utxos ≡ Map.get op w'.utxos
  pub hashes : (h : ℕ) → block_hash_at w.store h ≡ block_hash_at w'.store h
  pub tips : w.store.tip ≡ w'.store.tip
  pub unspent :
      (wallet : WalletId) (u : CapturedUtxo)
      → IsMember u (list_unspent w.utxos wallet) ↔ IsMember u (list_unspent w'.utxos wallet)

module _ (engine : BlockScanEngine) where
  -- The node takes another chain, and one pass runs.
  abbrev pub pass_on : MockChainSource → World → World
  pass_on source w = (sync mock_chain mem_blocks mem_utxos engine (record w { source = source })).1

  -- The worlds that such changes and passes reach from new stores, each with the chain that the
  -- last pass saw. Each new chain is well formed, not empty, a fork of the last one, and not
  -- shorter.
  pub data History : World → List Block → Type 0 where
    begin : (source : MockChainSource) → History (fresh source) []
    then_pass :
        (w : World) (old : List Block) (source : MockChainSource)
        → History w old
        → IsChain source.chain
        → IsFork old source.chain
        → length old ≤ length source.chain
        → 0 < length source.chain
        → History (pass_on source w) source.chain

  -- What holds all along
  record Current (w : World) (bs : List Block) : Type 0 where
    synced : Synced engine w bs
    once : (t : ℕ) → IsOnce t (dated 0 bs)

  fresh-Synced : (source : MockChainSource) → Synced engine (fresh source) []
  unfolding Map.get ledger dated block_hash_at
  fresh-Synced source = record {
    holds = record { hashes = λ h. refl; ledgers = λ op. refl; unique = tt; unique_heights = tt };
    cursor = refl;
  }

  -- The stores do not depend on the node.
  moved-Synced :
      (source : MockChainSource) (w : World) (bs : List Block)
      → Synced engine w bs
      → Synced engine (record w { source = source }) bs
  moved-Synced source w bs s = record {
    holds = record {
      hashes = s.holds.hashes;
      ledgers = s.holds.ledgers;
      unique = s.holds.unique;
      unique_heights = s.holds.unique_heights;
    };
    cursor = s.cursor;
  }

  after-Current :
      (w : World) (source : MockChainSource)
      → IsChain source.chain
      → Caught engine (record w { source = source })
      → Current (pass_on source w) source.chain
  after-Current w source valid c = record {
    synced = subst (λ v. Synced engine v source.chain) (sym (ap (λ r. r.1) c.runs)) c.synced;
    once = valid.once;
  }

  module _ (wired : IsWired engine) where
    History-Current : (w : World) (bs : List Block) → History w bs → Current w bs
    unfolding dated
    History-Current _ _ (begin source) = record { synced = fresh-Synced source; once = λ t. tt }
    History-Current _ _ (then_pass w old source h valid fork long some_block) =
        let c = History-Current w old h in
        after-Current w source valid (
          sync-Synced engine wired (record w { source = source }) old
            (moved-Synced source w old c.synced) c.once valid fork long some_block)

    -- Let every entry of the engine's index name a registered wollet, and unblinding return (it
    -- may fail). Then the stores that start empty are, after any number of extensions and
    -- reorganisations of the node's chain, each followed by one pass, synced with the chain that
    -- the last pass saw: every outpoint, every stored hash and the cursor are as the ledger of
    -- that chain says, and nothing of the chains before it is left.
    pub History-Synced : (w : World) (bs : List Block) → History w bs → Synced engine w bs
    History-Synced w bs h = (History-Current w bs h).synced

    -- The history does not show: if every entry of the engine's index names a registered wollet
    -- and unblinding returns, then two stores that saw the same chain last, after whatever
    -- extensions and reorganisations, have the same record for every outpoint, the same hash at
    -- every height, the same cursor, and list the same unspent outputs for every wallet.
    pub History-Alike : (w w' : World) (bs : List Block) → History w bs → History w' bs → Alike w w'
    History-Alike w w' bs h h' =
        let s = History-Synced w bs h in
        let s' = History-Synced w' bs h' in
        record {
          entries = λ op. s.holds.ledgers op ∙ sym (s'.holds.ledgers op);
          hashes = λ height. s.holds.hashes height ∙ sym (s'.holds.hashes height);
          tips = s.cursor ∙ sym s'.cursor;
          unspent = λ wallet u.
              let here = list_unspent_lem engine w bs s.holds wallet u in
              let there = list_unspent_lem engine w' bs s'.holds wallet u in
              (λ m. there.1 (here.0 m), λ m. here.1 (there.0 m));
        }
