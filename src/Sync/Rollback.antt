-- ===== src/Sync/Rollback.antt =====
-- Both in-memory stores rolled back to a height.
use emvault_elements.Prelude.{
  ℕ, suc, ◌≤◌, ◌<◌, ◌≡◌, refl, subst, ap, ◌∙◌, inl, Option, none, List, [], ◌∷◌, ◌++◌, arith,
  length, length-append, append-nil, get_elem?-append_left, get_elem?-past, leb, if◌then◌else◌,
}
use emvault_elements.Prelude.Tests.{nat_eq}
use emvault_elements.Prelude.Map
use emvault_elements.Prelude.Map.{IsUnique}
use emvault_elements.Prelude.Map.Laws.{get-retain, retain-IsUnique}
use emvault_elements.Elements.{OutPoint, outpoint_eq, Block}
use emvault_elements.Sync.Scan.{BlockScanEngine}
use emvault_elements.Sync.Fakes.{
  World, MemBlockStore, block_hash_at, rollback_blocks, rollback_utxos,
}
use emvault_elements.Sync.Fakes.Laws.{get-rollback_utxos, rollback_utxos-IsUnique}
use emvault_elements.Sync.Ledger.{dated, ledger, IsOnce}
use emvault_elements.Sync.Ledger.Fresh.{ledger-append, ledger-IsFresh}
use emvault_elements.Sync.Ledger.Rollback.{rollback_at}
use emvault_elements.Sync.Ledger.Steps.{rollback-ledger, ledger-IsSettled}
use emvault_elements.Sync.Chain.{hash_at, dated-append, dated-All}
use emvault_elements.Sync.Synced.{Holds}
use emvault_elements.Sync.Cursor.{Synced, tip_of, max_by_key-tip_of}

block_hash_at-rollback :
    (s : MemBlockStore) (k h : ℕ)
    → IsUnique s.blocks
    → block_hash_at (rollback_blocks s k) h ≡ (if leb h k then block_hash_at s h else none)
unfolding block_hash_at rollback_blocks
block_hash_at-rollback s k h u = ground (arith, get-retain h (λ i _. leb i k) s.blocks u)

-- Both stores rolled back to `k`.
abbrev pub rolled_back : World → ℕ → World
rolled_back w k = record w { store = rollback_blocks w.store k; utxos = rollback_utxos w.utxos k }

module _ (engine : BlockScanEngine) (w : World) (k : ℕ) (kept dropped : List Block)
    (at : length kept ≡ suc k) (once : (t : ℕ) → IsOnce t (dated 0 (kept ++ dropped)))
    (held : Holds engine w (kept ++ dropped)) where
  split : dated 0 (kept ++ dropped) ≡ dated 0 kept ++ dated (suc k) dropped
  split = dated-append 0 kept dropped ∙ ap (λ n. dated 0 kept ++ dated n dropped) (omega arith)

  rollback-known :
      (op : OutPoint)
      → rollback_at k (ledger engine op (dated 0 (kept ++ dropped)) none)
        ≡ ledger engine op (dated 0 kept) none
  rollback-known op =
      ap (rollback_at k)
        (ap (λ l. ledger engine op l none) split ∙ ledger-append engine op (dated 0 kept) _ none)
      ∙ rollback-ledger engine op k _ (dated (suc k) dropped)
          (ledger-IsSettled engine op k none (dated 0 kept)
            (dated-All (λ h. h ≤ k) 0 kept (λ i _ u. omega arith)) tt)
          (dated-All (λ h. k < h) (suc k) dropped (λ i l _. l))
          (ledger-IsFresh engine op (dated 0 kept) (dated (suc k) dropped) none
            (inl refl, subst (IsOnce op.txid) split (once op.txid))).0

  hashes_kept : (h : ℕ) → (if leb h k then hash_at (kept ++ dropped) h else none) ≡ hash_at kept h
  hashes_kept h = ground (arith, get_elem?-append_left kept dropped h, get_elem?-past kept h)

  -- Every outpoint is as the ledger of the kept blocks says, and no other block is stored.
  rolled_back-Holds : Holds engine (rolled_back w k) kept
  unfolding rollback_blocks
  rolled_back-Holds = record {
    hashes = λ h.
        block_hash_at-rollback w.store k h held.unique_heights
        ∙ (ap (λ (o : Option ℕ). if leb h k then o else none) (held.hashes h) ∙ hashes_kept h);
    ledgers = λ op.
        get-rollback_utxos op w.utxos k held.unique
        ∙ (ap (rollback_at k) (held.ledgers op) ∙ rollback-known op);
    unique = rollback_utxos-IsUnique w.utxos k held.unique;
    unique_heights = retain-IsUnique _ w.store.blocks held.unique_heights;
  }

-- The cursor goes to the last block that is kept.
rolled_back-tip :
    (engine : BlockScanEngine) (w : World) (k : ℕ) (kept dropped : List Block)
    → length kept ≡ suc k
    → w.store.tip ≡ tip_of (kept ++ dropped)
    → Holds engine (rolled_back w k) kept
    → (rolled_back w k).store.tip ≡ tip_of kept
unfolding rollback_blocks block_hash_at
rolled_back-tip engine w k [] dropped at cursor held = absurd (omega arith)
rolled_back-tip engine w k (b ∷ bs) [] at cursor held =
    let same : w.store.tip ≡ tip_of (b ∷ bs) = cursor ∙ ap tip_of (append-nil (b ∷ bs)) in
    rw same (ground arith)
rolled_back-tip engine w k (b ∷ bs) (d ∷ dropped) at cursor held = rw cursor (
    ground (
      arith,
      length-append bs (d ∷ dropped),
      max_by_key-tip_of (Map.retain (λ h _. leb h k) w.store.blocks) (b ∷ bs) held.unique_heights
          held.hashes,
    ))

-- If the stores are synced with a chain in which no transaction identifier repeats, then, once
-- both are rolled back to `k`, they are synced with its first `k + 1` blocks: every outpoint is as
-- the ledger of those blocks says, spends above `k` included, no other block is stored, and the
-- cursor is at the last of them.
pub rolled_back-Synced :
    (engine : BlockScanEngine) (w : World) (k : ℕ) (kept dropped : List Block)
    → length kept ≡ suc k
    → ((t : ℕ) → IsOnce t (dated 0 (kept ++ dropped)))
    → Synced engine w (kept ++ dropped)
    → Synced engine (rolled_back w k) kept
rolled_back-Synced engine w k kept dropped at once synced =
    let held = rolled_back-Holds engine w k kept dropped at once synced.holds in
    record { holds = held; cursor = rolled_back-tip engine w k kept dropped at synced.cursor held }
