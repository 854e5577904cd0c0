-- ===== src/Sync/Interrupted.antt =====
-- The cursor of a pass that ends early, over any source of blocks that only reads.
pub mod Calls
use emvault_elements.Prelude.{
  ℕ, zero, suc, ◌+◌, ◌-◌, ◌≡◌, refl, subst, sym, ap, ◌∙◌, inl, inr, ◌⊎◌, Bool, true, false, Option,
  none, some, is_empty, leb, ltb, if◌then◌else◌, ◌==◌, wrap32, Bytes,
}
use emvault_elements.Prelude.Tests.{nat_eq}
use emvault_elements.Prelude.Result.{Result, ok, err, panic}
use emvault_elements.Prelude.Exec.{Exec, pure, continue, ◌>>=◌, ◌>>◌}
use emvault_elements.Prelude.Map
use emvault_elements.Prelude.Map.{Map}
use emvault_elements.Elements.{OutPoint, outpoint_eq}
use emvault_elements.Error.{SyncError}
use emvault_elements.Sync.Types.{WalletId, SyncedTip, ElementsChainSource}
use emvault_elements.Sync.Scan.{BlockScanEngine, Pass, scan_txs}
use emvault_elements.Sync.Engine.{
  SyncSummary, empty_summary, is_shared, find_common_ancestor, start_height, write_pass, scan_block,
  scan_blocks, advance, sync,
}
use emvault_elements.Sync.Fakes.{
  unspent_outpoints, World, MemBlockStore, mem_blocks, mem_utxos, store_block, rollback_blocks,
}
use Calls.{Ends, Steps, continue-Ends, bind-Ends, branch-Ends, bind-Steps, choose-Steps}

-- A source of blocks that leaves the stores alone: it reads, and may fail.
pub record IsReader (chain : ElementsChainSource World) : Type 0 where
  pub tips : (w : World) → (chain.tip_height w).1.store ≡ w.store
  pub hashes : (h : ℕ) (w : World) → (chain.block_hash h w).1.store ≡ w.store
  pub blocks : (hash : ℕ) (w : World) → (chain.block hash w).1.store ≡ w.store

module _ (chain : ElementsChainSource World) (reader : IsReader chain) where
  module _ (P : MemBlockStore → Type 0) where
    hash-Steps : (h : ℕ) → Steps P (chain.block_hash h)
    hash-Steps h w p = subst P (sym (reader.hashes h w)) p

    block-Steps : (hash : ℕ) → Steps P (chain.block hash)
    block-Steps hash w p = subst P (sym (reader.blocks hash w)) p

    -- The comparison of a stored hash with the node's
    abbrev compared : ℕ → Option ℕ → Exec World SyncError Bool
    compared h none = pure false
    compared h (some hash) = chain.block_hash h >>= λ current. pure (hash == current)

    compared-Steps : (h : ℕ) (stored : Option ℕ) → Steps P (compared h stored)
    compared-Steps h none = λ w p. p
    compared-Steps h (some hash) =
        bind-Steps P (chain.block_hash h) (λ current. pure (hash == current)) (hash-Steps h)
          (λ current w p. p)

    is_shared-Steps : (h : ℕ) → Steps P (is_shared chain mem_blocks h)
    unfolding is_shared
    is_shared-Steps h =
        bind-Steps P (mem_blocks.block_hash_at h) (compared h) (λ w p. p) (compared-Steps h)

    find_common_ancestor-Steps : (h : ℕ) → Steps P (find_common_ancestor chain mem_blocks h)
    unfolding find_common_ancestor
    find_common_ancestor-Steps zero =
        bind-Steps P (is_shared chain mem_blocks 0) (λ _. pure 0) (is_shared-Steps 0) (λ a w p. p)
    find_common_ancestor-Steps (suc h) =
        bind-Steps P (is_shared chain mem_blocks (suc h))
          (λ shared. elim shared [
            | true ↦ pure (suc h)
            | false ↦ find_common_ancestor chain mem_blocks h
          ])
          (is_shared-Steps (suc h))
          (λ shared.
            choose-Steps P shared (pure (suc h)) (find_common_ancestor chain mem_blocks h)
              (λ w p. p) (find_common_ancestor-Steps h))

  -- The store as `s`, or as `s` after a rollback; at least their cursors
  module _ (s : MemBlockStore) where
    -- The cursor is where it was, or where a rollback leaves it.
    pub CursorOf : MemBlockStore → Type 0
    CursorOf v = (v.tip ≡ s.tip) ⊎ ((k : ℕ) × (v.tip ≡ (rollback_blocks s k).tip))

    -- A rollback of the two stores
    abbrev rolled : ℕ → Exec World SyncError (ℕ × Option ℕ)
    rolled ancestor =
        mem_blocks.rollback_above ancestor
        >> (mem_utxos.rollback_above ancestor >> pure (wrap32 (ancestor + 1), some ancestor))

    rolled-CursorOf : (k : ℕ) (w : World) → w.store ≡ s → CursorOf (rolled k w).1.store
    unfolding CursorOf
    rolled-CursorOf k w same = inr (k, ap (λ v. (rollback_blocks v k).tip) same)

    kept-CursorOf : (v : MemBlockStore) → v ≡ s → CursorOf v
    unfolding CursorOf
    kept-CursorOf v same = inl (ap (λ x. x.tip) same)

    start_height-CursorOf :
        (tip : Option SyncedTip)
        → Ends (λ v. v ≡ s) CursorOf (start_height chain mem_blocks mem_utxos tip)
    unfolding start_height
    start_height-CursorOf none = λ w same. kept-CursorOf w.store same
    start_height-CursorOf (some t) =
        bind-Ends (λ v. v ≡ s) CursorOf (chain.block_hash t.height)
          (λ hash.
            if hash == t.hash
            then pure (wrap32 (t.height + 1), none)
            else (find_common_ancestor chain mem_blocks t.height >>= rolled))
          kept-CursorOf (hash-Steps (λ v. v ≡ s) t.height)
          (λ hash.
            branch-Ends (λ v. v ≡ s) CursorOf (hash == t.hash) (pure (wrap32 (t.height + 1), none))
              (find_common_ancestor chain mem_blocks t.height >>= rolled)
              (λ w same. kept-CursorOf w.store same)
              (bind-Ends (λ v. v ≡ s) CursorOf (find_common_ancestor chain mem_blocks t.height)
                rolled kept-CursorOf (find_common_ancestor-Steps (λ v. v ≡ s) t.height)
                rolled-CursorOf))

    stored-CursorOf :
        (v : MemBlockStore) (h hash : ℕ) (raw : Bytes)
        → CursorOf v
        → CursorOf (store_block v h hash raw)
    unfolding CursorOf store_block
    stored-CursorOf v h hash raw c = c

    write_pass-CursorOf :
        (p : Pass) (h : ℕ) → Steps CursorOf (write_pass chain mem_blocks mem_utxos p h)
    unfolding write_pass
    write_pass-CursorOf p h =
        bind-Steps CursorOf
          (if is_empty p.captured then pure tt else mem_utxos.upsert_utxos p.captured) _
          (branch-Ends CursorOf CursorOf (is_empty p.captured) (pure tt)
            (mem_utxos.upsert_utxos p.captured) (λ w c. c) (λ w c. c))
          (λ _.
            branch-Ends CursorOf CursorOf (is_empty p.spent) (pure tt)
              (mem_utxos.mark_spent p.spent h) (λ w c. c) (λ w c. c))

    -- The calls that follow write blocks and outputs, and leave the cursor.
    scan_block-CursorOf :
        (engine : BlockScanEngine) (h : ℕ) (index : Map OutPoint WalletId) (summary : SyncSummary)
        → Steps CursorOf (scan_block chain mem_blocks mem_utxos engine h index summary)
    unfolding scan_block
    scan_block-CursorOf engine h index summary =
        bind-Steps CursorOf (chain.block_hash h) _ (hash-Steps CursorOf h) (λ hash.
          bind-Steps CursorOf (chain.block hash) _ (block-Steps CursorOf hash) (λ block w c.
            continue-Ends CursorOf CursorOf (scan_txs engine h block.txdata _) _ (λ v p. p)
              (λ pass.
                bind-Steps CursorOf (write_pass chain mem_blocks mem_utxos pass h) _
                  (write_pass-CursorOf pass h) (λ _ v p. p))
              (record w { store = store_block w.store h hash block.serialized })
              (stored-CursorOf w.store h hash block.serialized c)))

    scan_blocks-CursorOf :
        (engine : BlockScanEngine) (n h : ℕ) (index : Map OutPoint WalletId) (summary : SyncSummary)
        → Steps CursorOf (scan_blocks chain mem_blocks mem_utxos engine n h index summary)
    unfolding scan_blocks
    scan_blocks-CursorOf engine zero h index summary = λ w c. c
    scan_blocks-CursorOf engine (suc n) h index summary =
        bind-Steps CursorOf (scan_block chain mem_blocks mem_utxos engine h index summary) _
          (scan_block-CursorOf engine h index summary)
          (λ r. scan_blocks-CursorOf engine n (suc h) r.0 r.1)

    -- The call succeeds, or the cursor is where it was or where a rollback leaves it.
    pub Settled : {A : Type 0} → Result SyncError A × World → Type 0
    Settled {A = A} out = ((a : A) × (out.0 ≡ ok a)) ⊎ CursorOf out.1.store

    continue-Settled :
        {A B : Type 0} (r : Result SyncError A) (f : A → Exec World SyncError B) (w : World)
        → CursorOf w.store
        → ((a : A) → Settled (f a w))
        → Settled (continue r f w)
    unfolding Settled
    continue-Settled (ok a) f w c h = h a
    continue-Settled (err e) f w c h = inr c
    continue-Settled panic f w c h = inr c

    advanced-Settled :
        (r : Result SyncError ℕ) (tip : ℕ) (summary : SyncSummary) (w : World)
        → CursorOf w.store
        → Settled (
            ((λ v.
                  continue r
                    (λ hash. mem_blocks.set_synced_tip (record { height = tip; hash = hash }))
                    v)
                >> pure summary)
              w)
    unfolding Settled
    advanced-Settled (ok hash) tip summary w c = inl (summary, refl)
    advanced-Settled (err e) tip summary w c = inr c
    advanced-Settled panic tip summary w c = inr c

    finish-Settled :
        (engine : BlockScanEngine) (b : Bool) (tip : ℕ) (summary : SyncSummary) (w : World)
        → CursorOf w.store
        → Settled (
            ((if b then advance chain mem_blocks mem_utxos engine tip else pure tt) >> pure summary)
              w)
    unfolding advance Settled
    finish-Settled engine true tip summary w c =
        advanced-Settled (chain.block_hash tip w).0 tip summary (chain.block_hash tip w).1
          (hash-Steps CursorOf tip w c)
    finish-Settled engine false tip summary w c = inl (summary, refl)

    sync_from :
        (engine : BlockScanEngine) (w : World)
        → w.store ≡ s
        → Settled (sync chain mem_blocks mem_utxos engine w)
    unfolding sync
    sync_from engine w same =
        let w1 = (chain.tip_height w).1 in
        let same1 = reader.tips w ∙ same in
        let started = start_height chain mem_blocks mem_utxos w1.store.tip w1 in
        let c2 = start_height-CursorOf w1.store.tip w1 same1 in
        continue-Settled (chain.tip_height w).0 _ w1 (kept-CursorOf w1.store same1) (λ tip.
          continue-Settled started.0 _ started.1 c2 (λ x.
            let start = if ltb (wrap32 (tip + 1)) x.0 then wrap32 (tip + 1) else x.0 in
            let first = record empty_summary { reorg_to = x.1 } in
            let index = Map.collect (unspent_outpoints started.1.utxos) in
            let scanned =
              scan_blocks chain mem_blocks mem_utxos engine (suc tip - start) start index first
                started.1 in
            let c3 = scan_blocks-CursorOf engine (suc tip - start) start index first started.1 c2 in
            continue-Settled scanned.0 _ scanned.1 c3 (λ summary.
              finish-Settled engine (leb start (wrap32 (tip + 1))) tip summary scanned.1 c3)))

  -- Over any source of blocks that only reads, whatever it returns and wherever it fails: a pass
  -- of `sync` on the in-memory stores either succeeds, or leaves the cursor where it was, or
  -- where a rollback of the stores to some height leaves it.
  pub sync-Settled :
      (engine : BlockScanEngine) (w : World)
      → Settled w.store (sync chain mem_blocks mem_utxos engine w)
  sync-Settled engine w = sync_from w.store engine w refl
