-- ===== src/Sync/Synced.antt =====
-- A world in step with a chain, and one block more.
pub mod Loop
use mathlib.Core.Option
use emvault_elements.Prelude.{
  ℕ, zero, suc, ◌+◌, ◌≤◌, ◌<◌, ◌^◌, ◌≡◌, refl, subst, sym, ap, ◌∙◌, ◌≢◌, inl, inr, Bool, true,
  false, not, Option, none, some, List, [], ◌∷◌, ◌++◌, map, append_assoc, append-nil, arith, length,
  is_empty, filter, get_elem?, get_elem?-append_here, take, All, if◌then◌else◌, ◌==◌, Bool-cases,
  nat_eqb_iff,
}
use native.Mathlib.Nat.{zero-add}
use emvault_elements.Prelude.Tests.{nat_eq}
use emvault_elements.Prelude.Result.{ok}
use emvault_elements.Prelude.Exec.{◌>>=◌, ◌>>◌, pure, lift, continue}
use emvault_elements.Prelude.Map
use emvault_elements.Prelude.Map.{Map, IsUnique}
use emvault_elements.Prelude.Map.Laws.{
  get-insert, insert-IsUnique, contains_key-collect, All-entries,
}
use emvault_elements.Elements.{OutPoint, outpoint_eq, outpoint_eqb_iff, Block}
use emvault_elements.Sync.Types.{WalletId, CapturedUtxo, SyncedTip, ElementsChainSource}
use emvault_elements.Sync.Scan.{BlockScanEngine, Pass, scan_txs}
use emvault_elements.Sync.Engine.{SyncSummary, scan_block, scan_blocks, write_pass, add_pass}
use emvault_elements.Sync.Fakes.{
  World, Entry, UtxoMap, mock_chain, mem_blocks, mem_utxos, block_hash_at, block_hash, block,
  store_block, unspent_outpoints, upsert_all, mark_spent,
}
use emvault_elements.Sync.Fakes.Laws.{upsert_all-IsUnique, mark_spent-IsUnique}
use emvault_elements.Sync.Ledger.{Dated, dated, ledger, IsOnce}
use emvault_elements.Sync.Ledger.Fresh.{IsFresh, ledger-append, ledger-IsFresh}
use emvault_elements.Sync.Agreement.{Agrees, commit, is_unspent}
use emvault_elements.Sync.Agreement.Outputs.{IsWired}
use emvault_elements.Sync.Agreement.Blocks.{IsSized, txs_total, FollowsTxs}
use emvault_elements.Sync.Chain.{
  hash_at, IsDistinct, IsChain, find_distinct, get_elem?-append_last, dated-last, dated-middle,
}

-- The stores hold what the blocks of the chain give: every hash by height, every outpoint by the
-- ledger, and no key twice.
pub record Holds (engine : BlockScanEngine) (w : World) (bs : List Block) : Type 0 where
  pub hashes : (h : ℕ) → block_hash_at w.store h ≡ hash_at bs h
  pub ledgers : (op : OutPoint) → Map.get op w.utxos ≡ ledger engine op (dated 0 bs) none
  pub unique : IsUnique w.utxos
  pub unique_heights : IsUnique w.store.blocks

-- The spend index lists the unspent outpoints of the store.
abbrev pub Indexes : Map OutPoint WalletId → UtxoMap → Type 0
Indexes index m = (op : OutPoint) → Map.contains_key op index ≡ is_unspent (Map.get op m)

-- A pass as the values of its fields.
abbrev pub pass_of : Map OutPoint WalletId → List CapturedUtxo → List OutPoint → ℕ → Pass
pass_of index captured spent skipped = record {
  spend_index = index;
  captured = captured;
  spent = spent;
  skipped_unblindable = skipped;
}

module _ (chain : ElementsChainSource World) (w : World) (h : ℕ) (index : Map OutPoint WalletId)
    (n : ℕ) where
  write_lists :
      (cs : List CapturedUtxo) (ss : List OutPoint)
      → write_pass chain mem_blocks mem_utxos (pass_of index cs ss n) h w
        ≡ (ok tt, record w { utxos = commit w.utxos h (pass_of index cs ss n) })
  unfolding write_pass upsert_all mark_spent
  write_lists [] [] = refl
  write_lists [] (s ∷ ss) = refl
  write_lists (c ∷ cs) [] = refl
  write_lists (c ∷ cs) (s ∷ ss) = refl

-- Skipping a write of nothing changes nothing.
pub write_pass_lem :
    (chain : ElementsChainSource World) (w : World) (p : Pass) (h : ℕ)
    → write_pass chain mem_blocks mem_utxos p h w ≡ (ok tt, record w { utxos = commit w.utxos h p })
write_pass_lem chain w p h =
    write_lists chain w h p.spend_index p.skipped_unblindable p.captured p.spent

-- The world after one block, `q` being the pass over it.
abbrev pub after_block : World → ℕ → Block → Pass → World
after_block w h b q = record w {
  store = store_block w.store h b.block_hash b.serialized;
  utxos = commit w.utxos h q;
}

module _ (engine : BlockScanEngine) (wired : IsWired engine) (w : World) where
  abbrev pub starting : Map OutPoint WalletId → SyncSummary → Pass
  starting index s = pass_of index [] [] s.skipped_unblindable

  module _ (before after : List Block) (b : Block) (here : w.source.chain ≡ before ++ b ∷ after)
      (valid : IsChain (before ++ b ∷ after)) where
    hash_here : block_hash w.source (length before) ≡ ok b.block_hash
    unfolding block_hash
    hash_here = rw here (rw (get_elem?-append_here before after b))

    block_here : block w.source b.block_hash ≡ ok b
    unfolding block
    block_here = rw here (rw (find_distinct before after b valid.distinct))

    pub scan_block_lem :
        (index : Map OutPoint WalletId) (s : SyncSummary) (q : Pass)
        → scan_txs engine (length before) b.txdata (starting index s) ≡ ok q
        → scan_block mock_chain mem_blocks mem_utxos engine (length before) index s w ≡ (
          ok (q.spend_index, add_pass mock_chain mem_blocks mem_utxos s q),
          after_block w (length before) b q,
        )
    unfolding scan_block
    scan_block_lem index s q scanned =
        rw (hash_here, block_here, scanned, write_pass_lem mock_chain _ q (length before)) refl

  -- One block more: the stores hold the longer chain, and the spend index is theirs.
  module _ (index : Map OutPoint WalletId) (q : Pass) (s : SyncSummary) (before after : List Block)
      (b : Block) (valid : IsChain (before ++ b ∷ after)) (held : Holds engine w before)
      (indexed : Indexes index w.utxos)
      (follows : FollowsTxs engine wired (length before) b.txdata (starting index s) q) where
    later : List Dated
    later = dated (suc (length before)) after

    known : OutPoint → Option Entry
    known op = ledger engine op (dated 0 before) none

    still-IsFresh :
        (op : OutPoint) → IsFresh op (map (λ tx. (length before, tx)) b.txdata ++ later) (known op)
    unfolding known later
    still-IsFresh op =
        ledger-IsFresh engine op (dated 0 before) _ none
          (inl refl, subst (IsOnce op.txid) (dated-middle before after b) (valid.once op.txid))

    starting-Agrees :
        (op : OutPoint) → Agrees w.utxos (length before) op (starting index s) (known op)
    unfolding known upsert_all mark_spent
    starting-Agrees op = record {
      stored = held.ledgers op;
      indexed = indexed op ∙ ap is_unspent (held.ledgers op);
      unknown = λ _. refl;
    }

    agrees :
        (op : OutPoint)
        → Agrees w.utxos (length before) op q (ledger engine op (dated 0 (before ++ b ∷ [])) none)
    unfolding known
    agrees op =
        subst (Agrees w.utxos (length before) op q)
          (sym (
            ap (λ l. ledger engine op l none) (dated-last before after b)
            ∙ ledger-append engine op (dated 0 before) _ none))
          (follows w.utxos op (known op) later (still-IsFresh op) (starting-Agrees op))

    pub after_block-Holds : Holds engine (after_block w (length before) b q) (before ++ b ∷ [])
    unfolding store_block block_hash_at
    after_block-Holds = record {
      hashes = λ h. ground (
        arith,
        get-insert (length before) h (b.block_hash, b.serialized) w.store.blocks,
        get_elem?-append_last before b h,
        held.hashes h,
      );
      ledgers = λ op. (agrees op).stored;
      unique = mark_spent-IsUnique _ q.spent _ (upsert_all-IsUnique w.utxos q.captured held.unique);
      unique_heights = insert-IsUnique (length before) _ w.store.blocks held.unique_heights;
    }

    pub after_block-Indexes : Indexes q.spend_index (commit w.utxos (length before) q)
    after_block-Indexes op = (agrees op).indexed ∙ ap is_unspent (sym (agrees op).stored)
