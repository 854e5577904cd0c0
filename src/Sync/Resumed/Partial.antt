-- ===== src/Sync/Resumed/Partial.antt =====
-- Stores that hold a part of a chain, and traces of what comes after it; one block more.
use emvault_elements.Prelude.{
  ℕ, suc, ◌+◌, ◌<◌, ◌≡◌, refl, subst, sym, ap, ◌∙◌, inl, inr, Option, none, some, List, [], ◌∷◌,
  ◌++◌, map, arith, length, length-append, get_elem?-append_here, All,
}
use emvault_elements.Prelude.Tests.{nat_eq}
use emvault_elements.Prelude.Result.{ok}
use emvault_elements.Prelude.Map
use emvault_elements.Prelude.Map.{Map, IsUnique}
use emvault_elements.Prelude.Map.Laws.{get-insert, insert-IsUnique}
use emvault_elements.Elements.{OutPoint, outpoint_eq, Block}
use emvault_elements.Sync.Types.{WalletId}
use emvault_elements.Sync.Scan.{BlockScanEngine, Pass, scan_txs}
use emvault_elements.Sync.Engine.{SyncSummary}
use emvault_elements.Sync.Fakes.{World, Entry, block_hash_at, store_block, upsert_all, mark_spent}
use emvault_elements.Sync.Fakes.Laws.{upsert_all-IsUnique, mark_spent-IsUnique}
use emvault_elements.Sync.Ledger.{Dated, dated, ledger, IsOnce}
use emvault_elements.Sync.Ledger.Fresh.{ledger-append, ledger-IsFresh}
use emvault_elements.Sync.Ledger.Later.{IsCausal, ledger-Later}
use emvault_elements.Sync.Agreement.{commit}
use emvault_elements.Sync.Agreement.Outputs.{IsWired}
use emvault_elements.Sync.Agreement.Blocks.{IsSized}
use emvault_elements.Sync.Chain.{hash_at, IsChain, dated-append, dated-last, dated-middle}
use emvault_elements.Sync.Synced.{Indexes, pass_of, after_block}
use emvault_elements.Sync.Resumed.Within.{Within, Reaches, Later-Reaches}
use emvault_elements.Sync.Resumed.Ahead.{Ahead}
use emvault_elements.Sync.Resumed.Blocks.{txs-Ahead}

-- What the transactions of a chain say of an outpoint
abbrev pub told : BlockScanEngine → List Block → OutPoint → Option Entry
told engine bs op = ledger engine op (dated 0 bs) none

-- The stores hold the blocks `base`, and nothing but parts of what the whole chain says.
pub record Partial (engine : BlockScanEngine) (w : World) (base whole : List Block) : Type 0 where
  pub within : (op : OutPoint) → Within (told engine whole op) (Map.get op w.utxos)
  pub reaches : (op : OutPoint) → Reaches (told engine base op) (Map.get op w.utxos)
  pub low : (h : ℕ) → h < length base → block_hash_at w.store h ≡ hash_at whole h
  pub high : (h x : ℕ) → block_hash_at w.store h ≡ some x → hash_at whole h ≡ some x
  pub unique : IsUnique w.utxos
  pub unique_heights : IsUnique w.store.blocks

append-IsCausal : (ds es : List Dated) → IsCausal (ds ++ es) → IsCausal es
append-IsCausal [] es c = c
append-IsCausal (d ∷ ds) es c = append-IsCausal ds es c.1

module _ (engine : BlockScanEngine) where
  module _ (base more : List Block) (once : (t : ℕ) → IsOnce t (dated 0 (base ++ more)))
      (op : OutPoint) where
    extended :
        told engine (base ++ more) op
        ≡ ledger engine op (dated (0 + length base) more) (told engine base op)
    extended =
        ap (λ l. ledger engine op l none) (dated-append 0 base more)
        ∙ ledger-append engine op (dated 0 base) _ none

    known_before :
        (a : Option Entry)
        → told engine base op ≡ a
        → (s : Option Entry) → Reaches (told engine (base ++ more) op) s
        → Reaches a s
    known_before none e s r = tt
    known_before (some x) e s r =
        let fresh =
          ledger-IsFresh engine op (dated 0 base) (dated (0 + length base) more) none
            (inl refl, subst (IsOnce op.txid) (dated-append 0 base more) (once op.txid)) in
        elim fresh.0 [
          | inl unknown ↦ absurd (cc)
          | inr absent ↦
              Later-Reaches x _ s
                (ledger-Later engine op x (dated (0 + length base) more) _ absent (inl e))
                (subst (λ l. Reaches l s) extended r)
        ]

  -- Stores that hold a part of a chain hold a shorter part too.
  pub shorter-Partial :
      (w : World) (base more whole : List Block)
      → ((t : ℕ) → IsOnce t (dated 0 (base ++ more)))
      → Partial engine w (base ++ more) whole
      → Partial engine w base whole
  shorter-Partial w base more whole once p = record {
    within = p.within;
    reaches = λ op. known_before base more once op (told engine base op) refl _ (p.reaches op);
    low = λ h lt. p.low h (omega (arith, length-append base more));
    high = p.high;
    unique = p.unique;
    unique_heights = p.unique_heights;
  }

  module _ (wired : IsWired engine) (w : World) (before after : List Block) (b : Block)
      (valid : IsChain (before ++ b ∷ after)) (causal : IsCausal (dated 0 (before ++ b ∷ after)))
      (held : Partial engine w before (before ++ b ∷ after)) (index : Map OutPoint WalletId)
      (indexed : Indexes index w.utxos) (s : SyncSummary) (q : Pass) (sized : All IsSized b.txdata)
      (scanned : scan_txs engine
          (length before)
          b.txdata
          (pass_of index [] [] s.skipped_unblindable)
        ≡ ok q) where
    abbrev whole : List Block
    whole = before ++ b ∷ after

    later : List Dated
    later = dated (suc (length before)) after

    block_of : List Dated
    block_of = map (λ tx. (length before, tx)) b.txdata

    start-Ahead :
        (op : OutPoint)
        → Ahead w.utxos
            (length before)
            op
            (pass_of index [] [] s.skipped_unblindable)
            (told engine before op)
            (told engine whole op)
    unfolding upsert_all mark_spent
    start-Ahead op = record {
      within = held.within op;
      reaches = held.reaches op;
      indexed = indexed op;
      unmarked = λ _. refl;
    }

    divided :
        (op : OutPoint)
        → told engine whole op ≡ ledger engine op (block_of ++ later) (told engine before op)
    unfolding later block_of
    divided op =
        ap (λ l. ledger engine op l none) (dated-middle before after b)
        ∙ ledger-append engine op (dated 0 before) _ none

    ends-Ahead :
        (op : OutPoint)
        → Ahead w.utxos
            (length before)
            op
            q
            (told engine (before ++ b ∷ []) op)
            (told engine whole op)
    unfolding later block_of
    ends-Ahead op =
        subst (λ l. Ahead w.utxos (length before) op q l (told engine whole op))
          (sym (
            ap (λ l. ledger engine op l none) (dated-last before after b)
            ∙ ledger-append engine op (dated 0 before) _ none))
          (txs-Ahead engine w.utxos (length before) op b.txdata later _ q (told engine before op)
            wired sized
            (ledger-IsFresh engine op (dated 0 before) _ none
              (inl refl, subst (IsOnce op.txid) (dated-middle before after b) (valid.once op.txid)))
            (append-IsCausal (dated 0 before) _
              (subst IsCausal (dated-middle before after b) causal))
            scanned (told engine whole op) (divided op) (start-Ahead op))

    pub after_block-Partial :
        Partial engine (after_block w (length before) b q) (before ++ b ∷ []) whole
    unfolding store_block block_hash_at
    after_block-Partial = record {
      within = λ op. (ends-Ahead op).within;
      reaches = λ op. (ends-Ahead op).reaches;
      low = λ h lt. ground (
        arith,
        get-insert (length before) h (b.block_hash, b.serialized) w.store.blocks,
        get_elem?-append_here before after b,
        held.low h,
        length-append before (b ∷ []),
      );
      high = λ h x found. ground (
        arith,
        get-insert (length before) h (b.block_hash, b.serialized) w.store.blocks,
        get_elem?-append_here before after b,
        held.high h x,
      );
      unique = mark_spent-IsUnique _ q.spent _ (upsert_all-IsUnique w.utxos q.captured held.unique);
      unique_heights = insert-IsUnique (length before) _ w.store.blocks held.unique_heights;
    }

    pub after_block-Indexed : Indexes q.spend_index (commit w.utxos (length before) q)
    after_block-Indexed op = (ends-Ahead op).indexed
