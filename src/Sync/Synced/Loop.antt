-- ===== src/Sync/Synced/Loop.antt =====
-- The loop over the heights, on a scripted chain.
use emvault_elements.Prelude.{
  ℕ, suc, ◌≡◌, refl, subst, sym, ◌∙◌, List, [], ◌∷◌, ◌++◌, append-nil, append_assoc, arith, length,
  length-append, All,
}
use emvault_elements.Prelude.Result.{ok}
use emvault_elements.Prelude.Map.{Map}
use emvault_elements.Elements.{OutPoint, Block}
use emvault_elements.Sync.Types.{WalletId}
use emvault_elements.Sync.Scan.{BlockScanEngine}
use emvault_elements.Sync.Engine.{SyncSummary, scan_blocks, add_pass}
use emvault_elements.Sync.Fakes.{World, mock_chain, mem_blocks, mem_utxos, store_block}
use emvault_elements.Sync.Agreement.Outputs.{IsWired}
use emvault_elements.Sync.Agreement.Blocks.{IsSized, txs_total}
use emvault_elements.Sync.Chain.{IsChain}
use emvault_elements.Sync.Synced.{
  Holds, Indexes, starting, after_block, scan_block_lem, after_block-Holds, after_block-Indexes,
}

pub All-middle :
    (before after : List Block) (b : Block)
    → All (λ c. All IsSized c.txdata) (before ++ b ∷ after)
    → All IsSized b.txdata
All-middle [] after b a = a.0
All-middle (x ∷ before) after b a = All-middle before after b a.1

module _ (engine : BlockScanEngine) (wired : IsWired engine) where
  -- The loop returned, and the world it left holds the blocks.
  pub record Scanned (w : World) (n h : ℕ) (index : Map OutPoint WalletId) (s : SyncSummary)
      (bs : List Block) : Type 0 where
    pub after : World
    pub summary : SyncSummary
    pub runs :
        scan_blocks mock_chain mem_blocks mem_utxos engine n h index s w ≡ (ok summary, after)
    pub holds : Holds engine after bs
    pub source : after.source ≡ w.source
    pub tip : after.store.tip ≡ w.store.tip

  pub scan_blocks_total :
      (rest before : List Block) (w : World) (index : Map OutPoint WalletId) (s : SyncSummary)
      → w.source.chain ≡ before ++ rest
      → IsChain (before ++ rest)
      → Holds engine w before
      → Indexes index w.utxos
      → Scanned w (length rest) (length before) index s (before ++ rest)
  unfolding scan_blocks store_block
  scan_blocks_total [] before w index s here valid held indexed = record {
    after = w;
    summary = s;
    runs = refl;
    holds = subst (Holds engine w) (sym (append-nil before)) held;
    source = refl;
    tip = refl;
  }
  scan_blocks_total (b ∷ rest) before w index s here valid held indexed =
      let (q, scanned, follows) =
        txs_total engine wired (length before) b.txdata (starting engine wired w index s)
          (All-middle before rest b valid.sized) in
      let w' : World = after_block w (length before) b q in
      let s' : SyncSummary = add_pass mock_chain mem_blocks mem_utxos s q in
      let assoc : ((before ++ b ∷ []) ++ rest) ≡ (before ++ b ∷ rest) =
        append_assoc before (b ∷ []) rest in
      let next =
        scan_blocks_total rest (before ++ b ∷ []) w' q.spend_index s' (here ∙ sym assoc)
          (subst IsChain (sym assoc) valid)
          (after_block-Holds engine wired w index q s before rest b valid held indexed follows)
          (after_block-Indexes engine wired w index q s before rest b valid held indexed follows) in
      let last : length (before ++ b ∷ []) ≡ suc (length before) =
        omega (arith, length-append before (b ∷ [])) in
      record {
        after = next.after;
        summary = next.summary;
        runs = rw (scan_block_lem engine wired w before rest b here valid index s q scanned) (
            subst
              (λ n.
                scan_blocks mock_chain mem_blocks mem_utxos engine (length rest) n q.spend_index s'
                  w'
                ≡ (ok next.summary, next.after))
              last next.runs);
        holds = subst (Holds engine next.after) assoc next.holds;
        source = next.source;
        tip = next.tip;
      }
