-- ===== src/Sync/Resumed/Loop.antt =====
-- The loop over the heights, with a source of blocks that may fail at any call.
use emvault_elements.Prelude.{
  ℕ, suc, ◌≡◌, refl, subst, sym, ap, ◌∙◌, ◌⊎◌, inl, inr, List, [], ◌∷◌, ◌++◌, append-nil,
  append_assoc, arith, length, length-append, All, get_elem?-append_here,
}
use emvault_elements.Prelude.Result.{ok, err}
use emvault_elements.Prelude.Map.{Map}
use emvault_elements.Error.{SyncError}
use emvault_elements.Elements.{OutPoint, Block}
use emvault_elements.Sync.Types.{WalletId, ElementsChainSource}
use emvault_elements.Sync.Scan.{BlockScanEngine, Pass, scan_txs}
use emvault_elements.Sync.Engine.{SyncSummary, scan_block, scan_blocks, add_pass}
use emvault_elements.Sync.Fakes.{
  World, mock_chain, mem_blocks, mem_utxos, store_block, block_hash, block,
}
use emvault_elements.Sync.Ledger.{Dated, dated, IsOnce, IsAbsent}
use emvault_elements.Sync.Ledger.Later.{IsCausal}
use emvault_elements.Sync.Agreement.Outputs.{IsWired}
use emvault_elements.Sync.Agreement.Blocks.{IsSized, txs_total}
use emvault_elements.Sync.Chain.{IsChain, dated-append, find_distinct}
use emvault_elements.Sync.Synced.{Indexes, pass_of, after_block, write_pass_lem}
use emvault_elements.Sync.Synced.Loop.{All-middle}
use emvault_elements.Sync.Resumed.Answers.{Flaky}
use emvault_elements.Sync.Resumed.Partial.{
  Partial, shorter-Partial, after_block-Partial, after_block-Indexed,
}

append-IsAbsent : (t : ℕ) (ds es : List Dated) → IsAbsent t (ds ++ es) → IsAbsent t ds
append-IsAbsent t [] es a = tt
append-IsAbsent t (d ∷ ds) es a = (a.0, append-IsAbsent t ds es a.1)

append-IsOnce : (t : ℕ) (ds es : List Dated) → IsOnce t (ds ++ es) → IsOnce t ds
append-IsOnce t [] es o = tt
append-IsOnce t (d ∷ ds) es o =
    (λ same. append-IsAbsent t ds es (o.0 same), append-IsOnce t ds es o.1)

pub take-IsOnce :
    (t : ℕ) (before after : List Block)
    → IsOnce t (dated 0 (before ++ after))
    → IsOnce t (dated 0 before)
take-IsOnce t before after o =
    append-IsOnce t (dated 0 before) _ (subst (IsOnce t) (dated-append 0 before after) o)

module _ (F : Type 0) (chain : ElementsChainSource World) (flaky : Flaky F chain)
    (engine : BlockScanEngine) (wired : IsWired engine) where
  module _ (w : World) (before after : List Block) (b : Block)
      (here : w.source.chain ≡ before ++ b ∷ after) (valid : IsChain (before ++ b ∷ after))
      (index : Map OutPoint WalletId) (s : SyncSummary) (q : Pass)
      (scanned : scan_txs engine
          (length before)
          b.txdata
          (pass_of index [] [] s.skipped_unblindable)
        ≡ ok q) where
    node_hash : block_hash w.source (length before) ≡ ok b.block_hash
    unfolding block_hash
    node_hash = rw here (rw (get_elem?-append_here before after b))

    node_block : block w.source b.block_hash ≡ ok b
    unfolding block
    node_block = rw here (rw (find_distinct before after b valid.distinct))

    -- One round fails before it writes, or it ends as with the node itself.
    round :
        (scan_block chain mem_blocks mem_utxos engine (length before) index s w ≡ (
          ok (q.spend_index, add_pass mock_chain mem_blocks mem_utxos s q),
          after_block w (length before) b q,
        ))
        ⊎ (F
            × (e : SyncError) × (scan_block chain mem_blocks mem_utxos engine
                  (length before)
                  index
                  s
                  w
                ≡ (err e, w)))
    unfolding scan_block
    round = elim (flaky.hashes (length before) w) [
      | inr (f, e, failed) ↦ inr (f, e, rw failed refl)
      | inl hash ↦ elim (flaky.blocks b.block_hash w) [
        | inr (f, e, failed) ↦ inr (f, e, rw (hash, node_hash, failed) refl)
        | inl got ↦ inl (
            rw (hash, node_hash, got, node_block, scanned, write_pass_lem chain _ q (length before))
              refl)
      ]
    ]

  -- The loop over the last `n` heights finished, or failed at some height; the stores hold the
  -- whole chain, or what they held at the start.
  pub data Looped (w : World) (base whole : List Block) (n h : ℕ) (index : Map OutPoint WalletId)
      (s : SyncSummary) : Type 0 where
    finished :
        (summary : SyncSummary) (after : World)
        → scan_blocks chain mem_blocks mem_utxos engine n h index s w ≡ (ok summary, after)
        → Partial engine after whole whole
        → after.source ≡ w.source
        → after.store.tip ≡ w.store.tip
        → Looped w base whole n h index s
    stopped :
        F
        → (e : SyncError) (after : World)
        → scan_blocks chain mem_blocks mem_utxos engine n h index s w ≡ (err e, after)
        → Partial engine after base whole
        → after.source ≡ w.source
        → after.store.tip ≡ w.store.tip
        → Looped w base whole n h index s

  -- A round that succeeds, before the others
  first_round :
      (w v : World) (base whole : List Block) (n h : ℕ) (index later : Map OutPoint WalletId)
      (s s' : SyncSummary)
      → scan_block chain mem_blocks mem_utxos engine h index s w ≡ (ok (later, s'), v)
      → v.source ≡ w.source
      → v.store.tip ≡ w.store.tip
      → Looped v base whole n (suc h) later s'
      → Looped w base whole (suc n) h index s
  unfolding scan_blocks
  first_round w v base whole n h index later s s' runs source tip
        (finished summary after e held a c) =
      finished summary after (rw runs e) held (a ∙ source) (c ∙ tip)
  first_round w v base whole n h index later s s' runs source tip (stopped f x after e held a c) =
      stopped f x after (rw runs e) held (a ∙ source) (c ∙ tip)

  module _ (base whole : List Block) (valid : IsChain whole)
      (causal : IsCausal (dated 0 whole)) where
    pub scan_blocks-Looped :
        (rest mid : List Block) (w : World) (index : Map OutPoint WalletId) (s : SyncSummary)
        → w.source.chain ≡ whole
        → (base ++ mid) ++ rest ≡ whole
        → Partial engine w (base ++ mid) whole
        → Indexes index w.utxos
        → Looped w base whole (length rest) (length (base ++ mid)) index s
    unfolding scan_blocks store_block
    scan_blocks-Looped [] mid w index s here parts held indexed =
        finished s w refl
          (subst (λ l. Partial engine w l whole) (sym (append-nil (base ++ mid)) ∙ parts) held) refl
          refl
    scan_blocks-Looped (b ∷ rest) mid w index s here parts held indexed =
        let before : List Block = base ++ mid in
        let valid' : IsChain (before ++ b ∷ rest) = subst IsChain (sym parts) valid in
        let causal' = subst (λ l. IsCausal (dated 0 l)) (sym parts) causal in
        let held' = subst (Partial engine w before) (sym parts) held in
        let sized : All IsSized b.txdata = All-middle before rest b valid'.sized in
        let (q, scanned, _) =
          txs_total engine wired (length before) b.txdata
            (pass_of index [] [] s.skipped_unblindable) sized in
        elim (round w before rest b (here ∙ sym parts) valid' index s q scanned) [
          | inr (f, e, failed) ↦
              stopped f e w (rw failed refl)
                (shorter-Partial engine w base mid whole
                  (λ t. take-IsOnce t before (b ∷ rest) (valid'.once t)) held)
                refl refl
          | inl done ↦
              let grown : (before ++ b ∷ []) ≡ (base ++ (mid ++ b ∷ [])) =
                append_assoc base mid (b ∷ []) in
              let v : World = after_block w (length before) b q in
              let further : Partial engine v (base ++ (mid ++ b ∷ [])) whole =
                subst (λ l. Partial engine v l whole) grown
                  (subst (Partial engine v (before ++ b ∷ [])) parts (
                    after_block-Partial engine wired w before rest b valid' causal' held' index
                      indexed s q sized scanned)) in
              let long : length (base ++ (mid ++ b ∷ [])) ≡ suc (length before) =
                omega (arith, ap length grown, length-append before (b ∷ [])) in
              first_round w v base whole (length rest) (length before) index q.spend_index s _ done
                refl refl
                (subst
                  (λ n.
                    Looped v base whole (length rest) n q.spend_index
                      (add_pass mock_chain mem_blocks mem_utxos s q))
                  long
                  (scan_blocks-Looped rest (mid ++ b ∷ []) v q.spend_index _ here
                    (ap (λ l. l ++ rest) (sym grown) ∙ (append_assoc before (b ∷ []) rest ∙ parts))
                    further
                    (after_block-Indexed engine wired w before rest b valid' causal' held' index
                      indexed s q sized scanned)))
        ]
