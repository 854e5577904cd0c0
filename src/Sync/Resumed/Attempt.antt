-- ===== src/Sync/Resumed/Attempt.antt =====
-- One pass with a source of blocks that may fail at any call.
use emvault_elements.Prelude.{
  suc, ◌+◌, ◌-◌, ◌≡◌, refl, subst, sym, ap, ◌∙◌, inl, inr, true, false, none, some, List, [], ◌∷◌,
  ◌++◌, append-nil, arith, length, length-append, get_elem?, leb, ltb, wrap32,
}
use emvault_elements.Prelude.Tests.{nat_eq}
use emvault_elements.Prelude.Result.{ok, err}
use emvault_elements.Prelude.Map
use emvault_elements.Prelude.Map.Laws.{contains_key-collect, All-entries}
use emvault_elements.Error.{SyncError}
use emvault_elements.Elements.{outpoint_eq, Block}
use emvault_elements.Sync.Types.{ElementsChainSource}
use emvault_elements.Sync.Scan.{BlockScanEngine}
use emvault_elements.Sync.Engine.{SyncSummary, empty_summary, start_height, advance, sync}
use emvault_elements.Sync.Fakes.{
  World, mock_chain, mem_blocks, mem_utxos, block_hash_at, block_hash, tip_height,
  unspent_outpoints,
}
use emvault_elements.Sync.Ledger.{dated, IsOnce}
use emvault_elements.Sync.Ledger.Later.{IsCausal}
use emvault_elements.Sync.Ledger.Steps.{ledger-IsKeyed}
use emvault_elements.Sync.Agreement.Outputs.{IsWired}
use emvault_elements.Sync.Chain.{IsChain}
use emvault_elements.Sync.Synced.{Indexes}
use emvault_elements.Sync.Cursor.{Synced}
use emvault_elements.Sync.Cursor.{last, get_elem?-last}
use emvault_elements.Sync.Ancestor.{node_hash}
use emvault_elements.Sync.Refinement.{unspent_keys}
use emvault_elements.Sync.Resumed.Within.{Within}
use emvault_elements.Sync.Resumed.Partial.{Partial, shorter-Partial, told}
use emvault_elements.Sync.Resumed.Loop.{Looped, finished, stopped, scan_blocks-Looped}
use emvault_elements.Sync.Resumed.Answers.{Flaky, start-Answers}
use emvault_elements.Sync.Resumed.Ready.{Ready, standing-Ready, Partial-Holds, Within-IsKeyed}

module _ (engine : BlockScanEngine) where
  start-Indexes :
      (w : World) (base whole : List Block)
      → Partial engine w base whole
      → Indexes (Map.collect (unspent_outpoints w.utxos)) w.utxos
  start-Indexes w base whole p op =
      contains_key-collect op (unspent_outpoints w.utxos)
      ∙ unspent_keys w.utxos op p.unique (
          All-entries (λ op e. e.utxo.outpoint ≡ op) w.utxos p.unique
            (λ op e found.
              Within-IsKeyed op (told engine whole op) (some e)
                (ledger-IsKeyed engine op (dated 0 whole) none tt)
                (subst (Within (told engine whole op)) found (p.within op))))

  module _ (F : Type 0) (chain : ElementsChainSource World) (flaky : Flaky F chain) where
    -- The pass succeeded and caught up with the chain, or failed and left stores that a pass can
    -- start from.
    pub data Attempt (w : World) (whole : List Block) : Type 0 where
      succeeded :
          (summary : SyncSummary) (after : World)
          → sync chain mem_blocks mem_utxos engine w ≡ (ok summary, after)
          → Synced engine after whole
          → after.source ≡ w.source
          → Attempt w whole
      failed :
          F
          → (e : SyncError) (after : World)
          → sync chain mem_blocks mem_utxos engine w ≡ (err e, after)
          → Ready engine after whole
          → after.source ≡ w.source
          → Attempt w whole

    module _ (wired : IsWired engine) (w : World) (b : Block) (bs : List Block)
        (here : w.source.chain ≡ b ∷ bs) (valid : IsChain (b ∷ bs))
        (causal : IsCausal (dated 0 (b ∷ bs))) (st : Ready engine w (b ∷ bs)) where
      total : length st.kept + length st.rest ≡ suc (length bs)
      total = omega (arith, length-append st.kept st.rest, ap length st.parts)

      node_tip : tip_height w.source ≡ ok (length bs)
      unfolding tip_height
      node_tip = rw here (ground (arith, valid.short))

      no_clamp : ltb (wrap32 (length bs + 1)) (length st.kept) ≡ false
      no_clamp = ground (arith, total, valid.short)

      rounds : suc (length bs) - length st.kept ≡ length st.rest
      rounds = omega (arith, total)

      reached : leb (length st.kept) (wrap32 (length bs + 1)) ≡ true
      reached = ground (arith, total, valid.short)

      first : SyncSummary
      first = record empty_summary { reorg_to = st.reorg_to }

      abbrev FromHere : Type 0
      FromHere =
          Looped F chain flaky engine wired st.after st.kept (b ∷ bs) (length st.rest)
            (length st.kept) (Map.collect (unspent_outpoints st.after.utxos)) first

      looped : FromHere
      looped =
          subst
            (λ l.
              Looped F chain flaky engine wired st.after st.kept (b ∷ bs) (length st.rest)
                (length l) (Map.collect (unspent_outpoints st.after.utxos)) first)
            (append-nil st.kept)
            (scan_blocks-Looped F chain flaky engine wired st.kept (b ∷ bs) valid causal st.rest []
              st.after _ first (ap (λ c. c.chain) st.source ∙ here)
              (ap (λ l. l ++ st.rest) (append-nil st.kept) ∙ st.parts)
              (subst (λ l. Partial engine st.after l (b ∷ bs)) (sym (append-nil st.kept)) st.held)
              (start-Indexes st.after st.kept (b ∷ bs) st.held))

      -- The cursor moves to the tip.
      advanced : World → World
      advanced v = record v {
        store = record (v.store) {
          tip = some (record { height = length bs; hash = (last b bs).block_hash });
        };
      }

      advanced-Synced :
          (v : World) → Partial engine v (b ∷ bs) (b ∷ bs) → Synced engine (advanced v) (b ∷ bs)
      unfolding advanced block_hash_at
      advanced-Synced v p =
          let h = Partial-Holds engine v (b ∷ bs) p in
          record {
            holds = record {
              hashes = h.hashes;
              ledgers = h.ledgers;
              unique = h.unique;
              unique_heights = h.unique_heights;
            };
            cursor = refl;
          }

      tip_hash :
          (v : World)
          → v.source ≡ st.after.source
          → block_hash v.source (length bs) ≡ ok (last b bs).block_hash
      tip_hash v same = node_hash v (length bs) (last b bs) (
          ap (λ c. get_elem? c.chain (length bs)) (same ∙ st.source)
          ∙ (ap (λ l. get_elem? l (length bs)) here ∙ get_elem?-last b bs))

      left-Ready :
          (v : World)
          → Partial engine v st.kept (b ∷ bs)
          → v.source ≡ st.after.source
          → v.store.tip ≡ st.after.store.tip
          → Ready engine v (b ∷ bs)
      left-Ready v p source tip =
          standing-Ready engine v st.kept st.rest (b ∷ bs)
            (ap (λ c. c.chain) (source ∙ st.source) ∙ here) st.parts valid.short p (tip ∙ st.cursor)

      kept-Partial :
          (v : World) → Partial engine v (b ∷ bs) (b ∷ bs) → Partial engine v st.kept (b ∷ bs)
      kept-Partial v p =
          shorter-Partial engine v st.kept st.rest (b ∷ bs)
            (λ t. subst (λ l. IsOnce t (dated 0 l)) (sym st.parts) (valid.once t))
            (subst (λ l. Partial engine v l (b ∷ bs)) (sym st.parts) p)

      finish :
          chain.tip_height w ≡ mock_chain.tip_height w
          → start_height chain mem_blocks mem_utxos w.store.tip w
            ≡ start_height mock_chain mem_blocks mem_utxos w.store.tip w
          → FromHere
          → Attempt w (b ∷ bs)
      unfolding sync first advance advanced
      finish tips started (stopped f e after runs held source tip) =
          failed f e after (rw (tips, node_tip, started, st.runs, no_clamp, rounds, runs) refl)
            (left-Ready after held source tip) (source ∙ st.source)
      finish tips started (finished summary after runs held source tip) =
          elim (flaky.hashes (length bs) after) [
            | inr (f, e, failing) ↦
                failed f e after
                  (rw (tips, node_tip, started, st.runs, no_clamp, rounds, runs, reached, failing)
                    refl)
                  (left-Ready after (kept-Partial after held) source tip) (source ∙ st.source)
            | inl hash ↦
                succeeded summary (advanced after)
                  (rw
                    (
                      tips,
                      node_tip,
                      started,
                      st.runs,
                      no_clamp,
                      rounds,
                      runs,
                      reached,
                      hash,
                      tip_hash after source,
                    )
                    refl)
                  (advanced-Synced after held) (source ∙ st.source)
          ]

      pub attempt : Attempt w (b ∷ bs)
      unfolding sync
      attempt = elim (flaky.tips w) [
        | inr (f, e, failing) ↦ failed f e w (rw failing refl) st refl
        | inl tips ↦ elim (start-Answers F chain flaky w.store.tip w) [
          | inr (f, e, failing) ↦ failed f e w (rw (tips, node_tip, failing) refl) st refl
          | inl started ↦ finish tips started looped
        ]
      ]
