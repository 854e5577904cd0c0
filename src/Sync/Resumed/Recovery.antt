-- ===== src/Sync/Resumed/Recovery.antt =====
-- Passes one after another, each of which may fail, while the node keeps its chain.
use emvault_elements.Prelude.{
  ℕ, ◌≤◌, ◌<◌, ◌^◌, ◌≡◌, refl, subst, sym, ap, ◌∙◌, inl, List, ◌∷◌, length,
}
use emvault_elements.Elements.{Block}
use emvault_elements.Sync.Types.{ElementsChainSource}
use emvault_elements.Sync.Scan.{BlockScanEngine}
use emvault_elements.Sync.Engine.{sync}
use emvault_elements.Sync.Fakes.{World, mock_chain, mem_blocks, mem_utxos}
use emvault_elements.Sync.Ledger.{dated, IsOnce}
use emvault_elements.Sync.Ledger.Later.{IsCausal}
use emvault_elements.Sync.Agreement.Outputs.{IsWired}
use emvault_elements.Sync.Chain.{IsChain}
use emvault_elements.Sync.Restart.{IsFork}
use emvault_elements.Sync.Cursor.{Synced}
use emvault_elements.Sync.Refinement.{Caught, restart, nonempty}
use emvault_elements.Sync.Resumed.Answers.{Flaky}
use emvault_elements.Sync.Resumed.Ready.{Ready, Restart-Ready, Synced-Ready}
use emvault_elements.Sync.Resumed.Attempt.{Attempt, succeeded, failed, attempt}

-- The node itself never fails.
mock-Flaky : Flaky ⊥ mock_chain
mock-Flaky = record { tips = λ w. inl refl; hashes = λ h w. inl refl; blocks = λ hash w. inl refl }

module _ (engine : BlockScanEngine) where
  -- The worlds that any number of passes reach, each pass with a source of its own that may fail
  -- at any call.
  pub data Attempts (w : World) : World → Type 0 where
    none_yet : Attempts w w
    again :
        (v : World) (chain : ElementsChainSource World)
        → Flaky Unit chain
        → Attempts w v
        → Attempts w (sync chain mem_blocks mem_utxos engine v).1

  -- What holds between the passes
  record Between (w : World) (whole : List Block) : Type 0 where
    ready : Ready engine w whole
    source : w.source.chain ≡ whole

  module _ (whole : List Block) (once : (t : ℕ) → IsOnce t (dated 0 whole))
      (short : length whole < 2 ^ 32) where
    ended-Between :
        (F : Type 0) (chain : ElementsChainSource World) (flaky : Flaky F chain) (v : World)
        → v.source.chain ≡ whole
        → Attempt engine F chain flaky v whole
        → Between (sync chain mem_blocks mem_utxos engine v).1 whole
    ended-Between F chain flaky v here (succeeded summary after runs synced source) =
        let same : after.source.chain ≡ whole = ap (λ c. c.chain) source ∙ here in
        rw runs
          (record { ready = Synced-Ready engine after whole same once short synced; source = same })
    ended-Between F chain flaky v here (failed f e after runs ready source) =
        rw runs (record { ready = ready; source = ap (λ c. c.chain) source ∙ here })

    caught :
        (v : World)
        → v.source.chain ≡ whole
        → Attempt engine ⊥ mock_chain mock-Flaky v whole
        → Caught engine v
    caught v here (succeeded summary after runs synced source) = record {
      after = after;
      summary = summary;
      runs = runs;
      synced = subst (Synced engine after) (sym here) synced;
      source = source;
    }
    caught v here (failed f e after runs ready source) = absurd f

  module _ (wired : IsWired engine) (b : Block) (bs : List Block) (valid : IsChain (b ∷ bs))
      (causal : IsCausal (dated 0 (b ∷ bs))) where
    Attempts-Between : (w v : World) → Between w (b ∷ bs) → Attempts w v → Between v (b ∷ bs)
    Attempts-Between w _ start none_yet = start
    Attempts-Between w _ start (again v chain flaky before) =
        let now = Attempts-Between w v start before in
        ended-Between (b ∷ bs) valid.once valid.short Unit chain flaky v now.source
          (attempt engine Unit chain flaky wired v b bs now.source valid causal now.ready)

    recovers : (w v : World) → Between w (b ∷ bs) → Attempts w v → Caught engine v
    recovers w v start passes =
        let now = Attempts-Between w v start passes in
        caught (b ∷ bs) valid.once valid.short v now.source
          (attempt engine ⊥ mock_chain mock-Flaky wired v b bs now.source valid causal now.ready)

  -- Let every entry of the engine's index name a registered wollet, and unblinding return (it may
  -- fail). Let the stores be synced with a chain `old` (none of its transaction identifiers
  -- repeats), and let the node have a chain that is well formed (`IsChain`), not empty, not
  -- shorter than `old`, a fork of it, and in which a transaction spends only what an earlier one
  -- created. Let any number of passes run, each with a source that fails at any of its calls with
  -- an error and otherwise answers as the node does. Then the node still has its chain, and the
  -- next pass that meets no failure returns without an error or a panic and leaves the stores
  -- synced with that chain: for every outpoint exactly what its ledger says, and its hashes and
  -- cursor, whatever the failed passes had written.
  pub sync-Recovers :
      IsWired engine
      → (w : World) (old : List Block) → Synced engine w old
      → ((t : ℕ) → IsOnce t (dated 0 old))
      → IsChain w.source.chain
      → IsFork old w.source.chain
      → length old ≤ length w.source.chain
      → 0 < length w.source.chain
      → IsCausal (dated 0 w.source.chain)
      → (v : World) → Attempts w v
      → Caught engine v × (v.source.chain ≡ w.source.chain)
  sync-Recovers wired w old synced once valid fork long some_block causal v passes =
      let (b, rest, here) = nonempty w.source.chain some_block in
      let start : Between w (b ∷ rest) = record {
        ready = subst (Ready engine w) here (
            Restart-Ready engine w valid.once
              (restart engine w old synced once fork long valid.short));
        source = here;
      } in
      let valid' : IsChain (b ∷ rest) = subst IsChain here valid in
      let causal' = subst (λ l. IsCausal (dated 0 l)) here causal in
      (
        recovers wired b rest valid' causal' w v start passes,
        (Attempts-Between wired b rest valid' causal' w v start passes).source ∙ sym here,
      )
