-- ===== src/Tests/RecoveryTests.antt =====
-- A pass that rolls back for a reorganisation and fails on the way to the new tip, twice.
use emvault_elements.Prelude.{
  ℕ, ◌≡◌, ◌⊎◌, refl, true, false, Bool, inl, inr, if◌then◌else◌, ◌==◌, arith, codes,
}
use emvault_elements.Prelude.Tests.{nat_eq}
use emvault_elements.Prelude.Result.{Result, err}
use emvault_elements.Elements.{Block}
use emvault_elements.Error.{SyncError}
use emvault_elements.Sync.Types.{ElementsChainSource}
use emvault_elements.Sync.Engine.{sync}
use emvault_elements.Sync.Fakes.{World, mock_chain, mem_blocks, mem_utxos, block}
use emvault_elements.Sync.Ledger.{dated}
use emvault_elements.Sync.Refinement.{Caught}
use emvault_elements.Sync.Resumed.Answers.{Flaky}
use emvault_elements.Sync.Resumed.Recovery.{none_yet, again, sync-Recovers}
use emvault_elements.Tests.SyncTests.{
  engine, engine-IsWired, old_chain, new_chain, reorganised, reorganised-Synced, old-IsChain,
  new-IsChain, chains-IsFork,
}

abbrev lost : SyncError
lost = SyncError.chain_source (codes "lost")

-- A node that does not answer for block 203.
abbrev silent : ElementsChainSource World
silent = record mock_chain {
  block = λ hash w. if hash == 203 then (err lost, w) else (block w.source hash, w);
}

silent_answers :
    (hash : ℕ) (w : World) (b : Bool)
    → (if◌then◌else◌ {A = Result SyncError Block × World} b (err lost, w) (block w.source hash, w)
        ≡ (block w.source hash, w))
      ⊎ (Unit {0}
          × (e : SyncError) × (if◌then◌else◌ {A = Result SyncError Block × World} b
                (err lost, w)
                (block w.source hash, w)
              ≡ (err e, w)))
silent_answers hash w true = inr (tt, lost, refl)
silent_answers hash w false = inl refl

silent-Flaky : Flaky Unit silent
silent-Flaky = record {
  tips = λ w. inl refl;
  hashes = λ h w. inl refl;
  blocks = λ hash w. silent_answers hash w (hash == 203);
}

abbrev once_failed : World
once_failed = (sync silent mem_blocks mem_utxos engine reorganised).1

abbrev twice_failed : World
twice_failed = (sync silent mem_blocks mem_utxos engine once_failed).1

sync-Recovers_example : Caught engine twice_failed × (twice_failed.source.chain ≡ new_chain)
unfolding dated
sync-Recovers_example =
    sync-Recovers engine engine-IsWired reorganised old_chain reorganised-Synced old-IsChain.once
      new-IsChain chains-IsFork (omega arith) (omega arith) (omega arith) twice_failed
      (again once_failed silent silent-Flaky (again reorganised silent silent-Flaky none_yet))
