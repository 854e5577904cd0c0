-- ===== src/Tests/HistoryTests.antt =====
-- A chain, a reorganisation of it, and a store that only saw the second one.
use emvault_elements.Prelude.{List, [], arith}
use emvault_elements.Elements.{Block}
use emvault_elements.Sync.Fakes.{World, MockChainSource}
use emvault_elements.Sync.Restart.{IsFork}
use emvault_elements.Sync.Cursor.{Synced}
use emvault_elements.Sync.History.{
  History, begin, then_pass, fresh, pass_on, Alike, History-Synced, History-Alike,
}
use emvault_elements.Tests.SyncTests.{
  engine, old_chain, new_chain, engine-IsWired, old-IsChain, new-IsChain, first-IsFork,
  chains-IsFork,
}

abbrev pub source_of : List Block → MockChainSource
source_of bs = record { chain = bs; broadcasted = [] }

abbrev once : World
once = pass_on engine (source_of old_chain) (fresh (source_of []))

abbrev reorganised : World
reorganised = pass_on engine (source_of new_chain) once

abbrev late : World
late = pass_on engine (source_of new_chain) (fresh (source_of []))

reorganised-History : History engine reorganised new_chain
reorganised-History =
    then_pass once old_chain (source_of new_chain)
      (then_pass (fresh (source_of [])) [] (source_of old_chain) (begin (source_of [])) old-IsChain
        first-IsFork (omega arith) (omega arith))
      new-IsChain chains-IsFork (omega arith) (omega arith)

new-IsFork : IsFork [] new_chain
new-IsFork = record { commits = λ h x e _. absurd (cc); genesis = λ x e. absurd (cc) }

late-History : History engine late new_chain
late-History =
    then_pass (fresh (source_of [])) [] (source_of new_chain) (begin (source_of [])) new-IsChain
      new-IsFork (omega arith) (omega arith)

History-Synced_example : Synced engine reorganised new_chain
History-Synced_example =
    History-Synced engine engine-IsWired reorganised new_chain reorganised-History

History-Alike_example : Alike reorganised late
History-Alike_example =
    History-Alike engine engine-IsWired reorganised late new_chain reorganised-History late-History
