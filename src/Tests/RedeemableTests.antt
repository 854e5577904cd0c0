-- ===== src/Tests/RedeemableTests.antt =====
-- A registered wollet, a pass over a chain that pays it, and the output that it can spend.
use emvault_elements.Prelude.{◌≡◌, refl, none, some, List, [], ◌∷◌, IsMember, arith}
use emvault_elements.Prelude.Map
use emvault_elements.Sync.Types.{WalletId}
use emvault_elements.Sync.Scan.{BlockScanEngine}
use emvault_elements.Sync.Engine
use emvault_elements.Sync.Engine.{register_wallet, index_scripts}
use emvault_elements.Sync.Fakes.{World, fresh_entry, list_unspent}
use emvault_elements.Sync.Ledger.{
  ledger, dated, ledger_tx, spend_inputs, spend, create_outputs, create_output, opened,
}
use emvault_elements.Sync.History.{History, begin, then_pass, fresh, pass_on, History-Synced}
use emvault_elements.Sync.Balance.{list_unspent_lem}
use emvault_elements.Sync.Wired.{Built-IsWired}
use emvault_elements.Sync.Redeemable.{Redeems, list_unspent-Redeems}
use emvault_elements.Sync.Redeemable.Backed
use emvault_elements.Sync.Redeemable.Backed.{Makes, Makes-Built}
use emvault_elements.Tests.SyncTests.{
  wollet, wallet_id, wollet-Returns, old_chain, old-IsChain, first-IsFork,
}
use emvault_elements.Tests.StoreTests.{balance}
use emvault_elements.Tests.HistoryTests.{source_of}
use emvault_elements.Wollet
use emvault_elements.Wollet.{watched_scripts, watched_from}

abbrev engine : BlockScanEngine
engine = (register_wallet wallet_id wollet 2 Engine.new).1

abbrev ids : List WalletId
ids = wallet_id ∷ []

made : Makes ids engine
made = Backed.registered [] Engine.new wallet_id wollet 2 wollet-Returns Backed.fresh

abbrev passed : World
passed = pass_on engine (source_of old_chain) (fresh (source_of []))

history : History engine passed old_chain
history =
    then_pass (fresh (source_of [])) [] (source_of old_chain) (begin (source_of [])) old-IsChain
      first-IsFork (omega arith) (omega arith)

recorded : ledger engine balance.outpoint (dated 0 old_chain) none ≡ some (fresh_entry balance)
unfolding ledger dated ledger_tx spend_inputs spend create_outputs create_output opened
    register_wallet index_scripts watched_scripts watched_from Map.get Map.insert Wollet.unblind
recorded = refl

-- The second output is listed.
listed : IsMember balance (list_unspent passed.utxos wallet_id)
listed =
    let holds =
      (History-Synced engine (Built-IsWired engine (Makes-Built ids engine made)) passed old_chain
        history).holds in
    (list_unspent_lem engine passed old_chain holds wallet_id balance).1 (record {
      entry = fresh_entry balance;
      found = recorded;
      same = refl;
      unspent = refl;
      owned = refl;
    })

list_unspent-Redeems_example : (balance.wallet_id ≡ wallet_id) × Redeems ids engine.wollets balance
list_unspent-Redeems_example =
    list_unspent-Redeems ids engine made passed old_chain history wallet_id balance listed
