-- ===== src/Sync/Ledger.antt =====
-- What the block-scan pipeline is for, described one outpoint at a time and with no index, batch
-- or cursor: a chain is its transactions in order, each with the height of its block, and an
-- outpoint is unknown, known and unspent, or spent at a height.
pub mod Rollback
pub mod Steps
pub mod Fresh
pub mod Later
use mathlib.Core.List.{foldl}
use emvault_elements.Prelude.{
  ℕ, suc, ◌≡◌, Option, none, some, List, [], ◌∷◌, ◌++◌, map, get_elem?, if◌then◌else◌, ◌==◌, All,
  ◌≢◌,
}
use emvault_elements.Prelude.Result.{Result, ok, err, panic}
use emvault_elements.Prelude.Map
use emvault_elements.Prelude.Tests.{bytes_eq}
use emvault_elements.Elements.{OutPoint, outpoint_eq, TxIn, TxOut, TxOutSecrets, Transaction, Block}
use emvault_elements.Error.{WolletError}
use emvault_elements.Wollet
use emvault_elements.Wollet.{ElementsWollet}
use emvault_elements.Sync.Scan.{ScriptEntry, BlockScanEngine, captured_utxo}
use emvault_elements.Sync.Fakes.{Entry, fresh_entry, spend_entry}

-- A transaction with the height of its block.
abbrev pub Dated : Type 0
Dated = ℕ × Transaction

unfoldable pub dated : ℕ → List Block → List Dated
dated h [] = []
dated h (b ∷ bs) = map (λ tx. (h, tx)) b.txdata ++ dated (suc h) bs

abbrev pub opened_by :
    ScriptEntry → Result WolletError TxOutSecrets → Option (ScriptEntry × TxOutSecrets)
opened_by entry (ok secrets) = some (entry, secrets)
opened_by entry (err _) = none
opened_by entry panic = none

abbrev opened_with :
    TxOut → ScriptEntry → Option ElementsWollet → Option (ScriptEntry × TxOutSecrets)
opened_with txout entry none = none
opened_with txout entry (some w) = opened_by entry (Wollet.unblind w txout)

-- The output pays a watched script, and its wallet can open it.
unfoldable pub opened : BlockScanEngine → TxOut → Option (ScriptEntry × TxOutSecrets)
opened engine txout = elim (Map.get txout.script_pubkey engine.index) [
  | none ↦ none
  | some entry ↦ opened_with txout entry (get_elem? engine.wollets entry.wollet_idx)
]

unfoldable pub spend : ℕ → Option Entry → Option Entry
spend h none = none
spend h (some e) = if e.utxo.is_spent then some e else some (spend_entry h e)

module _ (engine : BlockScanEngine) (op : OutPoint) where
  unfoldable pub spend_inputs : ℕ → List TxIn → Option Entry → Option Entry
  unfolding spend
  spend_inputs h [] o = o
  spend_inputs h (input ∷ rest) o =
      spend_inputs h rest (if input.previous_output == op then spend h o else o)

  unfoldable pub create_output : ℕ → ℕ → ℕ → TxOut → Option Entry → Option Entry
  create_output h txid vout txout o =
      let here : OutPoint = record { txid = txid; vout = vout } in
      elim (opened engine txout) [
        | none ↦ o
        | some (entry, secrets) ↦
            if here == op then some (fresh_entry (captured_utxo entry h here txout secrets)) else o
      ]

  unfoldable pub create_outputs : ℕ → ℕ → ℕ → List TxOut → Option Entry → Option Entry
  unfolding create_output
  create_outputs h txid vout [] o = o
  create_outputs h txid vout (txout ∷ rest) o =
      create_outputs h txid (suc vout) rest (create_output h txid vout txout o)

  unfoldable pub ledger_tx : Option Entry → Dated → Option Entry
  unfolding spend_inputs create_outputs
  ledger_tx o (h, tx) = create_outputs h tx.txid 0 tx.output (spend_inputs h tx.input o)

  -- What is known of `op` after the transactions.
  unfoldable pub ledger : List Dated → Option Entry → Option Entry
  unfolding ledger_tx
  ledger [] o = o
  ledger (d ∷ ds) o = ledger ds (ledger_tx o d)

-- No transaction of the list has the identifier.
abbrev pub IsAbsent : ℕ → List Dated → Type 0
IsAbsent t = All (λ d. d.1.txid ≢ t)

-- At most one transaction of the list has the identifier.
abbrev pub IsOnce : ℕ → List Dated → Type 0
IsOnce t [] = Unit
IsOnce t (d ∷ ds) = (d.1.txid ≡ t → IsAbsent t ds) × IsOnce t ds
