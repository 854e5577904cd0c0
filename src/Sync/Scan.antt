-- ===== src/Sync/Scan.antt =====
-- sync/scan.rs: what the engine does with one block, before anything is written to a store.
use emvault_elements.Prelude.{
  ℕ, suc, ◌+◌, ◌^◌, false, Option, none, some, List, [], ◌∷◌, ◌++◌, get_elem?, ltb, if◌then◌else◌,
  wrap64,
}
use emvault_elements.Prelude.Result.{Result, ok, err, panic, expect, ◌>>=◌}
use emvault_elements.Prelude.Map
use emvault_elements.Prelude.Map.{Map}
use emvault_elements.Prelude.Tests.{bytes_eq}
use emvault_elements.Elements.{
  OutPoint, outpoint_eq, Script, Chain, TxIn, TxOut, TxOutSecrets, Transaction,
}
use emvault_elements.Error.{SyncError, WolletError}
use emvault_elements.Wollet
use emvault_elements.Wollet.{ElementsWollet}
use emvault_elements.Sync.Types.{WalletId, CapturedUtxo}

pub record ScriptEntry : Type 0 where
  pub wallet_id : WalletId
  pub chain : Chain
  pub wildcard_index : ℕ
  pub wollet_idx : ℕ

pub record BlockScanEngine : Type 0 where
  pub index : Map Script ScriptEntry
  pub wollets : List ElementsWollet

-- The local variables of the scan of one block.
pub record Pass : Type 0 where
  pub spend_index : Map OutPoint WalletId
  pub captured : List CapturedUtxo
  pub spent : List OutPoint
  pub skipped_unblindable : ℕ

unfoldable pub scan_input : Pass → TxIn → Pass
scan_input p input =
    if Map.contains_key input.previous_output p.spend_index
    then record p {
      spend_index = Map.remove input.previous_output p.spend_index;
      spent = p.spent ++ input.previous_output ∷ [];
    }
    else p

unfoldable pub scan_inputs : Pass → List TxIn → Pass
unfolding scan_input
scan_inputs p [] = p
scan_inputs p (input ∷ rest) = scan_inputs (scan_input p input) rest

-- `u32::try_from(vout)`
abbrev pub to_u32 : ℕ → Option ℕ
to_u32 n = if ltb n (2 ^ 32) then some n else none

abbrev pub captured_utxo : ScriptEntry → ℕ → OutPoint → TxOut → TxOutSecrets → CapturedUtxo
captured_utxo entry h outpoint txout secrets = record {
  wallet_id = entry.wallet_id;
  outpoint = outpoint;
  txout = txout;
  secrets = secrets;
  chain = entry.chain;
  wildcard_index = entry.wildcard_index;
  height = h;
  is_spent = false;
}

abbrev pub captured_pass : ScriptEntry → ℕ → OutPoint → TxOut → TxOutSecrets → Pass → Pass
captured_pass entry h outpoint txout secrets p = record p {
  captured = p.captured ++ captured_utxo entry h outpoint txout secrets ∷ [];
  spend_index = Map.insert outpoint entry.wallet_id p.spend_index;
}

-- The output matched; the unblinding says whether it is captured or skipped.
unfoldable pub capture :
    ScriptEntry → ℕ → ℕ → ℕ → TxOut → Pass → Result WolletError TxOutSecrets → Result SyncError Pass
capture entry h txid vout txout p (ok secrets) = do
  vout' ← expect (to_u32 vout)
  ok (captured_pass entry h (record { txid = txid; vout = vout' }) txout secrets p)
capture entry h txid vout txout p (err _) =
    ok (record p { skipped_unblindable = wrap64 (p.skipped_unblindable + 1) })
capture entry h txid vout txout p panic = panic

module _ (engine : BlockScanEngine) (h : ℕ) where
  unfoldable pub scan_output : ℕ → ℕ → TxOut → Pass → Result SyncError Pass
  unfolding capture
  scan_output txid vout txout p = elim (Map.get txout.script_pubkey engine.index) [
    | none ↦ ok p
    | some entry ↦ do
      wollet ← expect (get_elem? engine.wollets entry.wollet_idx)
      capture entry h txid vout txout p (Wollet.unblind wollet txout)
  ]

  -- `enumerate` from `vout`
  unfoldable pub scan_outputs : ℕ → ℕ → List TxOut → Pass → Result SyncError Pass
  unfolding scan_output
  scan_outputs txid vout [] p = ok p
  scan_outputs txid vout (txout ∷ rest) p = do
    p' ← scan_output txid vout txout p
    scan_outputs txid (suc vout) rest p'

  unfoldable pub scan_txs : List Transaction → Pass → Result SyncError Pass
  unfolding scan_inputs scan_outputs
  scan_txs [] p = ok p
  scan_txs (tx ∷ rest) p = do
    p' ← scan_outputs tx.txid 0 tx.output (scan_inputs p tx.input)
    scan_txs rest p'
