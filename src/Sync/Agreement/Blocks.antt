-- ===== src/Sync/Agreement/Blocks.antt =====
-- The transactions of a block against the ledger, for every outpoint at once.
use emvault_elements.Prelude.{
  ℕ, suc, ◌≤◌, ◌+◌, ◌^◌, ◌≡◌, refl, inl, inr, Option, List, [], ◌∷◌, ◌++◌, map, arith, length, All,
}
use emvault_elements.Prelude.Result.{ok}
use emvault_elements.Elements.{OutPoint, TxOut, Transaction}
use emvault_elements.Sync.Scan.{
  Pass, BlockScanEngine, scan_inputs, scan_output, scan_outputs, scan_txs, captured_pass,
}
use emvault_elements.Sync.Fakes.{Entry, UtxoMap}
use emvault_elements.Sync.Ledger.{Dated, create_output, create_outputs, ledger_tx, ledger}
use emvault_elements.Sync.Ledger.Fresh.{
  IsFresh, IsUncreated, next-IsUncreated, tx-IsUncreated, tx-IsFresh,
}
use emvault_elements.Sync.Agreement.{Agrees, inputs-Agrees}
use emvault_elements.Sync.Agreement.Outputs.{
  IsWired, Outcome, output-Outcome, skip-Agrees, capture-Agrees,
}

-- Indices of outputs fit in a `u32`, as consensus rules have it.
abbrev pub IsSized : Transaction → Type 0
IsSized tx = length tx.output ≤ 2 ^ 32

module _ (engine : BlockScanEngine) (wired : IsWired engine) (h : ℕ) where
  -- The pass `q` agrees, at every outpoint, with the ledger after one output, if `p` did before.
  abbrev FollowsOutput : ℕ → ℕ → TxOut → Pass → Pass → Type 0
  FollowsOutput txid vout txout p q =
      (m : UtxoMap) (op : OutPoint) (o : Option Entry)
      → IsUncreated op txid vout o
      → Agrees m h op p o
      → Agrees m h op q (create_output engine op h txid vout txout o)

  abbrev FollowsOutputs : ℕ → ℕ → List TxOut → Pass → Pass → Type 0
  FollowsOutputs txid vout outs p q =
      (m : UtxoMap) (op : OutPoint) (o : Option Entry)
      → IsUncreated op txid vout o
      → Agrees m h op p o
      → Agrees m h op q (create_outputs engine op h txid vout outs o)

  output_total :
      (txid vout : ℕ) (txout : TxOut) (p : Pass)
      → Outcome engine h txid vout txout p
      → (q : Pass) × (scan_output engine h txid vout txout p ≡ ok q)
        × FollowsOutput txid vout txout p q
  output_total txid vout txout p (inl (n, shut, done)) = (
    record p { skipped_unblindable = n },
    done,
    λ m op o _ a. skip-Agrees engine m h op txid vout txout p n o shut a,
  )
  output_total txid vout txout p (inr (entry, secrets, open_, done)) = (
    captured_pass entry h (record { txid = txid; vout = vout }) txout secrets p,
    done,
    λ m op o f a. capture-Agrees engine m h op txid vout txout p entry secrets o open_ f a,
  )

  outputs_total :
      (txid vout : ℕ) (outs : List TxOut) (p : Pass)
      → vout + length outs ≤ 2 ^ 32
      → (q : Pass) × (scan_outputs engine h txid vout outs p ≡ ok q)
        × FollowsOutputs txid vout outs p q
  unfolding scan_outputs create_outputs
  outputs_total txid vout [] p small = (p, refl, λ m op o _ a. a)
  outputs_total txid vout (txout ∷ rest) p small =
      let (p', done, follows) =
        output_total txid vout txout p
          (output-Outcome engine wired h txid vout txout p (omega arith)) in
      let (q, finished, follows_rest) = outputs_total txid (suc vout) rest p' (omega arith) in
      (
        q,
        rw done finished,
        λ m op o f a.
            follows_rest m op _ (next-IsUncreated engine op h txid vout txout o f)
              (follows m op o f a),
      )

  -- After the transactions of a block, with the chain's later transactions `ds` still to come.
  abbrev pub FollowsTxs : List Transaction → Pass → Pass → Type 0
  FollowsTxs txs p q =
      (m : UtxoMap) (op : OutPoint) (o : Option Entry) (ds : List Dated)
      → IsFresh op (map (λ tx. (h, tx)) txs ++ ds) o
      → Agrees m h op p o
      → Agrees m h op q (ledger engine op (map (λ tx. (h, tx)) txs) o)

  -- The scan of a block returns, and does to each outpoint what the ledger does.
  pub txs_total :
      (txs : List Transaction) (p : Pass)
      → All IsSized txs
      → (q : Pass) × (scan_txs engine h txs p ≡ ok q) × FollowsTxs txs p q
  unfolding scan_txs ledger
  txs_total [] p sized = (p, refl, λ m op o ds _ a. a)
  txs_total (tx ∷ rest) p sized =
      let (p', done, follows) =
        outputs_total tx.txid 0 tx.output (scan_inputs p tx.input) (omega arith) in
      let (q, finished, follows_rest) = txs_total rest p' sized.1 in
      (
        q,
        rw done finished,
        λ m op o ds f a.
            follows_rest m op (ledger_tx engine op o (h, tx)) ds (tx-IsFresh engine op h tx _ o f) (
              unfold ledger_tx in
              follows m op _ (tx-IsUncreated engine op h tx _ o f)
                (inputs-Agrees engine m h op p o tx.input a)),
      )
