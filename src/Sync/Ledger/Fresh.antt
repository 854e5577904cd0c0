-- ===== src/Sync/Ledger/Fresh.antt =====
-- Transaction identifiers do not repeat, so an outpoint is created once.
use emvault_elements.Prelude.{
  ℕ, suc, ◌≤◌, ◌≡◌, refl, ap, ◌∙◌, ◌≢◌, ◌⊎◌, inl, inr, Option, none, List, [], ◌∷◌, ◌++◌, arith,
  ◌==◌, Bool-cases, nat_eqb_iff,
}
use emvault_elements.Prelude.Tests.{nat_eq}
use emvault_elements.Elements.{OutPoint, outpoint_eq, TxIn, TxOut, Transaction}
use emvault_elements.Sync.Scan.{BlockScanEngine}
use emvault_elements.Sync.Fakes.{Entry}
use emvault_elements.Sync.Ledger.{
  Dated, spend_inputs, create_output, create_outputs, ledger_tx, ledger, IsAbsent, IsOnce,
}
use emvault_elements.Sync.Ledger.Steps.{create-cases}

-- An outpoint that is known is not created again by the transactions, nor twice by them.
abbrev pub IsFresh : OutPoint → List Dated → Option Entry → Type 0
IsFresh op ds o = ((o ≡ none) ⊎ IsAbsent op.txid ds) × IsOnce op.txid ds

-- The conditions on what is known of `op` when the outputs from `vout` on are scanned.
abbrev pub IsUncreated : OutPoint → ℕ → ℕ → Option Entry → Type 0
IsUncreated op txid vout o = txid ≡ op.txid → vout ≤ op.vout → o ≡ none

module _ (engine : BlockScanEngine) (op : OutPoint) where
  pub spend_inputs-none : (h : ℕ) (ins : List TxIn) → spend_inputs engine op h ins none ≡ none
  unfolding spend_inputs
  spend_inputs-none h [] = refl
  spend_inputs-none h (input ∷ rest) = elim (Bool-cases (input.previous_output == op)) [
    | inl hit ↦ rw hit (spend_inputs-none h rest)
    | inr miss ↦ rw miss (spend_inputs-none h rest)
  ]

  outputs_other :
      (h txid vout : ℕ) (outs : List TxOut) (o : Option Entry)
      → txid ≢ op.txid
      → create_outputs engine op h txid vout outs o ≡ o
  unfolding create_outputs
  outputs_other h txid vout [] o other = refl
  outputs_other h txid vout (txout ∷ rest) o other =
      outputs_other h txid (suc vout) rest _ other
      ∙ elim (create-cases engine op h txid vout txout o) [
        | inl same ↦ same
        | inr (_, here, _, _, _) ↦ absurd (other here)
      ]

  pub next-IsUncreated :
      (h txid vout : ℕ) (txout : TxOut) (o : Option Entry)
      → IsUncreated op txid vout o
      → IsUncreated op txid (suc vout) (create_output engine op h txid vout txout o)
  next-IsUncreated h txid vout txout o fresh here later =
      elim (create-cases engine op h txid vout txout o) [
        | inl same ↦ same ∙ fresh here (omega arith)
        | inr (e, _, now, _, _) ↦ absurd (omega arith)
      ]

  module _ (h : ℕ) (tx : Transaction) (ds : List Dated) (o : Option Entry) where
    pub tx-IsUncreated :
        IsFresh op ((h, tx) ∷ ds) o → IsUncreated op tx.txid 0 (spend_inputs engine op h tx.input o)
    tx-IsUncreated (inl unknown, once) here _ = rw unknown (spend_inputs-none h tx.input)
    tx-IsUncreated (inr absent, once) here _ = absurd (absent.0 here)

    other-IsFresh :
        (tx.txid ≢ op.txid)
        → IsFresh op ((h, tx) ∷ ds) o
        → IsFresh op ds (ledger_tx engine op o (h, tx))
    unfolding ledger_tx
    other-IsFresh other (inl unknown, once) = (
      inl (
          outputs_other h tx.txid 0 tx.output _ other
          ∙ (ap (spend_inputs engine op h tx.input) unknown ∙ spend_inputs-none h tx.input)),
      once.1,
    )
    other-IsFresh other (inr absent, once) = (inr absent.1, once.1)

    pub tx-IsFresh : IsFresh op ((h, tx) ∷ ds) o → IsFresh op ds (ledger_tx engine op o (h, tx))
    tx-IsFresh f = elim (Bool-cases (tx.txid == op.txid)) [
      | inl same ↦ (inr (f.1.0 ((nat_eqb_iff _ _).0 same)), f.1.1)
      | inr other ↦ other-IsFresh (λ e. ground arith) f
    ]

  pub ledger-append :
      (ds es : List Dated) (o : Option Entry)
      → ledger engine op (ds ++ es) o ≡ ledger engine op es (ledger engine op ds o)
  unfolding ledger
  ledger-append [] es o = refl
  ledger-append (d ∷ ds) es o = ledger-append ds es (ledger_tx engine op o d)

  pub ledger-IsFresh :
      (ds es : List Dated) (o : Option Entry)
      → IsFresh op (ds ++ es) o
      → IsFresh op es (ledger engine op ds o)
  unfolding ledger
  ledger-IsFresh [] es o f = f
  ledger-IsFresh ((h, tx) ∷ ds) es o f =
      ledger-IsFresh ds es (ledger_tx engine op o (h, tx)) (tx-IsFresh h tx (ds ++ es) o f)
