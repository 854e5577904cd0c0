-- ===== src/Sync/Ledger/Later.antt =====
-- What the rest of a chain can make of an outpoint: spend it, once it is created.
use emvault_elements.Prelude.{
  ℕ, suc, ◌<◌, ◌≡◌, refl, ◌∙◌, ◌≢◌, ◌⊎◌, inl, inr, false, Option, none, some, List, [], ◌∷◌, arith,
  ◌==◌, All, Bool-cases,
}
use emvault_elements.Elements.{OutPoint, outpoint_eq, TxIn, TxOut, Transaction}
use emvault_elements.Sync.Scan.{BlockScanEngine}
use emvault_elements.Sync.Fakes.{Entry, spend_entry}
use emvault_elements.Sync.Ledger.{
  Dated, spend, spend_inputs, create_outputs, ledger_tx, ledger, IsAbsent,
}
use emvault_elements.Sync.Ledger.Fresh.{spend_inputs-none}
use emvault_elements.Sync.Ledger.Steps.{create-cases}

-- The entry is still there, or was spent.
abbrev pub Later : Entry → Option Entry → Type 0
Later e b = (b ≡ some e) ⊎ ((h : ℕ) × (e.utxo.is_spent ≡ false) × (b ≡ some (spend_entry h e)))

-- A transaction spends only what an earlier one created.
abbrev pub IsCausal : List Dated → Type 0
IsCausal [] = Unit
IsCausal (d ∷ ds) =
    All (λ (input : TxIn). IsAbsent input.previous_output.txid (d ∷ ds)) d.1.input × IsCausal ds

pub spend-Later : (e : Entry) (h : ℕ) (b : Option Entry) → Later e b → Later e (spend h b)
unfolding spend
spend-Later e h b (inl same) = elim (Bool-cases e.utxo.is_spent) [
  | inl old ↦ inl (rw same (rw old refl))
  | inr new ↦ inr (h, new, rw same (rw new refl))
]
spend-Later e h b (inr (s, new, same)) = inr (s, new, rw same refl)

module _ (engine : BlockScanEngine) (op : OutPoint) where
  pub inputs-Later :
      (e : Entry) (h : ℕ) (ins : List TxIn) (b : Option Entry)
      → Later e b
      → Later e (spend_inputs engine op h ins b)
  unfolding spend_inputs
  inputs-Later e h [] b l = l
  inputs-Later e h (input ∷ rest) b l = elim (Bool-cases (input.previous_output == op)) [
    | inl hit ↦ rw hit (inputs-Later e h rest (spend h b) (spend-Later e h b l))
    | inr miss ↦ rw miss (inputs-Later e h rest b l)
  ]

  -- The outputs from `vout` on are not the outpoint.
  outputs_past :
      (h txid vout : ℕ) (outs : List TxOut) (b : Option Entry)
      → (txid ≡ op.txid → op.vout < vout)
      → create_outputs engine op h txid vout outs b ≡ b
  unfolding create_outputs
  outputs_past h txid vout [] b past = refl
  outputs_past h txid vout (txout ∷ rest) b past =
      outputs_past h txid (suc vout) rest _ (λ e. omega (arith, past e))
      ∙ elim (create-cases engine op h txid vout txout b) [
        | inl same ↦ same
        | inr (_, here, at, _, _) ↦ absurd (omega (arith, past here))
      ]

  -- The transactions do not create the outpoint, so what is spent or unknown stays.
  tx-Later :
      (e : Entry) (h : ℕ) (tx : Transaction) (b : Option Entry)
      → tx.txid ≢ op.txid
      → Later e b
      → Later e (ledger_tx engine op b (h, tx))
  unfolding ledger_tx
  tx-Later e h tx b other l =
      rw
        (outputs_past h tx.txid 0 tx.output (spend_inputs engine op h tx.input b)
          (λ s. absurd (other s)))
        (inputs-Later e h tx.input b l)

  pub ledger-Later :
      (e : Entry) (ds : List Dated) (b : Option Entry)
      → IsAbsent op.txid ds
      → Later e b
      → Later e (ledger engine op ds b)
  unfolding ledger
  ledger-Later e [] b absent l = l
  ledger-Later e ((h, tx) ∷ ds) b absent l =
      ledger-Later e ds _ absent.1 (tx-Later e h tx b absent.0 l)

  -- What is left of a chain, from the outputs of a transaction on, does to the outpoint.
  abbrev pub remaining : ℕ → ℕ → ℕ → List TxOut → List Dated → Option Entry → Option Entry
  remaining h txid vout outs ds o =
      ledger engine op ds (create_outputs engine op h txid vout outs o)

  pub remaining-Later :
      (e : Entry) (h txid vout : ℕ) (outs : List TxOut) (ds : List Dated) (b : Option Entry)
      → (txid ≡ op.txid → op.vout < vout)
      → IsAbsent op.txid ds
      → Later e b
      → Later e (remaining h txid vout outs ds b)
  remaining-Later e h txid vout outs ds b past absent l =
      rw (outputs_past h txid vout outs b past) (ledger-Later e ds b absent l)

  ledger-none : (ds : List Dated) → IsAbsent op.txid ds → ledger engine op ds none ≡ none
  unfolding ledger ledger_tx
  ledger-none [] absent = refl
  ledger-none ((h, tx) ∷ ds) absent =
      rw
        (
          spend_inputs-none engine op h tx.input,
          outputs_past h tx.txid 0 tx.output none (λ s. absurd (absent.0 s)),
        )
        (ledger-none ds absent.1)

  pub remaining-none :
      (h txid vout : ℕ) (outs : List TxOut) (ds : List Dated)
      → txid ≢ op.txid
      → IsAbsent op.txid ds
      → remaining h txid vout outs ds none ≡ none
  remaining-none h txid vout outs ds other absent =
      rw (outputs_past h txid vout outs none (λ s. absurd (other s))) (ledger-none ds absent)
