-- ===== src/Sync/Ledger/Steps.antt =====
-- What one input, output or transaction does to the ledger of an outpoint.
use emvault_elements.Prelude.{
  ℕ, suc, ◌≤◌, ◌<◌, ◌≡◌, refl, ◌≢◌, ◌⊎◌, inl, inr, false, Option, none, some, List, [], ◌∷◌, arith,
  ◌==◌, All, Option-cases, Bool-cases,
}
use emvault_elements.Elements.{OutPoint, outpoint_eq, outpoint_eqb_iff, TxIn, TxOut, Transaction}
use emvault_elements.Sync.Scan.{BlockScanEngine, captured_utxo}
use emvault_elements.Sync.Fakes.{Entry, fresh_entry}
use emvault_elements.Sync.Ledger.{
  Dated, opened, spend, spend_inputs, create_output, create_outputs, ledger_tx, ledger, IsAbsent,
}
use emvault_elements.Sync.Ledger.Rollback.{
  rollback_at, IsSettled, IsAfter, IsAfter-refl, spend-IsAfter, spend-IsSettled, rollback-IsAfter,
}

-- An entry as an output at height `h` makes it.
abbrev pub IsNew : OutPoint → ℕ → Entry → Type 0
IsNew op h e =
    (e.utxo.height ≡ h)
    × (e.utxo.is_spent ≡ false)
    × (e.spent_height ≡ none)
    × (e.utxo.outpoint ≡ op)

-- An entry records its own outpoint.
abbrev pub IsKeyed : OutPoint → Option Entry → Type 0
IsKeyed op none = Unit
IsKeyed op (some e) = e.utxo.outpoint ≡ op

spend-IsKeyed : (op : OutPoint) (h : ℕ) (o : Option Entry) → IsKeyed op o → IsKeyed op (spend h o)
unfolding spend
spend-IsKeyed op h none s = tt
spend-IsKeyed op h (some e) s = ground arith

module _ (engine : BlockScanEngine) (op : OutPoint) where
  -- An output leaves the outpoint alone, or is the outpoint.
  pub create-cases :
      (h txid vout : ℕ) (txout : TxOut) (o : Option Entry)
      → (create_output engine op h txid vout txout o ≡ o)
        ⊎ ((e : Entry) × (txid ≡ op.txid)
            × (vout ≡ op.vout)
            × IsNew op h e
            × (create_output engine op h txid vout txout o ≡ some e))
  unfolding create_output
  create-cases h txid vout txout o = elim (Option-cases (opened engine txout)) [
    | inl closed ↦ inl (rw (closed, create_output))
    | inr (pair, found) ↦ elim (Bool-cases ((record { txid = txid; vout = vout }) == op)) [
      | inl hit ↦ inr (
        fresh_entry (captured_utxo pair.0 h (record { txid = txid; vout = vout }) txout pair.1),
        ground arith,
        ground arith,
        (refl, refl, refl, (outpoint_eqb_iff _ _).0 hit),
        rw (found, create_output) (rw hit),
      )
      | inr miss ↦ inl (rw (found, create_output) (rw miss))
    ]
  ]

  module _ (k h : ℕ) (above : k < h) (a : Option Entry) where
    inputs-IsAfter :
        (ins : List TxIn) (b : Option Entry)
        → IsAfter k a b
        → IsAfter k a (spend_inputs engine op h ins b)
    unfolding spend_inputs
    inputs-IsAfter [] b r = r
    inputs-IsAfter (input ∷ rest) b r = elim (Bool-cases (input.previous_output == op)) [
      | inl hit ↦ rw hit (inputs-IsAfter rest (spend h b) (spend-IsAfter k h a b above r))
      | inr miss ↦ rw miss (inputs-IsAfter rest b r)
    ]

    output-IsAfter :
        (txid vout : ℕ) (txout : TxOut) (b : Option Entry)
        → (a ≡ none) ⊎ (txid ≢ op.txid)
        → IsAfter k a b
        → IsAfter k a (create_output engine op h txid vout txout b)
    output-IsAfter txid vout txout b fresh r = elim (create-cases h txid vout txout b) [
      | inl same ↦ rw same r
      | inr (e, here, _, new, made) ↦ rw made (elim fresh [
        | inl unknown ↦ rw unknown (omega (arith, new.0))
        | inr other ↦ absurd (other here)
      ])
    ]

    outputs-IsAfter :
        (txid vout : ℕ) (outs : List TxOut) (b : Option Entry)
        → (a ≡ none) ⊎ (txid ≢ op.txid)
        → IsAfter k a b
        → IsAfter k a (create_outputs engine op h txid vout outs b)
    unfolding create_outputs
    outputs-IsAfter txid vout [] b fresh r = r
    outputs-IsAfter txid vout (txout ∷ rest) b fresh r =
        outputs-IsAfter txid (suc vout) rest (create_output engine op h txid vout txout b) fresh
          (output-IsAfter txid vout txout b fresh r)

    pub tx-IsAfter :
        (tx : Transaction) (b : Option Entry)
        → (a ≡ none) ⊎ (tx.txid ≢ op.txid)
        → IsAfter k a b
        → IsAfter k a (ledger_tx engine op b (h, tx))
    unfolding ledger_tx
    tx-IsAfter tx b fresh r =
        outputs-IsAfter tx.txid 0 tx.output _ fresh (inputs-IsAfter tx.input b r)

  -- Above `k`, with an outpoint that is new or not created again.
  pub ledger-IsAfter :
      (k : ℕ) (a b : Option Entry) (ds : List Dated)
      → All (λ d. k < d.0) ds
      → (a ≡ none) ⊎ IsAbsent op.txid ds
      → IsAfter k a b
      → IsAfter k a (ledger engine op ds b)
  unfolding ledger
  ledger-IsAfter k a b [] above fresh r = r
  ledger-IsAfter k a b ((h, tx) ∷ ds) above (inl unknown) r =
      ledger-IsAfter k a (ledger_tx engine op b (h, tx)) ds above.1 (inl unknown)
        (tx-IsAfter k h above.0 a tx b (inl unknown) r)
  ledger-IsAfter k a b ((h, tx) ∷ ds) above (inr absent) r =
      ledger-IsAfter k a (ledger_tx engine op b (h, tx)) ds above.1 (inr absent.1)
        (tx-IsAfter k h above.0 a tx b (inr absent.0) r)

  -- Rolling back to `k` undoes every transaction above `k`.
  pub rollback-ledger :
      (k : ℕ) (a : Option Entry) (ds : List Dated)
      → IsSettled k a
      → All (λ d. k < d.0) ds
      → (a ≡ none) ⊎ IsAbsent op.txid ds
      → rollback_at k (ledger engine op ds a) ≡ a
  rollback-ledger k a ds settled above fresh =
      rollback-IsAfter k a _ settled (ledger-IsAfter k a a ds above fresh (IsAfter-refl k a))

  module _ (k h : ℕ) (below : h ≤ k) where
    inputs-IsSettled :
        (ins : List TxIn) (o : Option Entry)
        → IsSettled k o
        → IsSettled k (spend_inputs engine op h ins o)
    unfolding spend_inputs
    inputs-IsSettled [] o s = s
    inputs-IsSettled (input ∷ rest) o s = elim (Bool-cases (input.previous_output == op)) [
      | inl hit ↦ rw hit (inputs-IsSettled rest (spend h o) (spend-IsSettled k h o below s))
      | inr miss ↦ rw miss (inputs-IsSettled rest o s)
    ]

    output-IsSettled :
        (txid vout : ℕ) (txout : TxOut) (o : Option Entry)
        → IsSettled k o
        → IsSettled k (create_output engine op h txid vout txout o)
    output-IsSettled txid vout txout o s = elim (create-cases h txid vout txout o) [
      | inl same ↦ rw same s
      | inr (e, _, _, new, made) ↦ rw made (ground (arith, new.0, new.1, new.2))
    ]

    outputs-IsSettled :
        (txid vout : ℕ) (outs : List TxOut) (o : Option Entry)
        → IsSettled k o
        → IsSettled k (create_outputs engine op h txid vout outs o)
    unfolding create_outputs
    outputs-IsSettled txid vout [] o s = s
    outputs-IsSettled txid vout (txout ∷ rest) o s =
        outputs-IsSettled txid (suc vout) rest _ (output-IsSettled txid vout txout o s)

  -- What is known up to height `k` is settled at `k`.
  pub ledger-IsSettled :
      (k : ℕ) (o : Option Entry) (ds : List Dated)
      → All (λ d. d.0 ≤ k) ds
      → IsSettled k o
      → IsSettled k (ledger engine op ds o)
  unfolding ledger ledger_tx
  ledger-IsSettled k o [] below s = s
  ledger-IsSettled k o ((h, tx) ∷ ds) below s =
      ledger-IsSettled k (ledger_tx engine op o (h, tx)) ds below.1 (
        outputs-IsSettled k h below.0 tx.txid 0 tx.output _
          (inputs-IsSettled k h below.0 tx.input o s))

  inputs-IsKeyed :
      (h : ℕ) (ins : List TxIn) (o : Option Entry)
      → IsKeyed op o
      → IsKeyed op (spend_inputs engine op h ins o)
  unfolding spend_inputs
  inputs-IsKeyed h [] o s = s
  inputs-IsKeyed h (input ∷ rest) o s = elim (Bool-cases (input.previous_output == op)) [
    | inl hit ↦ rw hit (inputs-IsKeyed h rest (spend h o) (spend-IsKeyed op h o s))
    | inr miss ↦ rw miss (inputs-IsKeyed h rest o s)
  ]

  outputs-IsKeyed :
      (h txid vout : ℕ) (outs : List TxOut) (o : Option Entry)
      → IsKeyed op o
      → IsKeyed op (create_outputs engine op h txid vout outs o)
  unfolding create_outputs
  outputs-IsKeyed h txid vout [] o s = s
  outputs-IsKeyed h txid vout (txout ∷ rest) o s =
      outputs-IsKeyed h txid (suc vout) rest _ (elim (create-cases h txid vout txout o) [
        | inl same ↦ rw same s
        | inr (e, _, _, new, made) ↦ rw made new.3
      ])

  pub ledger-IsKeyed :
      (ds : List Dated) (o : Option Entry) → IsKeyed op o → IsKeyed op (ledger engine op ds o)
  unfolding ledger ledger_tx
  ledger-IsKeyed [] o s = s
  ledger-IsKeyed ((h, tx) ∷ ds) o s =
      ledger-IsKeyed ds (ledger_tx engine op o (h, tx))
        (outputs-IsKeyed h tx.txid 0 tx.output _ (inputs-IsKeyed h tx.input o s))
