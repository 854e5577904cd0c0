-- ===== src/Sync/Resumed/Blocks.antt =====
-- The transactions of a block, over a store that is ahead of the cursor.
use emvault_elements.Prelude.{
  ℕ, suc, ◌≤◌, ◌+◌, ◌^◌, ◌≡◌, refl, subst, sym, ap, inl, inr, true, false, Option, none, some, List,
  [], ◌∷◌, ◌++◌, map, arith, length, All, ◌==◌, Bool-cases,
}
use emvault_elements.Prelude.Result.{ok, >>=-eq-ok}
use emvault_elements.Elements.{
  OutPoint, outpoint_eq, outpoint_eqb_iff, TxIn, TxOut, TxOutSecrets, Transaction,
}
use emvault_elements.Sync.Scan.{
  Pass, BlockScanEngine, ScriptEntry, scan_inputs, scan_outputs, scan_txs, captured_pass,
  captured_utxo,
}
use emvault_elements.Sync.Fakes.{Entry, UtxoMap, spend_entry, fresh_entry}
use emvault_elements.Sync.Ledger.{
  Dated, spend, spend_inputs, create_output, create_outputs, ledger_tx, ledger, IsAbsent, opened,
}
use emvault_elements.Sync.Ledger.Fresh.{
  IsFresh, IsUncreated, next-IsUncreated, tx-IsUncreated, tx-IsFresh, spend_inputs-none,
}
use emvault_elements.Sync.Ledger.Later.{
  Later, IsCausal, remaining, remaining-Later, remaining-none, inputs-Later,
}
use emvault_elements.Sync.Agreement.Outputs.{IsWired, output-Outcome}
use emvault_elements.Sync.Agreement.Blocks.{IsSized}
use emvault_elements.Sync.Resumed.Within.{Spendable}
use emvault_elements.Sync.Resumed.Ahead.{
  Ahead, input-Ahead, captured-Ahead, elsewhere-Ahead, skipped-Ahead,
}

spend-nothing : (h : ℕ) → spend h none ≡ none
unfolding spend
spend-nothing h = refl

spend_new :
    (h : ℕ) (e : Entry) → e.utxo.is_spent ≡ false → spend h (some e) ≡ some (spend_entry h e)
unfolding spend
spend_new h e new = rw new refl

module _ (engine : BlockScanEngine) (m : UtxoMap) (h : ℕ) (op : OutPoint) where
  module _ (tx : Transaction) (ds : List Dated) where
    -- What the rest of the chain does, from the inputs on
    rest_of : List TxIn → Option Entry → Option Entry
    rest_of ins l = remaining engine op h tx.txid 0 tx.output ds (spend_inputs engine op h ins l)

    input-Spendable :
        (input : TxIn) (rest : List TxIn) (l : Option Entry)
        → IsAbsent input.previous_output.txid ((h, tx) ∷ ds)
        → (input.previous_output == op) ≡ true
        → Spendable h l (rest_of (input ∷ rest) l)
    unfolding rest_of spend_inputs
    input-Spendable input rest l absent hit =
        let gone : IsAbsent op.txid ((h, tx) ∷ ds) =
          subst (λ (o : OutPoint). IsAbsent o.txid ((h, tx) ∷ ds)) ((outpoint_eqb_iff _ _).0 hit)
            absent in
        record {
          unknown = λ e.
              rw (hit, e, spend-nothing h, spend_inputs-none engine op h rest)
                (remaining-none engine op h tx.txid 0 tx.output ds gone.0 gone.1);
          known = λ x e new.
              rw (hit, e, spend_new h x new)
                (remaining-Later engine op (spend_entry h x) h tx.txid 0 tx.output ds _
                  (λ s. absurd (gone.0 s)) gone.1
                  (inputs-Later engine op (spend_entry h x) h rest _ (inl refl)));
        }

    inputs-Ahead :
        (ins : List TxIn) (p : Pass) (l : Option Entry)
        → All (λ (input : TxIn). IsAbsent input.previous_output.txid ((h, tx) ∷ ds)) ins
        → Ahead m h op p l (rest_of ins l)
        → Ahead m h op
            (scan_inputs p ins)
            (spend_inputs engine op h ins l)
            (rest_of [] (spend_inputs engine op h ins l))
    unfolding scan_inputs spend_inputs rest_of
    inputs-Ahead [] p l causal a = a
    inputs-Ahead (input ∷ rest) p l causal a =
        inputs-Ahead rest _ _ causal.1
          (input-Ahead engine m h op p l _ input (input-Spendable input rest l causal.0) a)

  module _ (txid vout : ℕ) (txout : TxOut) (rest : List TxOut) (ds : List Dated) (p : Pass)
      (l whole : Option Entry) (a : Ahead m h op p l whole) where
    -- What is known of the outpoint after the output
    now : Option Entry
    now = create_output engine op h txid vout txout l

    skipped :
        (n : ℕ)
        → opened engine txout ≡ none
        → Ahead m h op (record p { skipped_unblindable = n }) now whole
    unfolding now
    skipped n shut =
        unfold create_output in rw (shut, create_output) (skipped-Ahead engine m h op p n l whole a)

    module _ (entry : ScriptEntry) (secrets : TxOutSecrets)
        (open_ : opened engine txout ≡ some (entry, secrets)) where
      here : OutPoint
      here = record { txid = txid; vout = vout }

      created :
          (here == op) ≡ true → now ≡ some (fresh_entry (captured_utxo entry h here txout secrets))
      unfolding now create_output here
      created hit = rw (open_, create_output) (rw hit refl)

      untouched : (here == op) ≡ false → now ≡ l
      unfolding now create_output here
      untouched miss = rw (open_, create_output) (rw miss refl)

      captured :
          whole ≡ remaining engine op h txid (suc vout) rest ds now
          → (txid ≡ op.txid → IsAbsent op.txid ds)
          → IsUncreated op txid vout l
          → Ahead m h op (captured_pass entry h here txout secrets p) now whole
      captured eq gone fresh = elim (Bool-cases (here == op)) [
        | inl hit ↦
            let at : here ≡ op = (outpoint_eqb_iff here op).0 hit in
            let same : txid ≡ op.txid = unfold here in ap (λ (o : OutPoint). o.txid) at in
            let place : vout ≡ op.vout = unfold here in ap (λ (o : OutPoint). o.vout) at in
            rw (created hit) (
              captured-Ahead engine m h op p whole entry here txout secrets hit
                (subst (Later _) (sym eq) (
                  remaining-Later engine op _ h txid (suc vout) rest ds now
                    (λ _. omega (arith, place)) (gone same) (inl (created hit))))
                (subst (λ o. Ahead m h op p o whole) (fresh same (omega (arith, place))) a))
        | inr miss ↦
            rw (untouched miss)
              (elsewhere-Ahead engine m h op p l whole entry here txout secrets miss a)
      ]

  outputs-Ahead :
      (txid vout : ℕ) (outs : List TxOut) (ds : List Dated) (p q : Pass) (l : Option Entry)
      → IsWired engine
      → vout + length outs ≤ 2 ^ 32
      → (txid ≡ op.txid → IsAbsent op.txid ds)
      → IsUncreated op txid vout l
      → scan_outputs engine h txid vout outs p ≡ ok q
      → (whole : Option Entry) → whole ≡ remaining engine op h txid vout outs ds l
      → Ahead m h op p l whole
      → Ahead m h op q (create_outputs engine op h txid vout outs l) whole
  unfolding scan_outputs create_outputs
  outputs-Ahead txid vout [] ds p q l wired small gone fresh scanned whole eq a =
      subst (λ x. Ahead m h op x l whole) (ground (arith)) a
  outputs-Ahead txid vout (txout ∷ rest) ds p q l wired small gone fresh scanned whole eq a =
      elim (output-Outcome engine wired h txid vout txout p (omega arith)) [
        | inl (n, shut, done) ↦
            outputs-Ahead txid (suc vout) rest ds _ q _ wired (omega arith) gone
              (next-IsUncreated engine op h txid vout txout l fresh) (rw done at scanned) whole eq
              (unfold now in skipped txid vout txout rest ds p l whole a n shut)
        | inr (entry, secrets, open_, done) ↦
            outputs-Ahead txid (suc vout) rest ds _ q _ wired (omega arith) gone
              (next-IsUncreated engine op h txid vout txout l fresh) (rw done at scanned) whole eq
              (unfold now here in
                captured txid vout txout rest ds p l whole a entry secrets open_ eq gone fresh)
      ]

  -- The transactions of a block, with the chain's later transactions `ds` still to come
  pub txs-Ahead :
      (txs : List Transaction) (ds : List Dated) (p q : Pass) (l : Option Entry)
      → IsWired engine
      → All IsSized txs
      → IsFresh op (map (λ tx. (h, tx)) txs ++ ds) l
      → IsCausal (map (λ tx. (h, tx)) txs ++ ds)
      → scan_txs engine h txs p ≡ ok q
      → (whole : Option Entry) → whole ≡ ledger engine op (map (λ tx. (h, tx)) txs ++ ds) l
      → Ahead m h op p l whole
      → Ahead m h op q (ledger engine op (map (λ tx. (h, tx)) txs) l) whole
  unfolding scan_txs ledger
  txs-Ahead [] ds p q l wired sized fresh causal scanned whole eq a =
      subst (λ x. Ahead m h op x l whole) (ground arith) a
  txs-Ahead (tx ∷ rest) ds p q l wired sized fresh causal scanned whole eq a =
      let later : List Dated = map (λ tx. (h, tx)) rest ++ ds in
      let (p', done, scanned_rest) =
        >>=-eq-ok (scan_outputs engine h tx.txid 0 tx.output (scan_inputs p tx.input))
          (scan_txs engine h rest) scanned in
      let eq' : whole ≡ rest_of tx later tx.input l = unfold rest_of ledger_tx in eq in
      let spent = inputs-Ahead tx later tx.input p l causal.0 (subst (Ahead m h op p l) eq' a) in
      txs-Ahead rest ds p' q (ledger_tx engine op l (h, tx)) wired sized.1
        (tx-IsFresh engine op h tx later l fresh) causal.1 scanned_rest whole eq
        (unfold ledger_tx in
          outputs-Ahead tx.txid 0 tx.output later (scan_inputs p tx.input) p'
            (spend_inputs engine op h tx.input l) wired (omega arith) fresh.1.0
            (tx-IsUncreated engine op h tx later l fresh) done whole (unfold rest_of in eq')
            (subst (Ahead m h op (scan_inputs p tx.input) _) (sym eq') (unfold rest_of in spent)))
