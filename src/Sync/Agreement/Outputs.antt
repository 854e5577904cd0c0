-- ===== src/Sync/Agreement/Outputs.antt =====
-- The outputs and the transactions of a block against the ledger.
use mathlib.Core.Option
use emvault_elements.Prelude.{
  ℕ, ◌<◌, ◌^◌, ◌≡◌, refl, subst, ap, ◌∙◌, ◌≢◌, ◌⊎◌, inl, inr, true, false, Option, none, some, [],
  ◌∷◌, ◌++◌, arith, any, if◌then◌else◌, ◌==◌, Option-cases, Bool-cases, get_elem?,
}
use emvault_elements.Prelude.Tests.{bytes_eq, nat_eq}
use emvault_elements.Prelude.Result.{Result, ok, err, panic}
use emvault_elements.Prelude.Map
use emvault_elements.Prelude.Map.{Map}
use emvault_elements.Prelude.Map.Laws.{contains_key-insert}
use emvault_elements.Elements.{OutPoint, outpoint_eq, Script, TxOut, TxOutSecrets}
use emvault_elements.Error.{WolletError, SyncError}
use emvault_elements.Wollet
use emvault_elements.Wollet.{ElementsWollet}
use emvault_elements.Sync.Types.{WalletId, CapturedUtxo}
use emvault_elements.Sync.Scan.{
  Pass, ScriptEntry, BlockScanEngine, captured_pass, captured_utxo, capture, scan_output,
}
use emvault_elements.Sync.Fakes.{Entry, UtxoMap, fresh_entry, spend_entry, upsert_all}
use emvault_elements.Sync.Fakes.Laws.{get-upsert, get-mark_spent, upsert_all-append, upserted}
use emvault_elements.Sync.Ledger.{opened, create_output}
use emvault_elements.Sync.Ledger.Fresh.{IsUncreated}
use emvault_elements.Sync.Agreement.{Agrees, commit}

-- Every index entry names a registered wollet, and unblinding returns (it may fail).
pub record IsWired (engine : BlockScanEngine) : Type 0 where
  pub registered :
      (spk : Script) (entry : ScriptEntry)
      → Map.get spk engine.index ≡ some entry
      → (w : ElementsWollet) × (get_elem? engine.wollets entry.wollet_idx ≡ some w)
  pub returns :
      (i : ℕ) (w : ElementsWollet) (txout : TxOut)
      → get_elem? engine.wollets i ≡ some w
      → Wollet.unblind w txout ≢ panic

Result-cases {ℓ} :
    {E A : Type ℓ} (r : Result E A)
    → ((a : A) × (r ≡ ok a)) ⊎ (((e : E) × (r ≡ err e)) ⊎ (r ≡ panic))
Result-cases (ok a) = inl (a, refl)
Result-cases (err e) = inr (inl (e, refl))
Result-cases panic = inr (inr refl)

-- An output is skipped, or captured at its outpoint.
abbrev pub Outcome : BlockScanEngine → ℕ → ℕ → ℕ → TxOut → Pass → Type 0
Outcome engine h txid vout txout p =
    ((n : ℕ) × (opened engine txout ≡ none)
      × (scan_output engine h txid vout txout p ≡ ok (record p { skipped_unblindable = n })))
    ⊎ ((entry : ScriptEntry) × (secrets : TxOutSecrets) × (opened engine txout
          ≡ some (entry, secrets))
        × (scan_output engine h txid vout txout p
            ≡ ok (captured_pass entry h (record { txid = txid; vout = vout }) txout secrets p)))

module _ (engine : BlockScanEngine) (h txid vout : ℕ) (txout : TxOut) (p : Pass) where
  skip_unwatched :
      Map.get txout.script_pubkey engine.index ≡ none → Outcome engine h txid vout txout p
  unfolding scan_output opened
  skip_unwatched e = inl (p.skipped_unblindable, rw (e, opened), rw (e, scan_output))

  module _ (entry : ScriptEntry) (w : ElementsWollet)
      (e : Map.get txout.script_pubkey engine.index ≡ some entry)
      (g : get_elem? engine.wollets entry.wollet_idx ≡ some w) (small : vout < 2 ^ 32) where
    watched : Result WolletError TxOutSecrets → Result SyncError Pass
    watched r = capture entry h txid vout txout p r

    scan_watched : scan_output engine h txid vout txout p ≡ watched (Wollet.unblind w txout)
    unfolding scan_output watched
    scan_watched = rw (e, scan_output) (rw g)

    opened_watched :
        (r : Result WolletError TxOutSecrets) (secrets : TxOutSecrets)
        → Wollet.unblind w txout ≡ ok secrets
        → opened engine txout ≡ some (entry, secrets)
    unfolding opened
    opened_watched r secrets u = rw (e, opened) (rw g (rw u))

    shut_watched : (f : WolletError) → Wollet.unblind w txout ≡ err f → opened engine txout ≡ none
    unfolding opened
    shut_watched f u = rw (e, opened) (rw g (rw u))

    capture_ok :
        (secrets : TxOutSecrets)
        → watched (ok secrets)
          ≡ ok (captured_pass entry h (record { txid = txid; vout = vout }) txout secrets p)
    unfolding watched capture
    capture_ok secrets = ground arith

    watched-Outcome : (Wollet.unblind w txout ≢ panic) → Outcome engine h txid vout txout p
    unfolding watched capture
    watched-Outcome returns = elim (Result-cases (Wollet.unblind w txout)) [
      | inl (secrets, u) ↦ inr (
        entry,
        secrets,
        opened_watched (ok secrets) secrets u,
        scan_watched ∙ ap watched u ∙ capture_ok secrets,
      )
      | inr (inl (f, u)) ↦ inl (_, shut_watched f u, scan_watched ∙ ap watched u)
      | inr (inr u) ↦ absurd (returns u)
    ]

pub output-Outcome :
    (engine : BlockScanEngine)
    → IsWired engine
    → (h txid vout : ℕ) (txout : TxOut) (p : Pass) → vout < 2 ^ 32
    → Outcome engine h txid vout txout p
output-Outcome engine wired h txid vout txout p small =
    elim (Option-cases (Map.get txout.script_pubkey engine.index)) [
      | inl e ↦ skip_unwatched engine h txid vout txout p e
      | inr (entry, e) ↦
          let (w, g) = wired.registered txout.script_pubkey entry e in
          watched-Outcome engine h txid vout txout p entry w e g small
            (wired.returns entry.wollet_idx w txout g)
    ]

module _ (engine : BlockScanEngine) (m : UtxoMap) (h : ℕ) (op : OutPoint) where
  marked : Pass → Option Entry → Option Entry
  marked p z = if any (λ x. x == op) p.spent then Option.map (spend_entry h) z else z

  commit-marked :
      (p : Pass) → Map.get op (commit m h p) ≡ marked p (Map.get op (upsert_all m p.captured))
  unfolding marked
  commit-marked p = get-mark_spent op (upsert_all m p.captured) p.spent h

  commit-captured :
      (p : Pass) (u : CapturedUtxo) (index : Map OutPoint WalletId)
      → Map.get op (commit m h (record p { captured = p.captured ++ u ∷ []; spend_index = index }))
        ≡ marked p (
            if u.outpoint == op
            then some (upserted (Map.get op (upsert_all m p.captured)) u)
            else Map.get op (upsert_all m p.captured))
  unfolding marked
  commit-captured p u index =
      get-mark_spent op (upsert_all m (p.captured ++ u ∷ [])) p.spent h
      ∙ ap (λ z. marked p z)
          (ap (Map.get op) (upsert_all-append m p.captured u)
            ∙ get-upsert op (upsert_all m p.captured) u)

  -- An output that no spend of the pass names is recaptured on top of what is there.
  pub commit-recaptured :
      (p : Pass) (u : CapturedUtxo) (index : Map OutPoint WalletId)
      → any (λ x. x == op) p.spent ≡ false
      → Map.get op (commit m h (record p { captured = p.captured ++ u ∷ []; spend_index = index }))
        ≡ (if u.outpoint == op
            then some (upserted (Map.get op (commit m h p)) u)
            else Map.get op (commit m h p))
  unfolding marked
  commit-recaptured p u index unmarked = ground (arith, commit-marked p, commit-captured p u index)

  pub commit-other :
      (p : Pass) (u : CapturedUtxo) (index : Map OutPoint WalletId)
      → (u.outpoint == op) ≡ false
      → Map.get op (commit m h (record p { captured = p.captured ++ u ∷ []; spend_index = index }))
        ≡ Map.get op (commit m h p)
  unfolding marked
  commit-other p u index miss = ground (arith, commit-marked p, commit-captured p u index)

  captured-Agrees :
      (p : Pass) (entry : ScriptEntry) (here : OutPoint) (txout : TxOut) (secrets : TxOutSecrets)
      → Agrees m h op p none
      → (here == op) ≡ true
      → Agrees m h op
          (captured_pass entry h here txout secrets p)
          (some (fresh_entry (captured_utxo entry h here txout secrets)))
  unfolding marked
  captured-Agrees p entry here txout secrets a hit = record {
    stored = ground (
      arith,
      commit-marked p,
      commit-captured p (captured_utxo entry h here txout secrets)
          (Map.insert here entry.wallet_id p.spend_index),
    );
    indexed = rw (contains_key-insert here op entry.wallet_id p.spend_index) (rw hit);
    unknown = λ n. cc;
  }

  other-Agrees :
      (p : Pass) (entry : ScriptEntry) (here : OutPoint) (txout : TxOut) (secrets : TxOutSecrets)
      (o : Option Entry)
      → Agrees m h op p o
      → (here == op) ≡ false
      → Agrees m h op (captured_pass entry h here txout secrets p) o
  unfolding marked
  other-Agrees p entry here txout secrets o a miss = record {
    stored = ground (
      arith,
      commit-marked p,
      commit-captured p (captured_utxo entry h here txout secrets)
          (Map.insert here entry.wallet_id p.spend_index),
    );
    indexed = rw (contains_key-insert here op entry.wallet_id p.spend_index) (rw miss a.indexed);
    unknown = a.unknown;
  }

  -- The step for one output: what the engine computes, for every outpoint at once.
  skipped-Agrees :
      (p : Pass) (n : ℕ) (o : Option Entry)
      → Agrees m h op p o
      → Agrees m h op (record p { skipped_unblindable = n }) o
  skipped-Agrees p n o a = record { stored = a.stored; indexed = a.indexed; unknown = a.unknown }

  pub skip-Agrees :
      (txid vout : ℕ) (txout : TxOut) (p : Pass) (n : ℕ) (o : Option Entry)
      → opened engine txout ≡ none
      → Agrees m h op p o
      → Agrees m h op
          (record p { skipped_unblindable = n })
          (create_output engine op h txid vout txout o)
  skip-Agrees txid vout txout p n o shut a =
      unfold create_output in rw (shut, create_output) (skipped-Agrees p n o a)

  pub capture-Agrees :
      (txid vout : ℕ) (txout : TxOut) (p : Pass) (entry : ScriptEntry) (secrets : TxOutSecrets)
      (o : Option Entry)
      → opened engine txout ≡ some (entry, secrets)
      → IsUncreated op txid vout o
      → Agrees m h op p o
      → Agrees m h op
          (captured_pass entry h (record { txid = txid; vout = vout }) txout secrets p)
          (create_output engine op h txid vout txout o)
  unfolding create_output
  capture-Agrees txid vout txout p entry secrets o open_ fresh a =
      rw (open_, create_output)
        (elim (Bool-cases ((record { txid = txid; vout = vout }) == op)) [
          | inl hit ↦ rw hit (
              captured-Agrees p entry _ txout secrets
                (subst (Agrees m h op p) (fresh (ground arith) (ground arith)) a) hit)
          | inr miss ↦ rw miss (other-Agrees p entry _ txout secrets o a miss)
        ])
