-- ===== src/Sync/Resumed/Ahead.antt =====
-- The scan of a block over a store that is ahead of the cursor: passes that failed wrote to it what
-- a later part of the chain gives.
use mathlib.Core.Option
use emvault_elements.Prelude.{
  ℕ, ◌≡◌, refl, sym, ◌∙◌, inl, inr, true, false, Option, none, some, [], ◌∷◌, ◌++◌, arith, any,
  if◌then◌else◌, ◌==◌, Bool-cases,
}
use emvault_elements.Prelude.Map
use emvault_elements.Prelude.Map.Laws.{contains_key-insert, contains_key-remove}
use emvault_elements.Elements.{OutPoint, outpoint_eq, outpoint_eqb_iff, TxIn, TxOut, TxOutSecrets}
use emvault_elements.Sync.Scan.{
  Pass, BlockScanEngine, captured_pass, captured_utxo, ScriptEntry, scan_input,
}
use emvault_elements.Sync.Fakes.{Entry, UtxoMap, fresh_entry, spend_entry}
use emvault_elements.Sync.Fakes.Laws.{upserted}
use emvault_elements.Sync.Types.{CapturedUtxo}
use emvault_elements.Sync.Agreement.Outputs.{commit-recaptured, commit-other}
use emvault_elements.Sync.Ledger.{spend}
use emvault_elements.Sync.Ledger.Later.{Later}
use emvault_elements.Sync.Agreement.{commit-spent, any-append, commit, is_unspent}
use emvault_elements.Sync.Resumed.Within.{
  Within, Reaches, spent-Reaches, marked-Reaches, spend-none, Spendable, unspent-Within,
  unspent-known, marked_spent, fresh-Within, recaptured-Reaches, recaptured_unspent,
}

-- Written to the store `m`, the pass would leave at `op` what is within `whole` and reaches `l`,
-- and the spend index holds `op` exactly when that is unspent.
pub record Ahead (m : UtxoMap) (h : ℕ) (op : OutPoint) (p : Pass) (l whole : Option Entry)
    : Type 0 where
  pub within : Within whole (Map.get op (commit m h p))
  pub reaches : Reaches l (Map.get op (commit m h p))
  pub indexed : Map.contains_key op p.spend_index ≡ is_unspent (Map.get op (commit m h p))
  pub unmarked : l ≡ none → any (λ x. x == op) p.spent ≡ false

module _ (engine : BlockScanEngine) (m : UtxoMap) (h : ℕ) (op : OutPoint) where
  module _ (p : Pass) (l whole : Option Entry) (x : OutPoint) (a : Ahead m h op p l whole) where
    spent_pass : Pass
    spent_pass = record p { spend_index = Map.remove x p.spend_index; spent = p.spent ++ x ∷ [] }

    held_here :
        (x == op) ≡ true
        → Spendable h l whole
        → Map.contains_key x p.spend_index ≡ true
        → Ahead m h op spent_pass (spend h l) whole
    unfolding spent_pass
    held_here hit c held =
        let unspent : is_unspent (Map.get op (commit m h p)) ≡ true =
          ground (arith, a.indexed, outpoint_eqb_iff x op) in
        let stored : Map.get op (commit m h spent_pass)
            ≡ Option.map (spend_entry h) (Map.get op (commit m h p)) =
          commit-spent engine m h op p x (Map.remove x p.spend_index) ∙ rw hit refl in
        record {
          within = rw stored (unspent-Within h l whole _ c a.within a.reaches unspent);
          reaches = rw stored (marked-Reaches h l _ a.reaches);
          indexed =
              contains_key-remove x op p.spend_index ∙ rw (hit, stored) (sym (marked_spent h _));
          unmarked = λ e. absurd (unspent-known h l whole _ c a.within unspent (spend-none h l e));
        }

    held_other : (x == op) ≡ false → Ahead m h op spent_pass l whole
    unfolding spent_pass
    held_other miss =
        let stored : Map.get op (commit m h spent_pass) ≡ Map.get op (commit m h p) =
          commit-spent engine m h op p x (Map.remove x p.spend_index) ∙ rw miss refl in
        record {
          within = rw stored a.within;
          reaches = rw stored a.reaches;
          indexed = contains_key-remove x op p.spend_index ∙ rw (miss, stored) a.indexed;
          unmarked = λ e. any-append (λ y. y == op) p.spent x ∙ rw miss (a.unmarked e);
        }

    free_here :
        (x == op) ≡ true
        → Map.contains_key x p.spend_index ≡ false
        → Ahead m h op p (spend h l) whole
    free_here hit free = record {
      within = a.within;
      reaches = spent-Reaches h l _ a.reaches (ground (arith, a.indexed, outpoint_eqb_iff x op));
      indexed = a.indexed;
      unmarked = λ e. a.unmarked (spend-none h l e);
    }

  -- An input
  pub input-Ahead :
      (p : Pass) (l whole : Option Entry) (input : TxIn)
      → ((input.previous_output == op) ≡ true → Spendable h l whole)
      → Ahead m h op p l whole
      → Ahead m h op
          (scan_input p input)
          (if input.previous_output == op then spend h l else l)
          whole
  unfolding scan_input spent_pass
  input-Ahead p l whole input c a =
      elim (Bool-cases (Map.contains_key input.previous_output p.spend_index)) [
        | inl held ↦
            rw (held, scan_input)
              (elim (Bool-cases (input.previous_output == op)) [
                | inl hit ↦ rw hit (held_here p l whole input.previous_output a hit (c hit) held)
                | inr miss ↦ rw miss (held_other p l whole input.previous_output a miss)
              ])
        | inr free ↦
            rw (free, scan_input)
              (elim (Bool-cases (input.previous_output == op)) [
                | inl hit ↦ rw hit (free_here p l whole input.previous_output a hit free)
                | inr miss ↦ rw miss a
              ])
      ]

  -- An output that is captured: at the outpoint, or elsewhere
  pub captured-Ahead :
      (p : Pass) (whole : Option Entry) (entry : ScriptEntry) (here : OutPoint) (txout : TxOut)
      (secrets : TxOutSecrets)
      → (here == op) ≡ true
      → Later (fresh_entry (captured_utxo entry h here txout secrets)) whole
      → Ahead m h op p none whole
      → Ahead m h op
          (captured_pass entry h here txout secrets p)
          (some (fresh_entry (captured_utxo entry h here txout secrets)))
          whole
  captured-Ahead p whole entry here txout secrets hit later a =
      let u : CapturedUtxo = captured_utxo entry h here txout secrets in
      let stored : Map.get op (commit m h (captured_pass entry h here txout secrets p))
          ≡ some (upserted (Map.get op (commit m h p)) u) =
        commit-recaptured engine m h op p u (Map.insert here entry.wallet_id p.spend_index)
          (a.unmarked refl)
        ∙ rw hit refl in
      record {
        within = rw stored (fresh-Within (fresh_entry u) whole _ refl later a.within);
        reaches = rw stored (recaptured-Reaches (fresh_entry u) _ refl);
        indexed =
            contains_key-insert here op entry.wallet_id p.spend_index
            ∙ rw (hit, stored) (sym (recaptured_unspent (fresh_entry u) _ refl));
        unmarked = λ e. cc;
      }

  pub elsewhere-Ahead :
      (p : Pass) (l whole : Option Entry) (entry : ScriptEntry) (here : OutPoint) (txout : TxOut)
      (secrets : TxOutSecrets)
      → (here == op) ≡ false
      → Ahead m h op p l whole
      → Ahead m h op (captured_pass entry h here txout secrets p) l whole
  elsewhere-Ahead p l whole entry here txout secrets miss a =
      let u : CapturedUtxo = captured_utxo entry h here txout secrets in
      let stored : Map.get op (commit m h (captured_pass entry h here txout secrets p))
          ≡ Map.get op (commit m h p) =
        commit-other engine m h op p u (Map.insert here entry.wallet_id p.spend_index) miss in
      record {
        within = rw stored a.within;
        reaches = rw stored a.reaches;
        indexed =
            contains_key-insert here op entry.wallet_id p.spend_index ∙ rw (miss, stored) a.indexed;
        unmarked = a.unmarked;
      }

  pub skipped-Ahead :
      (p : Pass) (n : ℕ) (l whole : Option Entry)
      → Ahead m h op p l whole
      → Ahead m h op (record p { skipped_unblindable = n }) l whole
  skipped-Ahead p n l whole a = record {
    within = a.within;
    reaches = a.reaches;
    indexed = a.indexed;
    unmarked = a.unmarked;
  }
