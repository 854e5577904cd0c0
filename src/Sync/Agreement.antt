-- ===== src/Sync/Agreement.antt =====
-- The scan of a block against the ledger: how a pass stands to what is known of one outpoint.
pub mod Outputs
pub mod Blocks
use mathlib.Core.Option
use emvault_elements.Prelude.{
  ℕ, suc, ◌≤◌, ◌<◌, ◌+◌, ◌^◌, ◌≡◌, refl, subst, sym, ap, ◌∙◌, ◌≢◌, ◌⊎◌, inl, inr, Bool, true, false,
  not, ◌||◌, Option, none, some, List, [], ◌∷◌, ◌++◌, arith, any, leb, if◌then◌else◌, ◌==◌,
  Option-cases, Bool-cases, length,
}
use emvault_elements.Prelude.Map
use emvault_elements.Prelude.Map.{Map}
use emvault_elements.Prelude.Map.Laws.{
  get-modify, contains_key-insert, contains_key-remove, beq_refl,
}
use emvault_elements.Elements.{OutPoint, outpoint_eq, outpoint_eqb_iff, TxIn, TxOut, TxOutSecrets}
use emvault_elements.Sync.Types.{WalletId, CapturedUtxo}
use emvault_elements.Sync.Scan.{
  Pass, ScriptEntry, captured_pass, captured_utxo, scan_input, scan_inputs,
}
use emvault_elements.Sync.Fakes.{
  Entry, UtxoMap, fresh_entry, spend_entry, upsert, upsert_all, mark_spent,
}
use emvault_elements.Sync.Fakes.Laws.{
  get-upsert, get-mark_spent, upsert_all-append, mark_spent-append,
}
use emvault_elements.Sync.Scan.{BlockScanEngine}
use emvault_elements.Sync.Ledger.{spend, spend_inputs}

-- The store after the two writes of a pass.
abbrev pub commit : UtxoMap → ℕ → Pass → UtxoMap
commit m h p = mark_spent (upsert_all m p.captured) p.spent h

abbrev pub is_unspent : Option Entry → Bool
is_unspent none = false
is_unspent (some e) = not e.utxo.is_spent

-- Written to the store `m`, the pass would leave `o` at `op`; the spend index holds `op` exactly
-- when `o` is unspent.
pub record Agrees (m : UtxoMap) (h : ℕ) (op : OutPoint) (p : Pass) (o : Option Entry) : Type 0 where
  pub stored : Map.get op (commit m h p) ≡ o
  pub indexed : Map.contains_key op p.spend_index ≡ is_unspent o
  pub unknown : o ≡ none → any (λ x. x == op) p.spent ≡ false

pub any-append {ℓ} :
    {A : Type ℓ} (q : A → Bool) (xs : List A) (x : A) → any q (xs ++ x ∷ []) ≡ (q x || any q xs)
any-append q [] x = refl
any-append q (y ∷ xs) x = ground (arith, any-append q xs x)

module _ (engine : BlockScanEngine) (m : UtxoMap) (h : ℕ) (op : OutPoint) where
  pub commit-spent :
      (p : Pass) (x : OutPoint) (idx : Map OutPoint WalletId)
      → Map.get op (commit m h (record p { spend_index = idx; spent = p.spent ++ x ∷ [] })) ≡ (
          if x == op
          then Option.map (spend_entry h) (Map.get op (commit m h p))
          else Map.get op (commit m h p))
  commit-spent p x idx =
      ap (Map.get op) (mark_spent-append (upsert_all m p.captured) p.spent x h)
      ∙ get-modify x op (spend_entry h) (commit m h p)

  module _ (p : Pass) (o : Option Entry) (x : OutPoint) (a : Agrees m h op p o) where
    spent_pass : Pass
    spent_pass = record p { spend_index = Map.remove x p.spend_index; spent = p.spent ++ x ∷ [] }

    held-Agrees :
        Map.contains_key x p.spend_index ≡ true
        → Agrees m h op spent_pass (if x == op then spend h o else o)
    unfolding spent_pass spend
    held-Agrees held = record {
      stored = ground (
        arith,
        commit-spent p x (Map.remove x p.spend_index),
        a.stored,
        a.indexed,
        outpoint_eqb_iff x op,
      );
      indexed =
          ground (arith, contains_key-remove x op p.spend_index, a.indexed, outpoint_eqb_iff x op);
      unknown = λ n.
          ground (
            arith,
            any-append (λ y. y == op) p.spent x,
            a.unknown,
            a.indexed,
            outpoint_eqb_iff x op,
          );
    }

    free-spend : Map.contains_key x p.spend_index ≡ false → (if x == op then spend h o else o) ≡ o
    unfolding spend
    free-spend free = ground (arith, a.indexed, outpoint_eqb_iff x op)

  -- An input: the engine marks a spend exactly where the ledger has one.
  input-Agrees :
      (p : Pass) (o : Option Entry) (input : TxIn)
      → Agrees m h op p o
      → Agrees m h op (scan_input p input) (if input.previous_output == op then spend h o else o)
  unfolding scan_input spent_pass
  input-Agrees p o input a =
      elim (Bool-cases (Map.contains_key input.previous_output p.spend_index)) [
        | inl held ↦ rw (held, scan_input) (held-Agrees p o input.previous_output a held)
        | inr free ↦
            rw (free, scan_input)
              (subst (Agrees m h op p) (sym (free-spend p o input.previous_output a free)) a)
      ]

  pub inputs-Agrees :
      (p : Pass) (o : Option Entry) (ins : List TxIn)
      → Agrees m h op p o
      → Agrees m h op (scan_inputs p ins) (spend_inputs engine op h ins o)
  unfolding scan_inputs spend_inputs
  inputs-Agrees p o [] a = a
  inputs-Agrees p o (input ∷ rest) a =
      inputs-Agrees (scan_input p input) _ rest (input-Agrees p o input a)
