-- ===== src/Sync/Ledger/Rollback.antt =====
-- Rolling the store back undoes the blocks above the height.
use mathlib.Core.Option
use emvault_elements.Prelude.{
  ℕ, ◌≤◌, ◌<◌, ◌≡◌, refl, ap, ◌∙◌, ◌⊎◌, inl, inr, Bool, true, false, Option, none, some, arith, leb,
}
use emvault_elements.Prelude.Map.Laws.{keep}
use emvault_elements.Elements.{outpoint_eq}
use emvault_elements.Sync.Fakes.{Entry, unspend, spend_entry}
use emvault_elements.Sync.Ledger.{spend}

-- `rollback_above(k)`, at one outpoint
abbrev pub rollback_at : ℕ → Option Entry → Option Entry
rollback_at k o = Option.map (unspend k) (keep (λ e. leb e.utxo.height k) o)

abbrev pub IsMarked : ℕ → Bool → Option ℕ → Type 0
IsMarked k false none = Unit
IsMarked k false (some _) = ⊥
IsMarked k true none = ⊥
IsMarked k true (some s) = s ≤ k

-- Everything known dates from height `k` at most, and the two marks of a spend agree.
abbrev pub IsSettled : ℕ → Option Entry → Type 0
IsSettled k none = Unit
IsSettled k (some e) = (e.utxo.height ≤ k) × IsMarked k e.utxo.is_spent e.spent_height

-- `b` is `a` after blocks above `k` that do not create the outpoint again.
abbrev pub IsAfter : ℕ → Option Entry → Option Entry → Type 0
IsAfter k none none = Unit
IsAfter k none (some e') = k < e'.utxo.height
IsAfter k (some e) none = ⊥
IsAfter k (some e) (some e') =
    (e' ≡ e) ⊎ ((h : ℕ) × (k < h) × (e.utxo.is_spent ≡ false) × (e' ≡ spend_entry h e))

pub IsAfter-refl : (k : ℕ) (o : Option Entry) → IsAfter k o o
IsAfter-refl k none = tt
IsAfter-refl k (some e) = inl refl

spend-cases :
    (h : ℕ) (e : Entry)
    → ((e.utxo.is_spent ≡ true) × (spend h (some e) ≡ some e))
      ⊎ ((e.utxo.is_spent ≡ false) × (spend h (some e) ≡ some (spend_entry h e)))
unfolding spend
spend-cases h e = ground arith

pub spend-IsAfter : (k h : ℕ) (a b : Option Entry) → k < h → IsAfter k a b → IsAfter k a (spend h b)
spend-IsAfter k h none none lt r = unfold spend in tt
spend-IsAfter k h none (some e') lt r = elim (spend-cases h e') [
  | inl (_, eq) ↦ rw eq r
  | inr (_, eq) ↦ rw eq r
]
spend-IsAfter k h (some e) none lt r = absurd r
spend-IsAfter k h (some e) (some e') lt (inl same) = elim (spend-cases h e') [
  | inl (_, eq) ↦ rw eq (inl same)
  | inr (f, eq) ↦ rw eq (inr (h, lt, ground arith, ap (spend_entry h) same))
]
spend-IsAfter k h (some e) (some e') lt (inr (s, above, f, same)) = elim (spend-cases h e') [
  | inl (_, eq) ↦ rw eq (inr (s, above, f, same))
  | inr (g, eq) ↦ absurd (ground arith)
]

rollback-IsSettled : (k : ℕ) (o : Option Entry) → IsSettled k o → rollback_at k o ≡ o
rollback-IsSettled k none s = refl
rollback-IsSettled k (some e) s = ground arith

rollback_spent :
    (k h : ℕ) (e : Entry)
    → k < h
    → IsSettled k (some e)
    → e.utxo.is_spent ≡ false
    → rollback_at k (some (spend_entry h e)) ≡ some e
rollback_spent k h e above s f = ground arith

pub rollback-IsAfter :
    (k : ℕ) (a b : Option Entry) → IsSettled k a → IsAfter k a b → rollback_at k b ≡ a
rollback-IsAfter k none none s r = refl
rollback-IsAfter k none (some e') s r = ground arith
rollback-IsAfter k (some e) none s r = absurd r
rollback-IsAfter k (some e) (some e') s (inl same) =
    ap (λ d. rollback_at k (some d)) same ∙ rollback-IsSettled k (some e) s
rollback-IsAfter k (some e) (some e') s (inr (h, above, f, same)) =
    ap (λ d. rollback_at k (some d)) same ∙ rollback_spent k h e above s f

pub spend-IsSettled : (k h : ℕ) (o : Option Entry) → h ≤ k → IsSettled k o → IsSettled k (spend h o)
spend-IsSettled k h none le s = unfold spend in tt
spend-IsSettled k h (some e) le s = elim (spend-cases h e) [
  | inl (_, eq) ↦ rw eq s
  | inr (f, eq) ↦ rw eq (s.0, le)
]
