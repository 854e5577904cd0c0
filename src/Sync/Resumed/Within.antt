-- ===== src/Sync/Resumed/Within.antt =====
-- A store that is ahead of the cursor, one outpoint at a time: what is stored lies between what a
-- part of the chain says and what the whole chain says.
use mathlib.Core.Option
use emvault_elements.Prelude.{
  ℕ, ◌≡◌, refl, subst, ◌≢◌, ◌⊎◌, inl, inr, true, false, Option, none, some, arith, Bool-cases,
}
use emvault_elements.Elements.{outpoint_eq}
use emvault_elements.Sync.Fakes.{Entry, spend_entry}
use emvault_elements.Sync.Fakes.Laws.{upserted}
use emvault_elements.Sync.Ledger.{spend}
use emvault_elements.Sync.Ledger.Later.{Later}
use emvault_elements.Sync.Agreement.{is_unspent}

-- What is stored at an outpoint is a part of what the whole chain says of it, `l`: the same
-- output, and its spend or no spend.
abbrev pub Within : Option Entry → Option Entry → Type 0
Within l none = Unit
Within none (some s) = ⊥
Within (some e) (some s) =
    (s.utxo ≡ record (e.utxo) { is_spent = s.utxo.is_spent })
    × (s.utxo.is_spent ≡ true → (e.utxo.is_spent ≡ true) × (s.spent_height ≡ e.spent_height))
    × ((s.spent_height ≡ none) ⊎ (s.spent_height ≡ e.spent_height))

-- What is stored is at least what a part of the chain says, `l`.
abbrev pub Reaches : Option Entry → Option Entry → Type 0
Reaches none s = Unit
Reaches (some e) none = ⊥
Reaches (some e) (some s) = e.utxo.is_spent ≡ true → s.utxo.is_spent ≡ true

-- Both marks of a spend agree.
abbrev pub IsMarked : Option Entry → Type 0
IsMarked none = Unit
IsMarked (some e) = e.utxo.is_spent ≡ false → e.spent_height ≡ none

-- What is within the chain and reaches all of it is what the chain says.
pub Within-Reaches : (l s : Option Entry) → IsMarked l → Within l s → Reaches l s → s ≡ l
Within-Reaches none none m w r = refl
Within-Reaches none (some s) m w r = absurd w
Within-Reaches (some e) none m w r = absurd r
Within-Reaches (some e) (some s) m w r = elim (Bool-cases e.utxo.is_spent) [
  | inl spent ↦ ground (arith, w.0, w.1 (r spent), r spent)
  | inr unspent ↦ elim (Bool-cases s.utxo.is_spent) [
    | inl wrong ↦ absurd (ground (arith, w.1 wrong))
    | inr right ↦ elim w.2 [
      | inl h ↦ ground (arith, w.0, m unspent)
      | inr h ↦ ground (arith, w.0, m unspent)
    ]
  ]
]

pub Later-Reaches : (e : Entry) (l s : Option Entry) → Later e l → Reaches l s → Reaches (some e) s
Later-Reaches e l s (inl same) r = subst (λ x. Reaches x s) same r
Later-Reaches e l none (inr (h, new, same)) r = subst (λ x. Reaches x none) same r
Later-Reaches e l (some s) (inr (h, new, same)) r = λ old. cc

-- A spend at `h` of what is stored, where the whole chain has the spend.
spent-Within :
    (e : Entry) (h : ℕ) (l s : Option Entry)
    → Later (spend_entry h e) l
    → Within l s
    → Within l (Option.map (spend_entry h) s)
spent-Within e h l none later w = tt
spent-Within e h l (some s) (inr (_, new, _)) w = cc
spent-Within e h l (some s) (inl same) w = rw same (
    let v = subst (λ x. Within x (some s)) same w in
    (ground (arith, v.0), λ _. (refl, refl), inr refl))

fresh_parts :
    (u : Entry) (l : Entry) (s : Option Entry)
    → u.utxo.is_spent ≡ false
    → u.utxo ≡ record (l.utxo) { is_spent = u.utxo.is_spent }
    → Within (some l) s
    → Within (some l) (some (upserted s u.utxo))
fresh_parts u l none new core w = (core, λ spent. cc, inl refl)
fresh_parts u l (some s) new core w = (core, λ spent. cc, w.2)

-- An output that the chain creates here is recaptured.
pub fresh-Within :
    (u : Entry) (l s : Option Entry)
    → u.utxo.is_spent ≡ false
    → Later u l
    → Within l s
    → Within l (some (upserted s u.utxo))
fresh-Within u l s new (inl same) w =
    rw same (fresh_parts u u s new refl (subst (λ x. Within x s) same w))
fresh-Within u l s new (inr (h, _, same)) w =
    rw same (fresh_parts u (spend_entry h u) s new (ground arith) (subst (λ x. Within x s) same w))

pub recaptured-Reaches :
    (u : Entry) (s : Option Entry)
    → u.utxo.is_spent ≡ false
    → Reaches (some u) (some (upserted s u.utxo))
recaptured-Reaches u none new = λ spent. cc
recaptured-Reaches u (some s) new = λ spent. cc

pub recaptured_unspent :
    (u : Entry) (s : Option Entry)
    → u.utxo.is_spent ≡ false
    → is_unspent (some (upserted s u.utxo)) ≡ true
recaptured_unspent u none new = rw new
recaptured_unspent u (some s) new = rw new

pub spent-Reaches :
    (h : ℕ) (l s : Option Entry) → Reaches l s → is_unspent s ≡ false → Reaches (spend h l) s
unfolding spend
spent-Reaches h none s r done = tt
spent-Reaches h (some e) none r done = absurd r
spent-Reaches h (some e) (some s) r done = elim (Bool-cases e.utxo.is_spent) [
  | inl old ↦ rw old (λ _. ground arith)
  | inr new ↦ rw new (λ _. ground arith)
]

pub marked-Reaches :
    (h : ℕ) (l s : Option Entry) → Reaches l s → Reaches (spend h l) (Option.map (spend_entry h) s)
unfolding spend
marked-Reaches h none s r = tt
marked-Reaches h (some e) none r = absurd r
marked-Reaches h (some e) (some s) r = elim (Bool-cases e.utxo.is_spent) [
  | inl old ↦ rw old (λ _. refl)
  | inr new ↦ rw new (λ _. refl)
]

pub spend-none : (h : ℕ) (l : Option Entry) → spend h l ≡ none → l ≡ none
unfolding spend
spend-none h none e = refl
spend-none h (some x) e = absurd (ground arith)

pub marked_spent : (h : ℕ) (s : Option Entry) → is_unspent (Option.map (spend_entry h) s) ≡ false
marked_spent h none = refl
marked_spent h (some s) = refl

-- What the rest of the chain does with a spend of `l` at `h`
pub record Spendable (h : ℕ) (l whole : Option Entry) : Type 0 where
  pub unknown : l ≡ none → whole ≡ none
  pub known : (e : Entry) → l ≡ some e → e.utxo.is_spent ≡ false → Later (spend_entry h e) whole

-- An unspent output that is spent where the chain spends it
pub unspent-Within :
    (h : ℕ) (l whole s : Option Entry)
    → Spendable h l whole
    → Within whole s
    → Reaches l s
    → is_unspent s ≡ true
    → Within whole (Option.map (spend_entry h) s)
unspent-Within h l whole none c w r new = absurd (cc)
unspent-Within h none whole (some s) c w r new =
    absurd (subst (λ x. Within x (some s)) (c.unknown refl) w)
unspent-Within h (some e) whole (some s) c w r new = elim (Bool-cases e.utxo.is_spent) [
  | inl old ↦ absurd (ground (arith, r old))
  | inr unspent ↦ spent-Within e h whole (some s) (c.known e refl unspent) w
]

pub unspent-known :
    (h : ℕ) (l whole s : Option Entry)
    → Spendable h l whole
    → Within whole s
    → is_unspent s ≡ true
    → l ≢ none
unspent-known h l whole none c w new e = cc
unspent-known h l whole (some s) c w new e = subst (λ x. Within x (some s)) (c.unknown e) w

pub Reaches-refl : (l : Option Entry) → Reaches l l
Reaches-refl none = tt
Reaches-refl (some e) = λ spent. spent

pub Later-Within :
    (e : Entry) (l : Option Entry) → IsMarked (some e) → Later e l → Within l (some e)
Later-Within e l m (inl same) = rw same (refl, λ spent. (spent, refl), inr refl)
Later-Within e l m (inr (h, new, same)) = rw same (ground arith, λ spent. cc, inl (m new))
