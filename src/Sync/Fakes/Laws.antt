-- ===== src/Sync/Fakes/Laws.antt =====
-- What a look-up finds after each operation of `MemUtxoStore`.
use mathlib.Core.Option
use emvault_elements.Prelude.{
  ℕ, ◌≡◌, refl, ap, ◌∙◌, inl, inr, Option, none, some, List, [], ◌∷◌, ◌++◌, arith, any, leb,
  if◌then◌else◌, ◌==◌, Option-cases,
}
use emvault_elements.Prelude.Map
use emvault_elements.Prelude.Map.{IsUnique}
use emvault_elements.Prelude.Map.Laws.{
  get-insert, get-modify, get-update_values, get-retain, keep, insert-IsUnique, modify-IsUnique,
  retain-IsUnique, update_values-IsUnique,
}
use emvault_elements.Elements.{OutPoint, outpoint_eq, outpoint_eqb_iff}
use emvault_elements.Sync.Types.{CapturedUtxo}
use emvault_elements.Sync.Fakes.{
  Entry, UtxoMap, fresh_entry, spend_entry, unspend, upsert, upsert_all, mark_spent, rollback_utxos,
}

-- Recaptured, an entry takes the new record and keeps its spend height.
abbrev pub upserted : Option Entry → CapturedUtxo → Entry
upserted none u = fresh_entry u
upserted (some e) u = record e { utxo = u }

pub get-upsert :
    (op : OutPoint) (m : UtxoMap) (u : CapturedUtxo)
    → Map.get op (upsert m u)
      ≡ (if u.outpoint == op then some (upserted (Map.get op m) u) else Map.get op m)
unfolding upsert
get-upsert op m u = elim (Option-cases (Map.get u.outpoint m)) [
  | inl e ↦
      rw (e, upsert)
        (ground (arith, get-insert u.outpoint op (fresh_entry u) m, outpoint_eqb_iff u.outpoint op))
  | inr (w, e) ↦
      rw (e, upsert)
        (ground (
          arith,
          get-insert u.outpoint op (record w { utxo = u }) m,
          outpoint_eqb_iff u.outpoint op,
        ))
]

pub get-mark_spent :
    (op : OutPoint) (m : UtxoMap) (ops : List OutPoint) (h : ℕ)
    → Map.get op (mark_spent m ops h)
      ≡ (if any (λ x. x == op) ops then Option.map (spend_entry h) (Map.get op m) else Map.get op m)
unfolding mark_spent
get-mark_spent op m [] h = refl
get-mark_spent op m (x ∷ ops) h = ground (
  arith,
  get-mark_spent op (Map.modify x (spend_entry h) m) ops h,
  get-modify x op (spend_entry h) m,
)

pub upsert_all-append :
    (m : UtxoMap) (us : List CapturedUtxo) (u : CapturedUtxo)
    → upsert_all m (us ++ u ∷ []) ≡ upsert (upsert_all m us) u
unfolding upsert_all
upsert_all-append m [] u = refl
upsert_all-append m (v ∷ us) u = upsert_all-append (upsert m v) us u

pub mark_spent-append :
    (m : UtxoMap) (ops : List OutPoint) (op : OutPoint) (h : ℕ)
    → mark_spent m (ops ++ op ∷ []) h ≡ Map.modify op (spend_entry h) (mark_spent m ops h)
unfolding mark_spent
mark_spent-append m [] op h = refl
mark_spent-append m (x ∷ ops) op h = mark_spent-append (Map.modify x (spend_entry h) m) ops op h

pub upsert-IsUnique : (m : UtxoMap) (u : CapturedUtxo) → IsUnique m → IsUnique (upsert m u)
unfolding upsert
upsert-IsUnique m u w = elim (Option-cases (Map.get u.outpoint m)) [
  | inl e ↦ rw (e, upsert) (insert-IsUnique u.outpoint (fresh_entry u) m w)
  | inr (d, e) ↦ rw (e, upsert) (insert-IsUnique u.outpoint (record d { utxo = u }) m w)
]

pub upsert_all-IsUnique :
    (m : UtxoMap) (us : List CapturedUtxo) → IsUnique m → IsUnique (upsert_all m us)
unfolding upsert_all
upsert_all-IsUnique m [] w = w
upsert_all-IsUnique m (u ∷ us) w = upsert_all-IsUnique (upsert m u) us (upsert-IsUnique m u w)

pub mark_spent-IsUnique :
    (m : UtxoMap) (ops : List OutPoint) (h : ℕ) → IsUnique m → IsUnique (mark_spent m ops h)
unfolding mark_spent
mark_spent-IsUnique m [] h w = w
mark_spent-IsUnique m (x ∷ ops) h w =
    mark_spent-IsUnique (Map.modify x (spend_entry h) m) ops h (modify-IsUnique x _ m w)

pub rollback_utxos-IsUnique : (m : UtxoMap) (k : ℕ) → IsUnique m → IsUnique (rollback_utxos m k)
unfolding rollback_utxos
rollback_utxos-IsUnique m k w = update_values-IsUnique (unspend k) _ (retain-IsUnique _ m w)

-- `rollback_above(k)`: entries captured above `k` go, spends above `k` are undone.
pub get-rollback_utxos :
    (op : OutPoint) (m : UtxoMap) (k : ℕ)
    → IsUnique m
    → Map.get op (rollback_utxos m k)
      ≡ Option.map (unspend k) (keep (λ e. leb e.utxo.height k) (Map.get op m))
unfolding rollback_utxos
get-rollback_utxos op m k w =
    get-update_values op (unspend k) _
    ∙ ap (Option.map (unspend k)) (get-retain op (λ _ e. leb e.utxo.height k) m w)
