-- ===== src/Sync/Fakes/Tip.antt =====
-- The cursor that a rollback of `MemBlockStore` leaves: the highest block that is left.
use mathlib.Core.Option
use emvault_elements.Prelude.{
  ℕ, ◌<◌, ◌≡◌, refl, inl, inr, Option, none, some, [], ◌∷◌, arith, ltb, if◌then◌else◌, Bool-cases,
  Bytes,
}
use emvault_elements.Prelude.Tests.{nat_eq}
use emvault_elements.Prelude.Map
use emvault_elements.Prelude.Map.{Map, IsUnique}
use emvault_elements.Sync.Types.{SyncedTip}
use emvault_elements.Sync.Fakes.{max_by_key}

abbrev pub hash_of : Map ℕ (ℕ × Bytes) → ℕ → Option ℕ
hash_of m h = Option.map (λ p. p.0) (Map.get h m)

-- The entry is in the map, and no entry is above it.
abbrev pub Topmost : Map ℕ (ℕ × Bytes) → Option SyncedTip → Type 0
Topmost m none = (h : ℕ) → hash_of m h ≡ none
Topmost m (some t) =
    (hash_of m t.height ≡ some t.hash) × ((h : ℕ) → t.height < h → hash_of m h ≡ none)

module _ (h hash : ℕ) (raw : Bytes) (rest : Map ℕ (ℕ × Bytes)) where
  abbrev here : SyncedTip
  here = record { height = h; hash = hash }

  pick :
      (o : Option SyncedTip)
      → Map.get h rest ≡ none
      → Topmost rest o
      → Topmost
          ((h, (hash, raw)) ∷ rest)
          (elim o [ none ↦ some here | some t ↦ if ltb t.height h then some here else some t ])
  unfolding Map.get
  pick none new t = (ground arith, λ i lt. ground (arith, t i))
  pick (some t) new (found, top) = elim (Bool-cases (ltb t.height h)) [
    | inl above ↦ rw above (ground arith, λ i lt. ground (arith, top i))
    | inr below ↦ rw below (ground arith, λ i lt. ground (arith, top i))
  ]

pub max_by_key-Topmost : (m : Map ℕ (ℕ × Bytes)) → IsUnique m → Topmost m (max_by_key m)
unfolding max_by_key Map.get
max_by_key-Topmost [] u = λ h. refl
max_by_key-Topmost ((h, (hash, raw)) ∷ rest) u =
    pick h hash raw rest (max_by_key rest) u.0 (max_by_key-Topmost rest u.1)
