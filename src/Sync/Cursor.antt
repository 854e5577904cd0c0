-- ===== src/Sync/Cursor.antt =====
-- The cursor of stores that have been synced with a chain.
use emvault_elements.Prelude.{
  ℕ, ◌≡◌, refl, Option, none, some, List, [], ◌∷◌, arith, length, get_elem?, get_elem?-past, Bytes,
}
use emvault_elements.Prelude.Tests.{nat_eq}
use emvault_elements.Prelude.Map.{Map, IsUnique}
use emvault_elements.Elements.{Block}
use emvault_elements.Sync.Types.{SyncedTip}
use emvault_elements.Sync.Fakes.{max_by_key}
use emvault_elements.Sync.Fakes.Tip.{hash_of, Topmost, max_by_key-Topmost}
use emvault_elements.Sync.Scan.{BlockScanEngine}
use emvault_elements.Sync.Fakes.{World}
use emvault_elements.Sync.Synced.{Holds}
use emvault_elements.Sync.Chain.{hash_at}

abbrev pub last : Block → List Block → Block
last b [] = b
last b (c ∷ bs) = last c bs

-- The cursor of stores that have been synced with the chain.
abbrev pub tip_of : List Block → Option SyncedTip
tip_of [] = none
tip_of (b ∷ bs) = some (record { height = length bs; hash = (last b bs).block_hash })

pub get_elem?-last :
    (b : Block) (bs : List Block) → get_elem? (b ∷ bs) (length bs) ≡ some (last b bs)
get_elem?-last b [] = refl
get_elem?-last b (c ∷ bs) = get_elem?-last c bs

Topmost-tip_of :
    (m : Map ℕ (ℕ × Bytes)) (bs : List Block) (o : Option SyncedTip)
    → ((h : ℕ) → hash_of m h ≡ hash_at bs h)
    → Topmost m o
    → o ≡ tip_of bs
Topmost-tip_of m [] none same top = refl
Topmost-tip_of m [] (some t) same (found, top) = absurd (ground (arith, same t.height))
Topmost-tip_of m (b ∷ bs) none same top = absurd (ground (arith, same 0, top 0))
Topmost-tip_of m (b ∷ bs) (some t) same (found, top) = ground (
  arith,
  same t.height,
  same (length bs),
  top (length bs),
  get_elem?-last b bs,
  get_elem?-past (b ∷ bs) t.height,
)

-- The highest of the blocks that a store holds of a chain is the chain's tip.
pub max_by_key-tip_of :
    (m : Map ℕ (ℕ × Bytes)) (bs : List Block)
    → IsUnique m
    → ((h : ℕ) → hash_of m h ≡ hash_at bs h)
    → max_by_key m ≡ tip_of bs
max_by_key-tip_of m bs u same = Topmost-tip_of m bs (max_by_key m) same (max_by_key-Topmost m u)

-- The stores are synced with the chain: they hold it, and the cursor is at its tip.
pub record Synced (engine : BlockScanEngine) (w : World) (bs : List Block) : Type 0 where
  pub holds : Holds engine w bs
  pub cursor : w.store.tip ≡ tip_of bs
