-- ===== src/Descriptor/Order/Ascending.antt =====
-- The entries of a descriptor builder, in ascending order of their ids.
use mathlib.Core.Option.{some-injective, none-ne-some}
use emvault_elements.Prelude.{
  ℕ, ◌<◌, ◌≤◌, ◌≡◌, refl, subst, sym, ltb, ap, ◌∙◌, inl, inr, Bool, true, false, Option, none, some,
  [], ◌∷◌, arith, if◌then◌else◌, ◌==◌, Bool-cases, nat_eqb_iff,
}
use emvault_elements.Prelude.Tests.{nat_eq}
use emvault_elements.Prelude.Map
use emvault_elements.Prelude.Map.{Map}
use emvault_elements.Descriptor.{KeyEntry, btree_insert}

abbrev pub is_there : Option KeyEntry → Bool
is_there none = false
is_there (some e) = true

-- Every key of the map is above `k`.
unfoldable pub IsAbove : ℕ → Map ℕ KeyEntry → Type 0
IsAbove k [] = Unit
IsAbove k (e ∷ m) = (k < e.0) × IsAbove k m

-- The keys ascend, so no key stands twice.
unfoldable pub IsAscending : Map ℕ KeyEntry → Type 0
IsAscending [] = Unit
IsAscending (e ∷ m) = IsAbove e.0 m × IsAscending m

get-IsAbove : (k i : ℕ) (m : Map ℕ KeyEntry) → IsAbove k m → i ≤ k → Map.get i m ≡ none
unfolding IsAbove Map.get
get-IsAbove k i [] above le = refl
get-IsAbove k i ((j, w) ∷ m) (lt, above) le =
    ground (arith, nat_eqb_iff j i, get-IsAbove k i m above le)

pub get-btree_insert :
    (k i : ℕ) (v : KeyEntry) (m : Map ℕ KeyEntry)
    → Map.get i (btree_insert k v m).0 ≡ (if k == i then some v else Map.get i m)
unfolding btree_insert Map.get
get-btree_insert k i v [] = refl
get-btree_insert k i v ((j, w) ∷ m) =
    ground (arith, nat_eqb_iff k i, nat_eqb_iff j i, get-btree_insert k i v m)

btree_insert-IsAbove :
    (j k : ℕ) (v : KeyEntry) (m : Map ℕ KeyEntry)
    → IsAbove j m
    → j < k
    → IsAbove j (btree_insert k v m).0
unfolding btree_insert IsAbove
btree_insert-IsAbove j k v [] above lt = (lt, tt)
btree_insert-IsAbove j k v ((i, w) ∷ m) (here, above) lt =
    ground (arith, btree_insert-IsAbove j k v m)

weaker-IsAbove : (k j : ℕ) (m : Map ℕ KeyEntry) → k < j → IsAbove j m → IsAbove k m
unfolding IsAbove
weaker-IsAbove k j [] lt above = tt
weaker-IsAbove k j (e ∷ m) lt (here, above) = (omega (arith, here), weaker-IsAbove k j m lt above)

pub btree_insert-IsAscending :
    (k : ℕ) (v : KeyEntry) (m : Map ℕ KeyEntry) → IsAscending m → IsAscending (btree_insert k v m).0
unfolding btree_insert IsAscending IsAbove
btree_insert-IsAscending k v [] asc = (tt, tt)
btree_insert-IsAscending k v ((j, w) ∷ m) (above, asc) =
    ground
      (arith, btree_insert-IsAscending k v m, btree_insert-IsAbove j k v m, weaker-IsAbove k j m)

pub found-btree_insert :
    (k : ℕ) (v : KeyEntry) (m : Map ℕ KeyEntry)
    → IsAscending m
    → (btree_insert k v m).1 ≡ is_there (Map.get k m)
unfolding btree_insert Map.get IsAscending
found-btree_insert k v [] asc = refl
found-btree_insert k v ((j, w) ∷ m) (above, asc) =
    ground (arith, nat_eqb_iff j k, found-btree_insert k v m, get-IsAbove j k m)

tails :
    (j : ℕ) (v w : KeyEntry) (m n : Map ℕ KeyEntry) (i : ℕ)
    → IsAbove j m
    → IsAbove j n
    → Map.get i ((j, v) ∷ m) ≡ Map.get i ((j, w) ∷ n)
    → Map.get i m ≡ Map.get i n
unfolding Map.get
tails j v w m n i above above' e = elim (Bool-cases (j == i)) [
  | inl here ↦
      let same = (nat_eqb_iff j i).0 here in
      get-IsAbove j i m above (omega (arith, same))
      ∙ sym (get-IsAbove j i n above' (omega (arith, same)))
  | inr other ↦ ground (arith, other, e)
]

-- The least key of a map is found, and is not below that of a map in which it is found.
least :
    (j k : ℕ) (v w : KeyEntry) (m n : Map ℕ KeyEntry)
    → IsAbove k n
    → Map.get j ((j, v) ∷ m) ≡ Map.get j ((k, w) ∷ n)
    → k ≤ j
unfolding Map.get
least j k v w m n above e = elim (Bool-cases (ltb j k)) [
  | inr above_it ↦ ground (arith, above_it)
  | inl below ↦
      let lt : j < k = ground (arith, below) in
      let missing = get-IsAbove k j n above (omega (arith, lt)) in
      absurd (none-ne-some v (ground (arith, e, missing, nat_eqb_iff j j, nat_eqb_iff k j)))
]

same_head :
    (j k : ℕ) (v w : KeyEntry) (m n : Map ℕ KeyEntry)
    → j ≡ k
    → Map.get j ((j, v) ∷ m) ≡ Map.get j ((k, w) ∷ n)
    → v ≡ w
unfolding Map.get
same_head j k v w m n same e =
    some-injective v w (ground (arith, e, same, nat_eqb_iff j j, nat_eqb_iff k j))

-- Ascending maps in which every look-up finds the same are the same.
pub ascending-eq :
    (m n : Map ℕ KeyEntry)
    → IsAscending m
    → IsAscending n
    → ((i : ℕ) → Map.get i m ≡ Map.get i n)
    → m ≡ n
unfolding IsAscending Map.get
ascending-eq [] [] a b h = refl
ascending-eq [] ((j, w) ∷ n) a b h = absurd (none-ne-some w (ground (arith, h j, nat_eqb_iff j j)))
ascending-eq ((j, v) ∷ m) [] a b h = absurd (none-ne-some v (ground (arith, h j, nat_eqb_iff j j)))
ascending-eq ((j, v) ∷ m) ((k, w) ∷ n) (above, a) (above', b) h =
    let same : j ≡ k =
      omega (arith, least j k v w m n above' (h j), least k j w v n m above (sym (h k))) in
    let value = same_head j k v w m n same (h j) in
    let shifted : IsAbove j n = subst (λ x. IsAbove x n) (sym same) above' in
    let rest =
      ascending-eq m n a b
        λ i. tails j v w m n i above shifted (h i ∙ ap (λ x. Map.get i ((x, w) ∷ n)) (sym same)) in
    ap (λ x. (j, x) ∷ m) value ∙ ap (λ x. (x, w) ∷ m) same ∙ ap (λ l. (k, w) ∷ l) rest
