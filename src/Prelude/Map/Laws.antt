-- ===== src/Prelude/Map/Laws.antt =====
-- What a look-up finds after each operation, and that no operation repeats a key.
use mathlib.Core.Path.{◌≡◌, refl, ◌∙◌}
use mathlib.Core.Bool.{Bool, true, false, ◌||◌}
use mathlib.Core.List.{List, [], ◌∷◌, foldl}
use mathlib.Core.Option
use mathlib.Core.Option.{Option, none, some}
use native.Mathlib.Omega.{arith}
use emvault_elements.Prelude.Tests.{Eq, ◌==◌, if◌then◌else◌}
use emvault_elements.Prelude.Lists.{All}
use emvault_elements.Prelude.Map.{
  Map, get, contains_key, insert, remove, retain, update_values, modify, collect, IsUnique,
}

pub beq_refl {ℓ} : {K : Type ℓ} ⦃e : Eq K⦄ (k : K) → (k == k) ≡ true
beq_refl ⦃e⦄ k = (e.eqb_iff k k).1 refl

-- `filter` on the value found.
abbrev pub keep {ℓ} : {V : Type ℓ} → (V → Bool) → Option V → Option V
keep p none = none
keep p (some v) = if p v then some v else none

module _ {ℓ} {K V : Type ℓ} ⦃e : Eq K⦄ where
  pub get-insert :
      (k j : K) (v : V) (m : Map K V) → get j (insert k v m) ≡ (if k == j then some v else get j m)
  unfolding get insert
  get-insert k j v [] = refl
  get-insert k j v ((i, w) ∷ m) =
      ground (arith, e.eqb_iff k j, e.eqb_iff i k, e.eqb_iff i j, get-insert k j v m)

  pub get-remove : (k j : K) (m : Map K V) → get j (remove k m) ≡ (if k == j then none else get j m)
  unfolding get remove
  get-remove k j [] = ground arith
  get-remove k j ((i, w) ∷ m) =
      ground (arith, e.eqb_iff k j, e.eqb_iff i k, e.eqb_iff i j, get-remove k j m)

  pub get-modify :
      (k j : K) (f : V → V) (m : Map K V)
      → get j (modify k f m) ≡ (if k == j then Option.map f (get j m) else get j m)
  unfolding get modify
  get-modify k j f [] = ground arith
  get-modify k j f ((i, w) ∷ m) =
      ground (arith, e.eqb_iff k j, e.eqb_iff i k, e.eqb_iff i j, get-modify k j f m)

  pub get-update_values :
      (j : K) (f : V → V) (m : Map K V) → get j (update_values f m) ≡ Option.map f (get j m)
  unfolding get update_values
  get-update_values j f [] = refl
  get-update_values j f ((i, w) ∷ m) = ground (arith, get-update_values j f m)

  get-retain-none :
      (j : K) (p : K → V → Bool) (m : Map K V) → get j m ≡ none → get j (retain p m) ≡ none
  unfolding get retain
  get-retain-none j p [] h = refl
  get-retain-none j p ((i, w) ∷ m) h = ground (arith, get-retain-none j p m)

  pub get-retain :
      (j : K) (p : K → V → Bool) (m : Map K V)
      → IsUnique m
      → get j (retain p m) ≡ keep (p j) (get j m)
  unfolding get retain
  get-retain j p [] u = refl
  get-retain j p ((i, w) ∷ m) u =
      ground (arith, e.eqb_iff i j, get-retain-none i p m u.0, get-retain j p m u.1)

  pub insert-IsUnique : (k : K) (v : V) (m : Map K V) → IsUnique m → IsUnique (insert k v m)
  unfolding get insert
  insert-IsUnique k v [] u = (refl, tt)
  insert-IsUnique k v ((i, w) ∷ m) u =
      ground (arith, e.eqb_iff i k, e.eqb_iff k i, get-insert k i v m, insert-IsUnique k v m u.1)

  pub modify-IsUnique : (k : K) (f : V → V) (m : Map K V) → IsUnique m → IsUnique (modify k f m)
  unfolding modify
  modify-IsUnique k f [] u = tt
  modify-IsUnique k f ((i, w) ∷ m) u = ground (arith, get-modify k i f m, modify-IsUnique k f m u.1)

  pub retain-IsUnique : (p : K → V → Bool) (m : Map K V) → IsUnique m → IsUnique (retain p m)
  unfolding retain
  retain-IsUnique p [] u = tt
  retain-IsUnique p ((i, w) ∷ m) u =
      ground (arith, get-retain-none i p m u.0, retain-IsUnique p m u.1)

  pub update_values-IsUnique : (f : V → V) (m : Map K V) → IsUnique m → IsUnique (update_values f m)
  unfolding update_values
  update_values-IsUnique f [] u = tt
  update_values-IsUnique f ((i, w) ∷ m) u =
      (get-update_values i f m ∙ ground arith, update_values-IsUnique f m u.1)

  pub contains_key-insert :
      (k j : K) (v : V) (m : Map K V)
      → contains_key j (insert k v m) ≡ (if k == j then true else contains_key j m)
  unfolding contains_key
  contains_key-insert k j v m = ground (arith, get-insert k j v m)

  pub contains_key-remove :
      (k j : K) (m : Map K V)
      → contains_key j (remove k m) ≡ (if k == j then false else contains_key j m)
  unfolding contains_key
  contains_key-remove k j m = ground (arith, get-remove k j m)

  contains_key-foldl :
      (k : K) (m : Map K V) (l : List (K × V))
      → contains_key k (foldl (λ m' p. insert p.0 p.1 m') m l)
        ≡ (contains_key k l || contains_key k m)
  unfolding contains_key get
  contains_key-foldl k m [] = refl
  contains_key-foldl k m ((j, v) ∷ l) =
      ground (arith, contains_key-foldl k (insert j v m) l, contains_key-insert j k v m)

  pub contains_key-collect :
      (k : K) (l : List (K × V)) → contains_key k (collect l) ≡ contains_key k l
  unfolding collect contains_key get
  contains_key-collect k l = ground (arith, contains_key-foldl k [] l)

  -- The entries of a map without repeated keys satisfy what every look-up satisfies.
  pub All-entries {κ} :
      (P : K → V → Type κ) (m : Map K V)
      → IsUnique m
      → ((k : K) (v : V) → get k m ≡ some v → P k v)
      → All (λ p. P p.0 p.1) m
  unfolding get
  All-entries P [] u h = tt
  All-entries P ((j, v) ∷ m) u h = (
    h j v (rw (beq_refl j)),
    All-entries P m u.1 (λ k w f. h k w (ground (arith, e.eqb_iff j k))),
  )
