-- ===== src/Prelude/Pairwise.antt =====
-- Two lists of one length, related place by place.
use Prim.Native.Nat.{ℕ, zero, suc}
use mathlib.Core.Path.{◌≡◌, refl, sym, ap, subst}
use mathlib.Core.List.{List, [], ◌∷◌, map}
use mathlib.Core.Option.{some, some-injective}
use emvault_elements.Prelude.Lists.{length, get_elem?, set, All}

pub data Pairwise {A : Type 0} (R : A → A → Type 0) : List A → List A → Type 0 where
  none_left : Pairwise R [] []
  both : (x y : A) (xs ys : List A) → R x y → Pairwise R xs ys → Pairwise R (x ∷ xs) (y ∷ ys)

module _ {A : Type 0} (R : A → A → Type 0) where
  pub Pairwise-refl : ((x : A) → R x x) → (xs : List A) → Pairwise R xs xs
  Pairwise-refl r [] = none_left
  Pairwise-refl r (x ∷ xs) = both x x xs xs (r x) (Pairwise-refl r xs)

  pub Pairwise-trans :
      ((x y z : A) → R x y → R y z → R x z)
      → (xs ys zs : List A) → Pairwise R xs ys
      → Pairwise R ys zs
      → Pairwise R xs zs
  Pairwise-trans t _ _ _ none_left none_left = none_left
  Pairwise-trans t _ _ _ (both x y xs ys p ps) (both _ z _ zs q qs) =
      both x z xs zs (t x y z p q) (Pairwise-trans t xs ys zs ps qs)

  pub set-Pairwise :
      ((x : A) → R x x)
      → (xs : List A) (i : ℕ) (old new : A) → get_elem? xs i ≡ some old
      → R old new
      → Pairwise R xs (set xs i new)
  set-Pairwise r [] i old new e h = none_left
  set-Pairwise r (x ∷ xs) zero old new e h =
      both x new xs xs (subst (λ y. R y new) (sym (some-injective x old e)) h) (Pairwise-refl r xs)
  set-Pairwise r (x ∷ xs) (suc i) old new e h =
      both x x xs _ (r x) (set-Pairwise r xs i old new e h)

  pub length-Pairwise : (xs ys : List A) → Pairwise R xs ys → length ys ≡ length xs
  length-Pairwise _ _ none_left = refl
  length-Pairwise _ _ (both x y xs ys h hs) = ap suc (length-Pairwise xs ys hs)

  -- What holds of the first list, and goes over along the relation, holds of the second.
  pub All-Pairwise :
      (P : A → Type 0)
      → ((x y : A) → R x y → P x → P y)
      → (xs ys : List A) → Pairwise R xs ys
      → All P xs
      → All P ys
  All-Pairwise P over _ _ none_left h = h
  All-Pairwise P over _ _ (both x y xs ys r rs) (h, hs) =
      (over x y r h, All-Pairwise P over xs ys rs hs)

  pub get_elem?-Pairwise :
      (xs ys : List A) (i : ℕ) (x y : A)
      → Pairwise R xs ys
      → get_elem? xs i ≡ some x
      → get_elem? ys i ≡ some y
      → R x y
  get_elem?-Pairwise _ _ i x y none_left e f = cc
  get_elem?-Pairwise _ _ zero x y (both a b xs ys h hs) e f =
      subst (λ c. R c y) (some-injective a x e) (subst (R a) (some-injective b y f) h)
  get_elem?-Pairwise _ _ (suc i) x y (both a b xs ys h hs) e f =
      get_elem?-Pairwise xs ys i x y hs e f

  -- Where the first list has an element, the second has one.
  pub partner-Pairwise :
      (xs ys : List A) (i : ℕ) (x : A)
      → Pairwise R xs ys
      → get_elem? xs i ≡ some x
      → (y : A) × (get_elem? ys i ≡ some y) × R x y
  partner-Pairwise _ _ i x none_left e = cc
  partner-Pairwise _ _ zero x (both a b xs ys h hs) e =
      (b, refl, subst (λ c. R c b) (some-injective a x e) h)
  partner-Pairwise _ _ (suc i) x (both a b xs ys h hs) e = partner-Pairwise xs ys i x hs e

pub get_elem?-map :
    {A B : Type 0} (f : A → B) (xs : List A) (i : ℕ) (x : A)
    → get_elem? xs i ≡ some x
    → get_elem? (map f xs) i ≡ some (f x)
get_elem?-map f [] i x e = cc
get_elem?-map f (y ∷ xs) zero x e = ap (λ z. some (f z)) (some-injective y x e)
get_elem?-map f (y ∷ xs) (suc i) x e = get_elem?-map f xs i x e

pub get_elem?-All :
    {A : Type 0} (P : A → Type 0) (xs : List A) (i : ℕ) (x : A)
    → All P xs
    → get_elem? xs i ≡ some x
    → P x
get_elem?-All P [] i x h e = cc
get_elem?-All P (y ∷ xs) zero x h e = subst P (some-injective y x e) h.0
get_elem?-All P (y ∷ xs) (suc i) x h e = get_elem?-All P xs i x h.1 e
