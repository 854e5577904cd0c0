-- ===== src/Prelude/Members.antt =====
-- The elements of a list.
use mathlib.Core.Path.{◌≡◌, sym}
use mathlib.Core.Logic.{◌⊎◌, ◌↔◌, inl, inr}
use mathlib.Core.Bool.{true}
use mathlib.Core.List.{List, [], ◌∷◌, ◌++◌}
use native.Mathlib.Omega.{arith}
use emvault_elements.Prelude.Tests.{Eq, ◌==◌, Bool-cases}
use emvault_elements.Prelude.Lists.{any}

-- The element stands in the list.
abbrev pub IsMember : {A : Type 0} → A → List A → Type 0
IsMember a [] = ⊥
IsMember a (x ∷ xs) = (a ≡ x) ⊎ IsMember a xs

pub IsMember-append :
    {A : Type 0} (a : A) (xs ys : List A) → IsMember a (xs ++ ys) ↔ (IsMember a xs ⊎ IsMember a ys)
IsMember-append a [] ys =
    (λ m. inr m, λ m. elim m [ inl impossible ↦ elim impossible [ ] | inr later ↦ later ])
IsMember-append a (x ∷ xs) ys =
    let rest = IsMember-append a xs ys in
    (
      λ m. elim m [
        | inl same ↦ inl (inl same)
        | inr later ↦ elim (rest.0 later) [ inl here ↦ inl (inr here) | inr there ↦ inr there ]
      ],
      λ m. elim m [
        | inl first ↦ elim first [ inl same ↦ inl same | inr here ↦ inr (rest.1 (inl here)) ]
        | inr there ↦ inr (rest.1 (inr there))
      ],
    )

-- The search for an equal element finds the members.
pub any_iff :
    {A : Type 0} ⦃e : Eq A⦄ (a : A) (xs : List A) → (any (λ x. x == a) xs ≡ true) ↔ IsMember a xs
any_iff a [] = (λ h. cc, λ m. elim m [ ])
any_iff ⦃e⦄ a (x ∷ xs) = (
  λ h. elim (Bool-cases (x == a)) [
    | inl same ↦ inl (sym ((e.eqb_iff x a).0 same))
    | inr other ↦ inr ((any_iff a xs).0 (ground arith))
  ],
  λ m. elim m [
    | inl same ↦ ground (arith, e.eqb_iff x a)
    | inr later ↦ ground (arith, (any_iff a xs).1 later)
  ],
)
