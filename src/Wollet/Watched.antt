-- ===== src/Wollet/Watched.antt =====
-- The scripts that a wollet watches.
use emvault_elements.Prelude.{
  ℕ, zero, suc, ◌+◌, ◌<◌, ◌≡◌, refl, subst, sym, ap, ◌∙◌, List, [], ◌∷◌, ◌++◌, arith,
}
use emvault_elements.Prelude.Result.{ok}
use emvault_elements.Elements.{Script, Chain, external, internal, Address}
use emvault_elements.Wollet.{ElementsWollet, address, watched_from, watched_scripts}

-- The list has, for each of `n` indices from `i` on, the script of the external address and then
-- that of the internal one.
pub data Watches (w : ElementsWollet) : ℕ → ℕ → List (Script × Chain × ℕ) → Type 0 where
  nothing : (i : ℕ) → Watches w i 0 []
  pair :
      (i n : ℕ) (a b : Address) (l : List (Script × Chain × ℕ))
      → address w external i ≡ ok a
      → address w internal i ≡ ok b
      → Watches w (i + 1) n l
      → Watches w i (suc n) ((a.script_pubkey, external, i) ∷ (b.script_pubkey, internal, i) ∷ l)

-- The address of every chain at each index from `i` up to `i + n` derives.
unfoldable pub IsDerivable : ElementsWollet → ℕ → ℕ → Type 0
IsDerivable w i n = (c : Chain) (j : ℕ) → j < n → (a : Address) × (address w c (i + j) ≡ ok a)

append-nil {ℓ} : {A : Type ℓ} (xs : List A) → xs ++ [] ≡ xs
append-nil [] = refl
append-nil (x ∷ xs) = ap (◌∷◌ x) (append-nil xs)

append_assoc {ℓ} : {A : Type ℓ} (xs ys zs : List A) → (xs ++ ys) ++ zs ≡ xs ++ (ys ++ zs)
append_assoc [] ys zs = refl
append_assoc (x ∷ xs) ys zs = ap (◌∷◌ x) (append_assoc xs ys zs)

-- What the loop returns.
record Returned (w : ElementsWollet) (n i : ℕ) (out : List (Script × Chain × ℕ)) : Type 0 where
  rest : List (Script × Chain × ℕ)
  runs : watched_from w n i out ≡ ok (out ++ rest)
  watches : Watches w i n rest

watched_from-step :
    (w : ElementsWollet) (n i : ℕ) (out : List (Script × Chain × ℕ)) (a b : Address)
    → address w external i ≡ ok a
    → address w internal i ≡ ok b
    → watched_from w (suc n) i out
      ≡ watched_from w n
          (i + 1)
          ((out ++ (a.script_pubkey, external, i) ∷ []) ++ (b.script_pubkey, internal, i) ∷ [])
unfolding watched_from address
watched_from-step w n i out a b ext int = simp (ext, int)

watched_from_total :
    (w : ElementsWollet) (n i : ℕ) (out : List (Script × Chain × ℕ))
    → IsDerivable w i n
    → Returned w n i out
unfolding watched_from IsDerivable
watched_from_total w zero i out h = record {
  rest = [];
  runs = ap ok (sym (append-nil out));
  watches = nothing i;
}
watched_from_total w (suc n) i out h =
    let (a, ext) = h external 0 (omega arith) in
    let (b, int) = h internal 0 (omega arith) in
    let here : i + 0 ≡ i = omega arith in
    let ext' : address w external i ≡ ok a = subst (λ j. address w external j ≡ ok a) here ext in
    let int' : address w internal i ≡ ok b = subst (λ j. address w internal j ≡ ok b) here int in
    let x : Script × Chain × ℕ = (a.script_pubkey, external, i) in
    let y : Script × Chain × ℕ = (b.script_pubkey, internal, i) in
    let later = watched_from_total w n (i + 1) ((out ++ x ∷ []) ++ y ∷ []) (λ c j lt.
      subst (λ k. (d : Address) × (address w c k ≡ ok d)) (omega arith)
        (h c (suc j) (omega arith))) in
    record {
      rest = x ∷ y ∷ later.rest;
      runs =
          watched_from-step w n i out a b ext' int'
          ∙ (later.runs
              ∙ ap ok (
                  append_assoc (out ++ x ∷ []) (y ∷ []) later.rest
                  ∙ append_assoc out (x ∷ []) (y ∷ later.rest)));
      watches = pair i n a b later.rest ext' int' later.watches;
    }

-- What `watched_scripts` returned.
pub record Scripts (w : ElementsWollet) (gap : ℕ) : Type 0 where
  pub scripts : List (Script × Chain × ℕ)
  pub runs : watched_scripts w gap ≡ ok scripts
  pub watches : Watches w 0 gap scripts

-- If both addresses derive at every index below the gap, `watched_scripts` succeeds, and lists for
-- each index from 0 up to the gap the script of `address` on the external chain and then that of
-- `address` on the internal one, each with its chain and index.
pub watched_scripts_lem : (w : ElementsWollet) (gap : ℕ) → IsDerivable w 0 gap → Scripts w gap
unfolding watched_scripts
watched_scripts_lem w gap h =
    let r = watched_from_total w gap 0 [] h in
    record { scripts = r.rest; runs = r.runs; watches = r.watches }
