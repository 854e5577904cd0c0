-- ===== src/Wollet/Paid.antt =====
-- What is known of a script that a wollet lists.
use emvault_elements.Prelude.{
  ℕ, zero, suc, ◌+◌, ◌≡◌, refl, subst, sym, inl, inr, List, [], ◌∷◌, ◌++◌, All, All-append,
  IsMember,
}
use emvault_elements.Prelude.Result.{ok, >>=-eq-ok}
use emvault_elements.Elements.{Script, Chain, external, internal, Address}
use emvault_elements.Wollet.{ElementsWollet, address, watched_from, watched_scripts}

-- The script is that of the wollet's address at the chain and the index.
pub record Pays (w : ElementsWollet) (spk : Script) (chain : Chain) (index : ℕ) : Type 0 where
  pub payee : Address
  pub derives : address w chain index ≡ ok payee
  pub script : payee.script_pubkey ≡ spk

unfoldable IsPaid : ElementsWollet → Script × Chain × ℕ → Type 0
IsPaid w x = Pays w x.0 x.1 x.2

watched_from-IsPaid :
    (w : ElementsWollet) (n i : ℕ) (out scripts : List (Script × Chain × ℕ))
    → All (IsPaid w) out
    → watched_from w n i out ≡ ok scripts
    → All (IsPaid w) scripts
unfolding watched_from address IsPaid
watched_from-IsPaid w zero i out scripts paid e = subst (All (IsPaid w)) (cc) paid
watched_from-IsPaid w (suc n) i out scripts paid e =
    let (ext, first, e') = >>=-eq-ok (address w external i) _ e in
    let (int, second, e'') = >>=-eq-ok (address w internal i) _ e' in
    let receive : List (Script × Chain × ℕ) = (ext.script_pubkey, external, i) ∷ [] in
    let change : List (Script × Chain × ℕ) = (int.script_pubkey, internal, i) ∷ [] in
    watched_from-IsPaid w n (i + 1) ((out ++ receive) ++ change) scripts
      (All-append (IsPaid w) (out ++ receive) change
        (All-append (IsPaid w) out receive paid
          (record { payee = ext; derives = first; script = refl }, tt))
        (record { payee = int; derives = second; script = refl }, tt))
      e''

member_of : {A : Type 0} (P : A → Type 0) (xs : List A) (x : A) → All P xs → IsMember x xs → P x
member_of P [] x h m = elim m [ ]
member_of P (y ∷ ys) x h (inl same) = subst P (sym same) h.0
member_of P (y ∷ ys) x h (inr m) = member_of P ys x h.1 m

-- Each script that `watched_scripts` lists is that of the wollet's address at the chain and the
-- index with which it is listed.
pub watched_scripts-Pays :
    (w : ElementsWollet) (gap : ℕ) (scripts : List (Script × Chain × ℕ)) (spk : Script)
    (chain : Chain) (index : ℕ)
    → watched_scripts w gap ≡ ok scripts
    → IsMember (spk, chain, index) scripts
    → Pays w spk chain index
unfolding watched_scripts IsPaid
watched_scripts-Pays w gap scripts spk chain index e =
    member_of (IsPaid w) scripts (spk, chain, index) (watched_from-IsPaid w gap 0 [] scripts tt e)
