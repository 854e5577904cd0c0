-- ===== src/FederatedWallet/Versions.antt =====
-- The versions of a federated wallet.
use emvault_elements.Prelude.{
  ℕ, zero, suc, ◌+◌, ◌<◌, ◌≡◌, refl, sym, subst, Bool, true, some, List, [], ◌∷◌, ◌++◌, arith, All,
  All-append, length, length-append, get_elem?, get_elem?-append_left, get_last?-append,
}
use emvault_elements.Prelude.Result.{ok, expect}
use emvault_elements.Network.{NetworkType, network_eqb, to_network_type, ElementsNetwork}
use emvault_elements.Federation.{Federation}
use emvault_elements.FederatedWallet.{
  ElementsWalletHandle, ElementsFederatedWallet, Version, new, with_federation, current, at,
  federation_count,
}

-- Every version's index is its position, counted from `n`.
pub IsNumbered : ℕ → List Version → Type 0
IsNumbered n [] = Unit
IsNumbered n (v ∷ vs) = (v.index ≡ n) × IsNumbered (suc n) vs

IsNumbered-append :
    (n : ℕ) (vs : List Version) (v : Version)
    → IsNumbered n vs
    → v.index ≡ n + length vs
    → IsNumbered n (vs ++ v ∷ [])
unfolding IsNumbered
IsNumbered-append n [] v h e = (omega (arith, e), tt)
IsNumbered-append n (x ∷ vs) v h e = (h.0, IsNumbered-append (suc n) vs v h.1 (omega (arith, e)))

get_elem?-IsNumbered :
    (n : ℕ) (vs : List Version) (i : ℕ) (v : Version)
    → IsNumbered n vs
    → get_elem? vs i ≡ some v
    → v.index ≡ n + i
unfolding IsNumbered
get_elem?-IsNumbered n [] i v h e = cc
get_elem?-IsNumbered n (x ∷ vs) zero v h e = ground arith
get_elem?-IsNumbered n (x ∷ vs) (suc i) v h e =
    omega (arith, get_elem?-IsNumbered (suc n) vs i v h.1 e)

get_elem?-append_self {ℓ} :
    {A : Type ℓ} (xs : List A) (x : A) → get_elem? (xs ++ x ∷ []) (length xs) ≡ some x
get_elem?-append_self [] x = refl
get_elem?-append_self (y ∷ xs) x = get_elem?-append_self xs x

module _ (is_elements : NetworkType → Bool) where
  -- A wallet that calls of `new` and `with_federation` make.
  pub data Reachable : ElementsFederatedWallet → Type 0 where
    start :
        (f : Federation) (h : ElementsWalletHandle) (n : ElementsNetwork)
        (w : ElementsFederatedWallet)
        → new is_elements f h n ≡ ok w
        → Reachable w
    step :
        (w : ElementsFederatedWallet) (f : Federation) (h : ElementsWalletHandle)
        (w' : ElementsFederatedWallet)
        → Reachable w
        → with_federation is_elements w f h ≡ ok w'
        → Reachable w'

  -- What a successful `with_federation` returns.
  extended : ElementsFederatedWallet → Federation → ElementsWalletHandle → ElementsFederatedWallet
  extended w f h = record {
    federation_wallets =
        w.federation_wallets
        ++ record { federation = f; wallet = h; index = length w.federation_wallets } ∷ [];
    network = w.network;
  }

  extended_lem :
      (w : ElementsFederatedWallet) (f : Federation) (h : ElementsWalletHandle)
      (w' : ElementsFederatedWallet)
      → with_federation is_elements w f h ≡ ok w'
      → (w' ≡ extended w f h)
        × (is_elements f.network ≡ true)
        × (network_eqb f.network (to_network_type w.network) ≡ true)
  unfolding with_federation extended
  extended_lem w f h w' e = ground arith

  new_lem :
      (f : Federation) (h : ElementsWalletHandle) (n : ElementsNetwork)
      (w : ElementsFederatedWallet)
      → new is_elements f h n ≡ ok w
      → (w.federation_wallets ≡ record { federation = f; wallet = h; index = 0 } ∷ [])
        × (is_elements f.network ≡ true)
  unfolding new
  new_lem f h n w e = ground arith

  -- At least one version, each numbered by its position, all of Elements networks.
  pub record IsVersioned (w : ElementsFederatedWallet) : Type 0 where
    pub some_version : 0 < length w.federation_wallets
    pub numbered : IsNumbered 0 w.federation_wallets
    pub elements : All (λ v. is_elements v.federation.network ≡ true) w.federation_wallets

  extended-IsVersioned :
      (w : ElementsFederatedWallet) (f : Federation) (h : ElementsWalletHandle)
      → is_elements f.network ≡ true
      → IsVersioned w
      → IsVersioned (extended w f h)
  unfolding extended
  extended-IsVersioned w f h e v = record {
    some_version = omega (
      arith,
      length-append w.federation_wallets
          (record { federation = f; wallet = h; index = length w.federation_wallets } ∷ []),
    );
    numbered = IsNumbered-append 0 w.federation_wallets _ v.numbered (omega arith);
    elements = All-append _ w.federation_wallets _ v.elements (e, tt);
  }

  new-IsVersioned :
      (f : Federation) (h : ElementsWalletHandle) (n : ElementsNetwork)
      (w : ElementsFederatedWallet)
      → new is_elements f h n ≡ ok w
      → IsVersioned w
  unfolding IsNumbered
  new-IsVersioned f h n w e =
      let (only, elements) = new_lem f h n w e in
      record {
        some_version = rw only (omega arith);
        numbered = rw only (refl, tt);
        elements = rw only (elements, tt);
      }

  -- Every wallet that calls of `new` and `with_federation` make has a current version, its
  -- versions are numbered by their positions, and each is a federation of an Elements network.
  pub Reachable-IsVersioned : (w : ElementsFederatedWallet) → Reachable w → IsVersioned w
  Reachable-IsVersioned w (start f h n _ e) = new-IsVersioned f h n w e
  Reachable-IsVersioned w' (step w f h _ r e) =
      let (same, elements, _) = extended_lem w f h w' e in
      subst IsVersioned (sym same) (extended-IsVersioned w f h elements (Reachable-IsVersioned w r))

  -- A successful `with_federation` keeps every old version at its place, puts the new federation
  -- and its handle behind them, and makes that version the current one.
  pub with_federation_lem :
      (w : ElementsFederatedWallet) (f : Federation) (h : ElementsWalletHandle)
      (w' : ElementsFederatedWallet)
      → with_federation is_elements w f h ≡ ok w'
      → ((i : ℕ) → i < federation_count w → at w' i ≡ at w i)
        × (at w' (federation_count w)
            ≡ some (record { federation = f; wallet = h; index = federation_count w }))
        × (current w' ≡ expect (at w' (federation_count w)))
        × (federation_count w' ≡ suc (federation_count w))
  unfolding at federation_count current extended
  with_federation_lem w f h w' e =
      let v : Version = record {
        federation = f;
        wallet = h;
        index = length w.federation_wallets;
      } in
      let (same, _, _) = extended_lem w f h w' e in
      rw same (
        (λ i lt. get_elem?-append_left w.federation_wallets (v ∷ []) i lt),
        get_elem?-append_self w.federation_wallets v,
        rw (get_last?-append w.federation_wallets v, get_elem?-append_self w.federation_wallets v)
            refl,
        omega (arith, length-append w.federation_wallets (v ∷ [])),
      )
