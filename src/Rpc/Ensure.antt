-- ===== src/Rpc/Ensure.antt =====
-- `ensure_wallet_loaded` against what the daemon documents of its wallet calls.
use mathlib.Core.Option
use emvault_elements.Prelude.{
  ◌≡◌, refl, ap, ◌∙◌, inl, inr, true, false, some, List, [], ◌∷◌, any, IsMember, any_iff, ◌==◌,
  Bool-cases, codes, Text,
}
use emvault_elements.Prelude.Tests.{bytes_eq}
use emvault_elements.Prelude.Result.{ok}
use emvault_elements.Rpc.{ElementsRpc, Backend}
use emvault_elements.Rpc.Wallets.{
  ensure_wallet_loaded, list_wallets, list_wallet_dir, load_wallet, create_wallet, base_client,
  wallet_names, entry_names, text_field,
}

module _ {S C V F E : Type 0} (backend : Backend S C V F E) (node : ElementsRpc) where
  open backend use {net, json, decode}

  -- Each entry of the listing is an object with the name of a wallet.
  unfoldable pub Names : List V → List Text → Type 0
  Names [] [] = Unit
  Names (v ∷ vs) (n ∷ ns) = (text_field backend node v (codes "name") ≡ some n) × Names vs ns
  Names _ _ = ⊥

  -- A call that adds the wallet to those that are loaded.
  pub record Adds (loaded : S → List Text) (client : C) (method : Text) (args : List V)
      (name : Text) (s : S) : Type 0 where
    pub reply : V
    pub after : S
    pub runs : net.call client method args s ≡ (ok reply, after)
    pub there : IsMember name (loaded after)
    pub kept : (other : Text) → IsMember other (loaded s) → IsMember other (loaded after)

  -- What the daemon documents: `listwallets` and `listwalletdir` list the loaded wallets and those
  -- on disk and change nothing; `loadwallet` loads one that is on disk, and `createwallet` makes
  -- and loads one that is not.
  pub record Daemon : Type 0 where
    pub client : C
    pub connects : net.connect node.base_url node.user node.password ≡ ok client
    pub loaded : S → List Text
    pub on_disk : S → List Text
    pub lists :
        (s : S)
        → (v : V) × (net.call client (codes "listwallets") [] s ≡ (ok v, s))
          × (decode.texts v ≡ ok (loaded s))
    pub lists_dir :
        (s : S)
        → (v : V) × (a : V) × (entries : List V) × (net.call client (codes "listwalletdir") [] s
            ≡ (ok v, s))
          × (json.get v (codes "wallets") ≡ some a)
          × (json.as_array a ≡ some entries)
          × Names entries (on_disk s)
    pub loads :
        (name : Text) (s : S)
        → IsMember name (on_disk s)
        → (IsMember name (loaded s) → ⊥)
        → Adds loaded client (codes "loadwallet") (json.string name ∷ []) name s
    pub creates :
        (name : Text) (s : S)
        → (IsMember name (on_disk s) → ⊥)
        → (IsMember name (loaded s) → ⊥)
        → Adds loaded client
            (codes "createwallet")
            (json.string name
              ∷ json.bool true
              ∷ json.bool true
              ∷ json.string []
              ∷ json.bool false
              ∷ json.bool true
              ∷ [])
            name
            s

  entry_names-Names :
      (vs : List V) (ns : List Text) → Names vs ns → entry_names backend node vs ≡ ns
  unfolding Names entry_names Option.bind
  entry_names-Names [] [] h = refl
  entry_names-Names (v ∷ vs) (n ∷ ns) (e, h) =
      rw (e, entry_names) (ap (λ l. n ∷ l) (entry_names-Names vs ns h))
  entry_names-Names [] (n ∷ ns) h = absurd h
  entry_names-Names (v ∷ vs) [] h = absurd h

  wallet_names_lem :
      (v a : V) (entries : List V)
      → json.get v (codes "wallets") ≡ some a
      → json.as_array a ≡ some entries
      → wallet_names backend node v ≡ entry_names backend node entries
  unfolding wallet_names Option.bind
  wallet_names_lem v a entries found array = rw (found, array, wallet_names, Option.bind) refl

  module _ (daemon : Daemon) where
    open daemon use {client, loaded, on_disk}

    base_client_lem : base_client backend node ≡ ok client
    unfolding base_client
    base_client_lem = rw daemon.connects

    list_wallets_lem : (s : S) → list_wallets backend node s ≡ (ok (loaded s), s)
    unfolding list_wallets
    list_wallets_lem s =
        let (v, runs, names) = daemon.lists s in simp (base_client_lem, runs, names)

    list_wallet_dir_lem : (s : S) → list_wallet_dir backend node s ≡ (ok (on_disk s), s)
    unfolding list_wallet_dir
    list_wallet_dir_lem s =
        let (v, a, entries, runs, found, array, names) = daemon.lists_dir s in
        simp (base_client_lem, runs)
          (ap (λ l. (ok l, s))
            (wallet_names_lem v a entries found array
              ∙ entry_names-Names entries (on_disk s) names))

    -- What a call of `ensure_wallet_loaded` did.
    pub record Ensured (name : Text) (s : S) : Type 0 where
      pub after : S
      pub runs : ensure_wallet_loaded backend node name s ≡ (ok tt, after)
      pub there : IsMember name (loaded after)
      pub kept : (other : Text) → IsMember other (loaded s) → IsMember other (loaded after)

    not-any :
        (name : Text) (names : List Text)
        → any (λ w. w == name) names ≡ false
        → IsMember name names
        → ⊥
    not-any name names e m = cc ((any_iff name names).1 m)

    ensure_loaded :
        (name : Text) (s : S)
        → IsMember name (loaded s)
        → ensure_wallet_loaded backend node name s ≡ (ok tt, s)
    unfolding ensure_wallet_loaded
    ensure_loaded name s m = simp (list_wallets_lem s, (any_iff name (loaded s)).1 m)

    load_wallet_lem :
        (name : Text) (s : S)
        (added : Adds loaded client (codes "loadwallet") (json.string name ∷ []) name s)
        → load_wallet backend node name s ≡ (ok tt, added.after)
    unfolding load_wallet
    load_wallet_lem name s added = simp (base_client_lem, added.runs)

    create_wallet_lem :
        (name : Text) (s : S)
        (added : Adds loaded client
          (codes "createwallet")
          (json.string name
            ∷ json.bool true
            ∷ json.bool true
            ∷ json.string []
            ∷ json.bool false
            ∷ json.bool true
            ∷ [])
          name
          s)
        → create_wallet backend node name s ≡ (ok tt, added.after)
    unfolding create_wallet
    create_wallet_lem name s added = simp (base_client_lem, added.runs)

    load :
        (name : Text) (s : S)
        → any (λ w. w == name) (loaded s) ≡ false
        → any (λ w. w == name) (on_disk s) ≡ true
        → Ensured name s
    unfolding ensure_wallet_loaded
    load name s fresh known =
        let added =
          daemon.loads name s ((any_iff name (on_disk s)).0 known)
            (not-any name (loaded s) fresh) in
        record {
          after = added.after;
          runs = simp (
            list_wallets_lem s,
            fresh,
            list_wallet_dir_lem s,
            known,
            load_wallet_lem name s added,
          );
          there = added.there;
          kept = added.kept;
        }

    create :
        (name : Text) (s : S)
        → any (λ w. w == name) (loaded s) ≡ false
        → any (λ w. w == name) (on_disk s) ≡ false
        → Ensured name s
    unfolding ensure_wallet_loaded
    create name s fresh unknown =
        let added =
          daemon.creates name s (not-any name (on_disk s) unknown)
            (not-any name (loaded s) fresh) in
        record {
          after = added.after;
          runs = simp (
            list_wallets_lem s,
            fresh,
            list_wallet_dir_lem s,
            unknown,
            create_wallet_lem name s added,
          );
          there = added.there;
          kept = added.kept;
        }

    ensure : (name : Text) (s : S) → Ensured name s
    ensure name s = elim (Bool-cases (any (λ w. w == name) (loaded s))) [
      | inl old ↦
          let m = (any_iff name (loaded s)).0 old in
          record { after = s; runs = ensure_loaded name s m; there = m; kept = λ other k. k }
      | inr fresh ↦ elim (Bool-cases (any (λ w. w == name) (on_disk s))) [
        | inl known ↦ load name s fresh known
        | inr unknown ↦ create name s fresh unknown
      ]
    ]

    -- Against a daemon that does what it documents, `ensure_wallet_loaded` succeeds from every
    -- state; the wallet is loaded afterwards, no other wallet is unloaded, and a second call
    -- succeeds and changes nothing.
    pub ensure_wallet_loaded-Ensured :
        (name : Text) (s : S)
        → (done : Ensured name s) × (ensure_wallet_loaded backend node name done.after
            ≡ (ok tt, done.after))
    ensure_wallet_loaded-Ensured name s =
        let done = ensure name s in (done, ensure_loaded name done.after done.there)
