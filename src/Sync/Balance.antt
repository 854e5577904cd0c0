-- ===== src/Sync/Balance.antt =====
-- What a wallet can spend.
use mathlib.Core.Option.{some-injective, none-ne-some}
use emvault_elements.Prelude.{
  IsMember, ◌≡◌, ◌↔◌, refl, sym, subst, ap, ◌∙◌, inl, inr, Bool, true, false, not, ◌&&◌, Option,
  none, some, List, [], ◌∷◌, map, filter, All, arith, ◌==◌, Bool-cases, if◌then◌else◌,
}
use emvault_elements.Prelude.Map
use emvault_elements.Prelude.Map.{IsUnique, values}
use emvault_elements.Elements.{OutPoint, outpoint_eq, outpoint_eqb_iff, Block}
use emvault_elements.Sync.Types.{WalletId, wallet_eq, wallet_eqb_iff, CapturedUtxo}
use emvault_elements.Sync.Scan.{BlockScanEngine}
use emvault_elements.Sync.Fakes.{World, Entry, UtxoMap, list_unspent}
use emvault_elements.Sync.Ledger.{dated, ledger}
use emvault_elements.Sync.Synced.{Holds}
use emvault_elements.Sync.Refinement.{stored_keys}

-- The output is recorded under its outpoint, is not spent, and is the wallet's.
pub record Spendable (find : OutPoint → Option Entry) (wallet : WalletId) (u : CapturedUtxo)
    : Type 0 where
  pub entry : Entry
  pub found : find u.outpoint ≡ some entry
  pub same : entry.utxo ≡ u
  pub unspent : u.is_spent ≡ false
  pub owned : u.wallet_id ≡ wallet

-- The test of `list_unspent`
abbrev is_listed : WalletId → Entry → Bool
is_listed wallet e = not e.utxo.is_spent && (e.utxo.wallet_id == wallet)

-- An entry of the list that passes the test, and holds the output.
Listed : WalletId → CapturedUtxo → List Entry → Type 0
Listed wallet u es = (e : Entry) × IsMember e es × (is_listed wallet e ≡ true) × (e.utxo ≡ u)

later :
    (wallet : WalletId) (u : CapturedUtxo) (e : Entry) (es : List Entry)
    → Listed wallet u es
    → Listed wallet u (e ∷ es)
unfolding Listed
later wallet u e es (f, m, t, same) = (f, inr m, t, same)

listed_step :
    (wallet : WalletId) (u : CapturedUtxo) (e : Entry) (es kept : List Entry) (b : Bool)
    → is_listed wallet e ≡ b
    → (IsMember u (map (λ x. x.utxo) kept) → Listed wallet u es)
    → IsMember u
        (map (λ x. x.utxo) (elim b as (λ _. List Entry) [ true ↦ e ∷ kept | false ↦ kept ]))
    → Listed wallet u (e ∷ es)
unfolding Listed
listed_step wallet u e es kept false t below m = later wallet u e es (below m)
listed_step wallet u e es kept true t below (inl same) = (e, inl refl, t, sym same)
listed_step wallet u e es kept true t below (inr m) = later wallet u e es (below m)

listed_entry :
    (wallet : WalletId) (u : CapturedUtxo) (es : List Entry)
    → IsMember u (map (λ x. x.utxo) (filter (is_listed wallet) es))
    → Listed wallet u es
listed_entry wallet u [] h = absurd h
listed_entry wallet u (e ∷ es) h =
    listed_step wallet u e es (filter (is_listed wallet) es) (is_listed wallet e) refl
      (listed_entry wallet u es) h

pass_over :
    (u : CapturedUtxo) (x : Entry) (kept : List Entry) (b : Bool)
    → IsMember u (map (λ y. y.utxo) kept)
    → IsMember u
        (map (λ y. y.utxo) (elim b as (λ _. List Entry) [ true ↦ x ∷ kept | false ↦ kept ]))
pass_over u x kept true m = inr m
pass_over u x kept false m = m

head_step :
    (u : CapturedUtxo) (x : Entry) (kept : List Entry) (b : Bool)
    → b ≡ true
    → u ≡ x.utxo
    → IsMember u
        (map (λ y. y.utxo) (elim b as (λ _. List Entry) [ true ↦ x ∷ kept | false ↦ kept ]))
head_step u x kept true t same = inl same
head_step u x kept false t same = cc

entry_listed :
    (wallet : WalletId) (e : Entry) (es : List Entry)
    → IsMember e es
    → is_listed wallet e ≡ true
    → IsMember (e.utxo) (map (λ x. x.utxo) (filter (is_listed wallet) es))
entry_listed wallet e [] d t = d
entry_listed wallet e (x ∷ xs) (inl same) t =
    head_step e.utxo x (filter (is_listed wallet) xs) (is_listed wallet x)
      (subst (λ y. is_listed wallet y ≡ true) same t) (ap (λ y. y.utxo) same)
entry_listed wallet e (x ∷ xs) (inr d) t =
    pass_over e.utxo x (filter (is_listed wallet) xs) (is_listed wallet x)
      (entry_listed wallet e xs d t)

get-entry :
    (m : UtxoMap) (e : Entry)
    → IsUnique m
    → All (λ p. p.1.utxo.outpoint ≡ p.0) m
    → IsMember e (values m)
    → Map.get e.utxo.outpoint m ≡ some e
unfolding Map.get
get-entry [] e u k d = absurd d
get-entry ((op, x) ∷ m) e u k (inl same) =
    let key : e.utxo.outpoint ≡ op = ap (λ y. y.utxo.outpoint) same ∙ k.0 in
    rw ((outpoint_eqb_iff op e.utxo.outpoint).1 (sym key)) (ap some (sym same))
get-entry ((op, x) ∷ m) e u k (inr d) = elim (Bool-cases (op == e.utxo.outpoint)) [
  | inr other ↦ rw other (get-entry m e u.1 k.1 d)
  | inl same ↦
      let key : op ≡ e.utxo.outpoint = (outpoint_eqb_iff op e.utxo.outpoint).0 same in
      absurd (none-ne-some e (sym u.0 ∙ (ap (λ o. Map.get o m) key ∙ get-entry m e u.1 k.1 d)))
]

entry_step :
    (e x : Entry) (es : List Entry) (o : Option Entry) (b : Bool)
    → (o ≡ some e → IsMember e es)
    → (if b then some x else o) ≡ some e
    → IsMember e (x ∷ es)
entry_step e x es o true below h = inl (sym (some-injective x e h))
entry_step e x es o false below h = inr (below h)

entry_of_get :
    (m : UtxoMap) (op : OutPoint) (e : Entry) → Map.get op m ≡ some e → IsMember e (values m)
unfolding Map.get
entry_of_get [] op e h = absurd (none-ne-some e h)
entry_of_get ((j, x) ∷ m) op e h =
    entry_step e x (values m) (Map.get op m) (j == op) (entry_of_get m op e) h

list_unspent_iff :
    (m : UtxoMap) (wallet : WalletId) (u : CapturedUtxo)
    → IsUnique m
    → All (λ p. p.1.utxo.outpoint ≡ p.0) m
    → IsMember u (list_unspent m wallet) ↔ Spendable (λ op. Map.get op m) wallet u
unfolding list_unspent Listed
list_unspent_iff m wallet u unique keyed = (
  λ h.
      let (e, member, test, same) = listed_entry wallet u (values m) h in
      record {
        entry = e;
        found = ap (λ v. Map.get v.outpoint m) (sym same) ∙ get-entry m e unique keyed member;
        same = same;
        unspent = ground (arith, ap (λ v. v.is_spent) same);
        owned =
            ap (λ v. v.wallet_id) (sym same)
            ∙ (wallet_eqb_iff e.utxo.wallet_id wallet).0 (ground arith);
      },
  λ s.
      subst (λ v. IsMember v (list_unspent m wallet)) s.same
        (entry_listed wallet s.entry (values m) (entry_of_get m u.outpoint s.entry s.found) (
          ground (
            arith,
            ap (λ v. v.is_spent) s.same,
            s.unspent,
            (wallet_eqb_iff s.entry.utxo.wallet_id wallet).1
                (ap (λ v. v.wallet_id) s.same ∙ s.owned),
          ))),
)

-- If the stores hold a chain, `list_unspent` returns for a wallet exactly the outputs that the
-- ledger of that chain records under their outpoints, unspent, for that wallet.
pub list_unspent_lem :
    (engine : BlockScanEngine) (w : World) (bs : List Block)
    → Holds engine w bs
    → (wallet : WalletId) (u : CapturedUtxo)
    → IsMember u (list_unspent w.utxos wallet)
      ↔ Spendable (λ op. ledger engine op (dated 0 bs) none) wallet u
list_unspent_lem engine w bs held wallet u =
    let stored = list_unspent_iff w.utxos wallet u held.unique (stored_keys engine w bs held) in
    (
      λ m.
          let s = stored.0 m in
          record {
            entry = s.entry;
            found = sym (held.ledgers u.outpoint) ∙ s.found;
            same = s.same;
            unspent = s.unspent;
            owned = s.owned;
          },
      λ s. stored.1 (record {
        entry = s.entry;
        found = held.ledgers u.outpoint ∙ s.found;
        same = s.same;
        unspent = s.unspent;
        owned = s.owned;
      }),
    )
