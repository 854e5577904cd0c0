-- ===== src/Sync/Redeemable/Backed.antt =====
-- What stands behind the index of an engine that registration made.
use mathlib.Core.Option.{some-injective}
use emvault_elements.Prelude.{
  ℕ, zero, suc, ◌≡◌, refl, subst, sym, ◌∙◌, some, List, [], ◌∷◌, ◌++◌, arith, length, length-append,
  get_elem?, get_elem?-append_here,
}
use emvault_elements.Prelude.Tests.{bytes_eq}
use emvault_elements.Prelude.Result.{Result, ok, err, panic}
use emvault_elements.Prelude.Map
use emvault_elements.Prelude.Map.{Map}
use emvault_elements.Elements.{Script, Chain}
use emvault_elements.Error.{WolletError}
use emvault_elements.Wollet
use emvault_elements.Wollet.{ElementsWollet}
use emvault_elements.Wollet.Paid.{Pays, watched_scripts-Pays}
use emvault_elements.Sync.Types.{WalletId}
use emvault_elements.Sync.Scan.{ScriptEntry, BlockScanEngine}
use emvault_elements.Sync.Engine.{new, register_wallet}
use emvault_elements.Sync.Indexed.{written, kept, register_wallet-Registers}
use emvault_elements.Sync.Wired.{Returns, Built}

-- An engine that calls of `register_wallet` have made, failed ones included, and the wallets that
-- they were called for, in order.
pub data Makes : List WalletId → BlockScanEngine → Type 0 where
  fresh : Makes [] new
  registered :
      (ids : List WalletId) (engine : BlockScanEngine) (id : WalletId) (wollet : ElementsWollet)
      (gap : ℕ)
      → Returns wollet
      → Makes ids engine
      → Makes (ids ++ id ∷ []) (register_wallet id wollet gap engine).1

pub Makes-Built : (ids : List WalletId) (engine : BlockScanEngine) → Makes ids engine → Built engine
Makes-Built _ _ fresh = Built.fresh
Makes-Built _ _ (registered ids engine id wollet gap r made) =
    Built.registered engine id wollet gap r (Makes-Built ids engine made)

-- The script is that of an address of the wollet that the entry names, which was registered for the
-- wallet of the entry.
pub record Backs (ids : List WalletId) (wollets : List ElementsWollet) (spk : Script)
    (entry : ScriptEntry) : Type 0 where
  pub wollet : ElementsWollet
  pub named : get_elem? ids entry.wollet_idx ≡ some entry.wallet_id
  pub registered : get_elem? wollets entry.wollet_idx ≡ some wollet
  pub pays : Pays wollet spk entry.chain entry.wildcard_index

unfoldable IsBacked : List WalletId → List ElementsWollet → Map Script ScriptEntry → Type 0
IsBacked ids wollets index =
    (spk : Script) (entry : ScriptEntry)
    → Map.get spk index ≡ some entry
    → Backs ids wollets spk entry

stays :
    {A : Type 0} (xs ys : List A) (i : ℕ) (x : A)
    → get_elem? xs i ≡ some x
    → get_elem? (xs ++ ys) i ≡ some x
stays [] ys i x e = cc
stays (y ∷ xs) ys zero x e = e
stays (y ∷ xs) ys (suc i) x e = stays xs ys i x e

more-Backs :
    (ids : List WalletId) (wollets : List ElementsWollet) (id : WalletId) (wollet : ElementsWollet)
    (spk : Script) (entry : ScriptEntry)
    → Backs ids wollets spk entry
    → Backs (ids ++ id ∷ []) (wollets ++ wollet ∷ []) spk entry
more-Backs ids wollets id wollet spk entry b = record {
  wollet = b.wollet;
  named = stays ids (id ∷ []) entry.wollet_idx entry.wallet_id b.named;
  registered = stays wollets (wollet ∷ []) entry.wollet_idx b.wollet b.registered;
  pays = b.pays;
}

-- What registration keeps
record Backed (ids : List WalletId) (engine : BlockScanEngine) : Type 0 where
  count : length ids ≡ length engine.wollets
  backed : IsBacked ids engine.wollets engine.index

module _ (ids : List WalletId) (engine : BlockScanEngine) (id : WalletId) (wollet : ElementsWollet)
    (gap : ℕ) (b : Backed ids engine) where
  counted : length (ids ++ id ∷ []) ≡ length (engine.wollets ++ wollet ∷ [])
  counted =
      omega
        (arith, length-append ids (id ∷ []), length-append engine.wollets (wollet ∷ []), b.count)

  failed-Backed :
      Backed (ids ++ id ∷ []) (record engine { wollets = engine.wollets ++ wollet ∷ [] })
  unfolding IsBacked
  failed-Backed = record {
    count = counted;
    backed =
        λ spk entry e. more-Backs ids engine.wollets id wollet spk entry (b.backed spk entry e);
  }

  register-Backed :
      (r : Result WolletError (List (Script × Chain × ℕ)))
      → Wollet.watched_scripts wollet gap ≡ r
      → Backed (ids ++ id ∷ []) (register_wallet id wollet gap engine).1
  unfolding register_wallet IsBacked
  register-Backed (err x) e = rw e failed-Backed
  register-Backed panic e = rw e failed-Backed
  register-Backed (ok scripts) e =
      let reg = register_wallet-Registers id wollet gap engine scripts e in
      let after : BlockScanEngine = record {
        index = reg.index;
        wollets = engine.wollets ++ wollet ∷ [];
      } in
      let backed : Backed (ids ++ id ∷ []) after = record {
        count = counted;
        backed = λ spk entry found. elim (reg.lookup spk) [
          | kept unlisted same ↦
              more-Backs ids engine.wollets id wollet spk entry
                (b.backed spk entry (sym same ∙ found))
          | written l here ↦
              let value = some-injective _ entry (sym here ∙ found) in
              subst (Backs (ids ++ id ∷ []) (engine.wollets ++ wollet ∷ []) spk) value (record {
                wollet = wollet;
                named =
                    subst (λ n. get_elem? (ids ++ id ∷ []) n ≡ some id) b.count
                      (get_elem?-append_here ids [] id);
                registered = get_elem?-append_here engine.wollets [] wollet;
                pays =
                    watched_scripts-Pays wollet gap scripts spk l.chain l.wildcard_index e l.listed;
              })
        ];
      } in
      subst (λ s. Backed (ids ++ id ∷ []) s.1) (sym reg.runs) backed

Makes-Backed :
    (ids : List WalletId) (engine : BlockScanEngine) → Makes ids engine → Backed ids engine
unfolding IsBacked Map.get
Makes-Backed _ _ fresh = record { count = refl; backed = λ spk entry e. absurd (cc) }
Makes-Backed _ _ (registered ids engine id wollet gap r made) =
    register-Backed ids engine id wollet gap (Makes-Backed ids engine made)
      (Wollet.watched_scripts wollet gap) refl

-- Each script of the index of an engine that registration made is that of an address of the wollet
-- that its entry names, and this wollet was registered for the wallet of the entry.
pub Makes-Backs :
    (ids : List WalletId) (engine : BlockScanEngine)
    → Makes ids engine
    → (spk : Script) (entry : ScriptEntry) → Map.get spk engine.index ≡ some entry
    → Backs ids engine.wollets spk entry
unfolding IsBacked
Makes-Backs ids engine made = (Makes-Backed ids engine made).backed
