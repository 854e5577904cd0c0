-- ===== src/Sync/Indexed.antt =====
-- What `register_wallet` writes to the index of an engine.
use emvault_elements.Prelude.{
  ℕ, ◌≡◌, ◌≢◌, refl, sym, ap, ◌∙◌, inl, inr, some, List, [], ◌∷◌, ◌++◌, IsMember, arith, false,
  length, ◌==◌, Bool-cases,
}
use emvault_elements.Prelude.Tests.{bytes_eq, bytes_eqb_iff}
use emvault_elements.Prelude.Result.{ok}
use emvault_elements.Prelude.Map
use emvault_elements.Prelude.Map.{Map}
use emvault_elements.Prelude.Map.Laws.{get-insert}
use emvault_elements.Elements.{Script, Chain}
use emvault_elements.Wollet
use emvault_elements.Wollet.{ElementsWollet}
use emvault_elements.Sync.Types.{WalletId}
use emvault_elements.Sync.Scan.{ScriptEntry, BlockScanEngine}
use emvault_elements.Sync.Engine.{index_scripts, register_wallet}

head-apart : (a b : Script) → (a == b) ≡ false → a ≢ b
head-apart a b apart same = ground (arith, bytes_eqb_iff a b)

module _ (id : WalletId) (wollet_idx : ℕ) where
  -- The script is listed at a chain and an index.
  pub record Listed (scripts : List (Script × Chain × ℕ)) (spk : Script) : Type 0 where
    pub chain : Chain
    pub wildcard_index : ℕ
    pub listed : IsMember (spk, chain, wildcard_index) scripts

  abbrev pub entry_of :
      {scripts : List (Script × Chain × ℕ)} → {spk : Script} → Listed scripts spk → ScriptEntry
  entry_of l = record {
    wallet_id = id;
    chain = l.chain;
    wildcard_index = l.wildcard_index;
    wollet_idx = wollet_idx;
  }

  -- A listed script has the wallet's entry at a chain and an index where it is listed, and any
  -- other script has what it had.
  pub data Lookup (scripts : List (Script × Chain × ℕ)) (before after : Map Script ScriptEntry)
      (spk : Script) : Type 0 where
    written :
        (l : Listed scripts spk)
        → Map.get spk after ≡ some (entry_of l)
        → Lookup scripts before after spk
    kept :
        (Listed scripts spk → ⊥)
        → Map.get spk after ≡ Map.get spk before
        → Lookup scripts before after spk

  lookup_after :
      (scripts : List (Script × Chain × ℕ)) (before : Map Script ScriptEntry) (spk : Script)
      → Lookup scripts before (index_scripts id wollet_idx scripts before) spk
  unfolding index_scripts
  lookup_after [] before spk = kept (λ l. elim l.listed [ ]) refl
  lookup_after ((s, c, i) ∷ rest) before spk =
      let e : ScriptEntry = record {
        wallet_id = id;
        chain = c;
        wildcard_index = i;
        wollet_idx = wollet_idx;
      } in
      elim (lookup_after rest (Map.insert s e before) spk) [
        | written l found ↦
            written
              (record { chain = l.chain; wildcard_index = l.wildcard_index; listed = inr l.listed })
              found
        | kept unlisted same ↦ elim (Bool-cases (s == spk)) [
          | inl here ↦
              written
                (record {
                  chain = c;
                  wildcard_index = i;
                  listed = inl (ap (λ x. (x, c, i)) (sym ((bytes_eqb_iff s spk).0 here)));
                })
                (same ∙ (get-insert s spk e before ∙ ground (arith, here)))
          | inr apart ↦
              kept
                (λ l. elim l.listed [
                  | inl first ↦ absurd (head-apart s spk apart (sym (ap (λ x. x.0) first)))
                  | inr m ↦
                      unlisted
                        (record { chain = l.chain; wildcard_index = l.wildcard_index; listed = m })
                ])
                (same ∙ (get-insert s spk e before ∙ ground (arith, apart)))
        ]
      ]

-- What `register_wallet` did, where the wollet watches `scripts`.
pub record Registers (id : WalletId) (wollet : ElementsWollet) (gap : ℕ) (engine : BlockScanEngine)
    (scripts : List (Script × Chain × ℕ)) : Type 0 where
  pub index : Map Script ScriptEntry
  pub runs :
      register_wallet id wollet gap engine
      ≡ (ok tt, record { index = index; wollets = engine.wollets ++ wollet ∷ [] })
  pub lookup : (spk : Script) → Lookup id (length engine.wollets) scripts engine.index index spk

-- If `watched_scripts` returns a list of scripts, then `register_wallet` succeeds and adds the
-- wollet behind the others, and the index has for each of these scripts the wallet, the new
-- wollet's place and a chain and index at which the list has the script, and for every other
-- script what it had.
pub register_wallet-Registers :
    (id : WalletId) (wollet : ElementsWollet) (gap : ℕ) (engine : BlockScanEngine)
    (scripts : List (Script × Chain × ℕ))
    → Wollet.watched_scripts wollet gap ≡ ok scripts
    → Registers id wollet gap engine scripts
unfolding register_wallet
register_wallet-Registers id wollet gap engine scripts watches = record {
  index = index_scripts id (length engine.wollets) scripts engine.index;
  runs = rw watches refl;
  lookup = lookup_after id (length engine.wollets) scripts engine.index;
}
