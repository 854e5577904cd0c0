-- ===== src/Sync/Wired.antt =====
-- The engines that `new` and `register_wallet` make.
use mathlib.Core.Option.{some-injective, none-ne-some}
use emvault_elements.Prelude.{
  ℕ, zero, suc, ◌<◌, ◌≡◌, ◌≢◌, refl, subst, inl, inr, some, List, [], ◌∷◌, ◌++◌, arith, length,
  length-append, get_elem?, ◌==◌, Bool-cases,
}
use emvault_elements.Prelude.Tests.{bytes_eq}
use emvault_elements.Prelude.Result.{Result, ok, err, panic, map_err}
use emvault_elements.Prelude.Exec.{pure, lift, ◌>>=◌}
use emvault_elements.Prelude.Map
use emvault_elements.Prelude.Map.{Map}
use emvault_elements.Prelude.Map.Laws.{get-insert}
use emvault_elements.Elements.{Script, Chain, TxOut}
use emvault_elements.Error.{SyncError}
use emvault_elements.Wollet
use emvault_elements.Wollet.{ElementsWollet}
use emvault_elements.Sync.Types.{WalletId}
use emvault_elements.Sync.Scan.{ScriptEntry, BlockScanEngine}
use emvault_elements.Sync.Engine.{new, index_scripts, register_wallet}
use emvault_elements.Sync.Agreement.Outputs.{IsWired}

element_exists {ℓ} :
    {A : Type ℓ} (xs : List A) (i : ℕ) → i < length xs → (x : A) × (get_elem? xs i ≡ some x)
element_exists [] i lt = elim lt [ ]
element_exists (x ∷ xs) zero lt = (x, refl)
element_exists (x ∷ xs) (suc i) lt = element_exists xs i (omega arith)

-- Unblinding with the wollet returns.
unfoldable pub Returns : ElementsWollet → Type 0
Returns wollet = (txout : TxOut) → Wollet.unblind wollet txout ≢ panic

-- An engine that was made by registering wollets, failed calls included.
pub data Built : BlockScanEngine → Type 0 where
  fresh : Built new
  registered :
      (engine : BlockScanEngine) (id : WalletId) (wollet : ElementsWollet) (gap : ℕ)
      → Returns wollet
      → Built engine
      → Built (register_wallet id wollet gap engine).1

-- Every entry of the index names one of `n` wollets.
IsBounded : ℕ → Map Script ScriptEntry → Type 0
IsBounded n index =
    (spk : Script) (entry : ScriptEntry) → Map.get spk index ≡ some entry → entry.wollet_idx < n

insert-IsBounded :
    (n : ℕ) (spk : Script) (e : ScriptEntry) (index : Map Script ScriptEntry)
    → e.wollet_idx < n
    → IsBounded n index
    → IsBounded n (Map.insert spk e index)
unfolding IsBounded
insert-IsBounded n spk e index lt bounded other entry h = elim (Bool-cases (spk == other)) [
  | inl same ↦
      let value : e ≡ entry =
        some-injective e entry (ground (arith, get-insert spk other e index)) in
      subst (λ (x : ScriptEntry). x.wollet_idx < n) value lt
  | inr differ ↦ bounded other entry (ground (arith, get-insert spk other e index))
]

index_scripts-IsBounded :
    (n k : ℕ) (id : WalletId) (scripts : List (Script × Chain × ℕ)) (index : Map Script ScriptEntry)
    → k < n
    → IsBounded n index
    → IsBounded n (index_scripts id k scripts index)
unfolding index_scripts
index_scripts-IsBounded n k id [] index lt bounded = bounded
index_scripts-IsBounded n k id ((spk, chain, widx) ∷ rest) index lt bounded =
    index_scripts-IsBounded n k id rest _ lt (insert-IsBounded n spk _ index lt bounded)

AllReturn : List ElementsWollet → Type 0
AllReturn ws =
    (i : ℕ) (w : ElementsWollet) (txout : TxOut)
    → get_elem? ws i ≡ some w
    → Wollet.unblind w txout ≢ panic

append-AllReturn :
    (ws : List ElementsWollet) (w : ElementsWollet)
    → Returns w
    → AllReturn ws
    → AllReturn (ws ++ w ∷ [])
unfolding AllReturn Returns
append-AllReturn [] w r all zero v txout e =
    subst (λ x. Wollet.unblind x txout ≢ panic) (some-injective w v e) (r txout)
append-AllReturn [] w r all (suc i) v txout e = absurd (none-ne-some v e)
append-AllReturn (x ∷ ws) w r all zero v txout e = all zero v txout e
append-AllReturn (x ∷ ws) w r all (suc i) v txout e =
    append-AllReturn ws w r (λ j. all (suc j)) i v txout e

record Sound (engine : BlockScanEngine) : Type 0 where
  bounded : IsBounded (length engine.wollets) engine.index
  returns : AllReturn engine.wollets

grown :
    (engine : BlockScanEngine) (wollet : ElementsWollet)
    → length (engine.wollets ++ wollet ∷ []) ≡ suc (length engine.wollets)
grown engine wollet = omega (arith, length-append engine.wollets (wollet ∷ []))

register-Sound :
    (engine : BlockScanEngine) (id : WalletId) (wollet : ElementsWollet)
    (r : Result SyncError (List (Script × Chain × ℕ)))
    → Returns wollet
    → Sound engine
    → Sound
        ((lift r >>= λ scripts e.
            pure tt (record e { index = index_scripts id (length engine.wollets) scripts e.index }))
          (record engine { wollets = engine.wollets ++ wollet ∷ [] })).1
unfolding IsBounded
register-Sound engine id wollet (ok scripts) ret s = record {
  bounded =
      index_scripts-IsBounded _ (length engine.wollets) id scripts engine.index
        (omega (arith, grown engine wollet))
        (λ spk entry h. omega (arith, grown engine wollet, s.bounded spk entry h));
  returns = append-AllReturn engine.wollets wollet ret s.returns;
}
register-Sound engine id wollet (err e) ret s = record {
  bounded = λ spk entry h. omega (arith, grown engine wollet, s.bounded spk entry h);
  returns = append-AllReturn engine.wollets wollet ret s.returns;
}
register-Sound engine id wollet panic ret s = record {
  bounded = λ spk entry h. omega (arith, grown engine wollet, s.bounded spk entry h);
  returns = append-AllReturn engine.wollets wollet ret s.returns;
}

Built-Sound : (engine : BlockScanEngine) → Built engine → Sound engine
unfolding IsBounded AllReturn register_wallet Map.get
Built-Sound _ fresh = record {
  bounded = λ spk entry h. absurd (none-ne-some entry h);
  returns = λ i w txout h. absurd (none-ne-some w h);
}
Built-Sound _ (registered engine id wollet gap ret built) =
    register-Sound engine id wollet (map_err SyncError.wollet (Wollet.watched_scripts wollet gap))
      ret (Built-Sound engine built)

-- If unblinding with each registered wollet returns (it may fail), then every engine that `new`
-- and any calls of `register_wallet` make, failed ones included, is wired: each script of its
-- index names a registered wollet.
pub Built-IsWired : (engine : BlockScanEngine) → Built engine → IsWired engine
unfolding IsBounded AllReturn
Built-IsWired engine built =
    let s = Built-Sound engine built in
    record {
      registered =
          λ spk entry h. element_exists engine.wollets entry.wollet_idx (s.bounded spk entry h);
      returns = s.returns;
    }
