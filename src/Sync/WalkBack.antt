-- ===== src/Sync/WalkBack.antt =====
-- The loop of `find_common_ancestor` as it is written, one round at a time.
use emvault_elements.Prelude.{
  ℕ, zero, suc, ◌-◌, ◌<◌, ◌≡◌, refl, ap, ◌∙◌, Bool, true, false, Option, none, some, arith,
  if◌then◌else◌, ◌==◌,
}
use emvault_elements.Prelude.Tests.{nat_eq}
use emvault_elements.Prelude.Result.{Result, ok, err, panic}
use emvault_elements.Prelude.Exec.{Exec, pure, continue, ◌>>=◌}
use emvault_elements.Error.{SyncError}
use emvault_elements.Sync.Types.{ElementsChainSource, BlockStore}
use emvault_elements.Sync.Engine.{is_shared, find_common_ancestor}

-- A round returns a height, or goes on with the next one.
pub data Round : Type 0 where
  returns : ℕ → Round
  goes_on : ℕ → Round

module _ {S : Type 0} (chain : ElementsChainSource S) (blocks : BlockStore S) where
  abbrev pub decide : ℕ → Bool → Round
  decide h shared = if shared then returns h else if h == 0 then returns 0 else goes_on (h - 1)

  unfoldable pub round : ℕ → Exec S SyncError Round
  round h = do shared ← is_shared chain blocks h; pure (decide h shared)

  -- The loop, stopped after `n` rounds: `none` means that it has not returned.
  unfoldable pub walk_back : ℕ → ℕ → Exec S SyncError (Option ℕ)
  walk_back zero h = pure none
  walk_back (suc n) h = do
    r ← round h
    elim r [ returns a ↦ pure (some a) | goes_on h' ↦ walk_back n h' ]

  abbrev continued : ℕ → Round → Exec S SyncError (Option ℕ)
  continued n r = elim r [ returns a ↦ pure (some a) | goes_on h' ↦ walk_back n h' ]

  -- The answer of the test at a height, and the rest of the loop
  last_round :
      (n : ℕ) (r : Result SyncError Bool) (v : S)
      → continue
          (continue r (λ shared. pure (decide zero shared)) v).0
          (continued n)
          (continue r (λ shared. pure (decide zero shared)) v).1
        ≡ continue
            (continue r (λ _. pure zero) v).0
            (λ h. pure (some h))
            (continue r (λ _. pure zero) v).1
  last_round n (ok true) v = refl
  last_round n (ok false) v = refl
  last_round n (err e) v = refl
  last_round n panic v = refl

  abbrev found : ℕ → Bool → Exec S SyncError ℕ
  found h shared = elim shared [ true ↦ pure (suc h) | false ↦ find_common_ancestor chain blocks h ]

  higher_round :
      (n h : ℕ) (r : Result SyncError Bool) (v : S)
      → (walk_back n h v ≡ (find_common_ancestor chain blocks h >>= λ a. pure (some a)) v)
      → continue
          (continue r (λ shared. pure (decide (suc h) shared)) v).0
          (continued n)
          (continue r (λ shared. pure (decide (suc h) shared)) v).1
        ≡ continue (continue r (found h) v).0 (λ a. pure (some a)) (continue r (found h) v).1
  higher_round n h (ok true) v ih = refl
  higher_round n h (ok false) v ih =
      let lower : decide (suc h) false ≡ goes_on h = ground arith in
      ap (λ r. continued n r v) lower ∙ ih
  higher_round n h (err e) v ih = refl
  higher_round n h panic v ih = refl

  -- Whatever the node and the store answer: from a height h the loop returns, fails or panics
  -- within h + 1 rounds, with the outcome and the effects of `find_common_ancestor`.
  pub walk_back_lem :
      (n from : ℕ) (w : S)
      → from < n
      → walk_back n from w ≡ (find_common_ancestor chain blocks from >>= λ h. pure (some h)) w
  unfolding walk_back round find_common_ancestor
  walk_back_lem zero from w lt = elim lt [ ]
  walk_back_lem (suc n) zero w lt =
      last_round n (is_shared chain blocks zero w).0 (is_shared chain blocks zero w).1
  walk_back_lem (suc n) (suc h) w lt =
      higher_round n h (is_shared chain blocks (suc h) w).0 (is_shared chain blocks (suc h) w).1
        (walk_back_lem n h _ (omega arith))
