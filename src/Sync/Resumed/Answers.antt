-- ===== src/Sync/Resumed/Answers.antt =====
-- A source of blocks that fails at some calls, and the calls of a pass that only ask it.
use emvault_elements.Prelude.{
  ℕ, zero, suc, ◌+◌, ◌≡◌, refl, ap, ◌∙◌, ◌⊎◌, inl, inr, Bool, true, false, Option, none, some,
  if◌then◌else◌, ◌==◌, wrap32,
}
use emvault_elements.Prelude.Tests.{nat_eq}
use emvault_elements.Prelude.Result.{Result, ok, err, panic}
use emvault_elements.Prelude.Exec.{Exec, pure, continue, ◌>>=◌, ◌>>◌}
use emvault_elements.Error.{SyncError}
use emvault_elements.Sync.Types.{ElementsChainSource, SyncedTip}
use emvault_elements.Sync.Engine.{start_height, find_common_ancestor, is_shared}
use emvault_elements.Sync.Fakes.{World, mock_chain, mem_blocks, mem_utxos, block_hash_at}

-- A call answers as the node of the world does, or, where failing is possible, with an error;
-- either way the stores stay as they are.
abbrev pub Answers :
    Type 0 → {A : Type 0} → Exec World SyncError A → Exec World SyncError A → Type 0
Answers F m node = (w : World) → (m w ≡ node w) ⊎ (F × (e : SyncError) × (m w ≡ (err e, w)))

-- A source of blocks that may fail at any call, if there is a value of `F`.
pub record Flaky (F : Type 0) (chain : ElementsChainSource World) : Type 0 where
  pub tips : Answers F chain.tip_height mock_chain.tip_height
  pub hashes : (h : ℕ) → Answers F (chain.block_hash h) (mock_chain.block_hash h)
  pub blocks : (hash : ℕ) → Answers F (chain.block hash) (mock_chain.block hash)

-- A call that writes nothing
abbrev Reads : {A : Type 0} → Exec World SyncError A → Type 0
Reads m = (w : World) → (m w).1 ≡ w

module _ {A B : Type 0} (f : A → Exec World SyncError B) (rest : (a : A) → Reads (f a)) where
  continue-Reads : (r : Result SyncError A) (v w : World) → v ≡ w → (continue r f v).1 ≡ w
  continue-Reads (ok a) v w same = rest a v ∙ same
  continue-Reads (err e) v w same = same
  continue-Reads panic v w same = same

  bind-Reads : (m : Exec World SyncError A) → Reads m → Reads (m >>= f)
  bind-Reads m h w = continue-Reads (m w).0 (m w).1 w (h w)

stored-Reads :
    (h : ℕ) (stored : Option ℕ)
    → Reads (elim stored [
      | none ↦ pure false
      | some hash ↦ mock_chain.block_hash h >>= λ current. pure (hash == current)
    ])
stored-Reads h none w = refl
stored-Reads h (some hash) w =
    bind-Reads (λ current. pure (hash == current)) (λ current w. refl) (mock_chain.block_hash h)
      (λ w. refl) w

module _ (F : Type 0) {A B : Type 0} (f g : A → Exec World SyncError B)
    (rest : (a : A) → Answers F (f a) (g a)) where
  continue-Answers :
      (r : Result SyncError A) (v w : World)
      → v ≡ w
      → (continue r f v ≡ continue r g v) ⊎ (F × (e : SyncError) × (continue r f v ≡ (err e, w)))
  continue-Answers (ok a) v w same = elim (rest a v) [
    | inl e ↦ inl e
    | inr (x, e, failed) ↦ inr (x, e, failed ∙ ap (λ u. (err e, u)) same)
  ]
  continue-Answers (err e) v w same = inl refl
  continue-Answers panic v w same = inl refl

  -- One call after another, where the first one only reads
  bind-Answers :
      (m n : Exec World SyncError A) → Answers F m n → Reads n → Answers F (m >>= f) (n >>= g)
  bind-Answers m n h reads w = elim (h w) [
    | inl e ↦ rw e (continue-Answers (n w).0 (n w).1 w (reads w))
    | inr (x, e, failed) ↦ inr (x, e, rw failed refl)
  ]

module _ (F : Type 0) (chain : ElementsChainSource World) (flaky : Flaky F chain) where
  same-Answers : {A : Type 0} (m : Exec World SyncError A) → Answers F m m
  same-Answers m w = inl refl

  compared :
      (h hash : ℕ)
      → Answers F
          (chain.block_hash h >>= λ current. pure (hash == current))
          (mock_chain.block_hash h >>= λ current. pure (hash == current))
  compared h hash =
      bind-Answers F (λ current. pure (hash == current)) (λ current. pure (hash == current))
        (λ current. same-Answers (pure (hash == current))) (chain.block_hash h)
        (mock_chain.block_hash h) (flaky.hashes h) (λ w. refl)

  tested :
      (h : ℕ) (stored : Option ℕ)
      → Answers F
          (elim stored [
            | none ↦ pure false
            | some hash ↦ chain.block_hash h >>= λ current. pure (hash == current)
          ])
          (elim stored [
            | none ↦ pure false
            | some hash ↦ mock_chain.block_hash h >>= λ current. pure (hash == current)
          ])
  tested h none = same-Answers (pure false)
  tested h (some hash) = compared h hash

  is_shared-Answers :
      (h : ℕ) → Answers F (is_shared chain mem_blocks h) (is_shared mock_chain mem_blocks h)
  unfolding is_shared
  is_shared-Answers h w = tested h (block_hash_at w.store h) w

  shared-Reads : (h : ℕ) → Reads (is_shared mock_chain mem_blocks h)
  unfolding is_shared
  shared-Reads h w = stored-Reads h (block_hash_at w.store h) w

  walked :
      (b : Bool) (h : ℕ) (m n : Exec World SyncError ℕ)
      → Answers F m n
      → Answers F
          (elim b [ true ↦ pure (suc h) | false ↦ m ])
          (elim b [ true ↦ pure (suc h) | false ↦ n ])
  walked true h m n r = same-Answers (pure (suc h))
  walked false h m n r = r

  ancestor-Answers :
      (h : ℕ)
      → Answers F
          (find_common_ancestor chain mem_blocks h)
          (find_common_ancestor mock_chain mem_blocks h)
  unfolding find_common_ancestor
  ancestor-Answers zero =
      bind-Answers F (λ _. pure zero) (λ _. pure zero) (λ _. same-Answers (pure zero))
        (is_shared chain mem_blocks zero) (is_shared mock_chain mem_blocks zero)
        (is_shared-Answers zero) (shared-Reads zero)
  ancestor-Answers (suc h) =
      bind-Answers F _ _
        (λ b.
          walked b h (find_common_ancestor chain mem_blocks h)
            (find_common_ancestor mock_chain mem_blocks h) (ancestor-Answers h))
        (is_shared chain mem_blocks (suc h)) (is_shared mock_chain mem_blocks (suc h))
        (is_shared-Answers (suc h)) (shared-Reads (suc h))

  choose-Reads :
      (b : Bool) (h : ℕ) (m : Exec World SyncError ℕ)
      → Reads m
      → Reads (elim b [ true ↦ pure (suc h) | false ↦ m ])
  choose-Reads true h m r w = refl
  choose-Reads false h m r w = r w

  ancestor-Reads : (h : ℕ) → Reads (find_common_ancestor mock_chain mem_blocks h)
  unfolding find_common_ancestor
  ancestor-Reads zero =
      bind-Reads (λ _. pure zero) (λ _ w. refl) (is_shared mock_chain mem_blocks zero)
        (shared-Reads zero)
  ancestor-Reads (suc h) =
      bind-Reads _
        (λ b. choose-Reads b h (find_common_ancestor mock_chain mem_blocks h) (ancestor-Reads h))
        (is_shared mock_chain mem_blocks (suc h)) (shared-Reads (suc h))

  rolled : ℕ → Exec World SyncError (ℕ × Option ℕ)
  rolled ancestor = do
    mem_blocks.rollback_above ancestor
    mem_utxos.rollback_above ancestor
    pure (wrap32 (ancestor + 1), some ancestor)

  began :
      (b : Bool) (t : ℕ)
      → Answers F
          (if b
            then pure (wrap32 (t + 1), none)
            else (find_common_ancestor chain mem_blocks t >>= rolled))
          (if b
            then pure (wrap32 (t + 1), none)
            else (find_common_ancestor mock_chain mem_blocks t >>= rolled))
  began true t = same-Answers (pure (wrap32 (t + 1), none))
  began false t =
      bind-Answers F rolled rolled (λ a. same-Answers (rolled a))
        (find_common_ancestor chain mem_blocks t) (find_common_ancestor mock_chain mem_blocks t)
        (ancestor-Answers t) (ancestor-Reads t)

  -- The start of a pass writes only after its last question to the node.
  pub start-Answers :
      (synced : Option SyncedTip)
      → Answers F
          (start_height chain mem_blocks mem_utxos synced)
          (start_height mock_chain mem_blocks mem_utxos synced)
  unfolding start_height rolled
  start-Answers none = same-Answers (pure (0, none))
  start-Answers (some t) =
      bind-Answers F _ _ (λ hash. began (hash == t.hash) t.height) (chain.block_hash t.height)
        (mock_chain.block_hash t.height) (flaky.hashes t.height) (λ w. refl)
