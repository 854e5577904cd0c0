-- ===== src/Sync/Interrupted/Calls.antt =====
-- What a call does to the store of blocks, however it ends.
use emvault_elements.Prelude.{Bool, true, false, if◌then◌else◌}
use emvault_elements.Prelude.Tests.{nat_eq}
use emvault_elements.Prelude.Result.{Result, ok, err, panic}
use emvault_elements.Prelude.Exec.{Exec, continue, ◌>>=◌}
use emvault_elements.Elements.{outpoint_eq}
use emvault_elements.Error.{SyncError}
use emvault_elements.Sync.Fakes.{World, MemBlockStore}

-- If `P` holds of the store of blocks when a call starts, then `Q` holds of it when the call ends,
-- however it ends.
abbrev pub Ends :
    (MemBlockStore → Type 0)
    → (MemBlockStore → Type 0)
    → {A : Type 0} → Exec World SyncError A
    → Type 0
Ends P Q m = (w : World) → P w.store → Q (m w).1.store

abbrev pub Steps : (MemBlockStore → Type 0) → {A : Type 0} → Exec World SyncError A → Type 0
Steps P m = Ends P P m

module _ (P Q : MemBlockStore → Type 0) {A : Type 0} where
  pub continue-Ends :
      {B : Type 0} (r : Result SyncError A) (f : A → Exec World SyncError B)
      → ((v : MemBlockStore) → P v → Q v)
      → ((a : A) → Ends P Q (f a))
      → Ends P Q (continue r f)
  continue-Ends (ok a) f over h = h a
  continue-Ends (err e) f over h = λ w p. over w.store p
  continue-Ends panic f over h = λ w p. over w.store p

  pub bind-Ends :
      {B : Type 0} (m : Exec World SyncError A) (f : A → Exec World SyncError B)
      → ((v : MemBlockStore) → P v → Q v)
      → Steps P m
      → ((a : A) → Ends P Q (f a))
      → Ends P Q (m >>= f)
  bind-Ends m f over h k w p = continue-Ends (m w).0 f over k (m w).1 (h w p)

  pub branch-Ends :
      (b : Bool) (m n : Exec World SyncError A)
      → Ends P Q m
      → Ends P Q n
      → Ends P Q (if b then m else n)
  branch-Ends true m n h k = h
  branch-Ends false m n h k = k

pub bind-Steps :
    (P : MemBlockStore → Type 0) {A B : Type 0} (m : Exec World SyncError A)
    (f : A → Exec World SyncError B)
    → Steps P m
    → ((a : A) → Steps P (f a))
    → Steps P (m >>= f)
bind-Steps P m f h k = bind-Ends P P m f (λ v p. p) h k

pub choose-Steps :
    (P : MemBlockStore → Type 0) {A : Type 0} (b : Bool) (m n : Exec World SyncError A)
    → Steps P m
    → Steps P n
    → Steps P (elim b [ true ↦ m | false ↦ n ])
choose-Steps P true m n h k = h
choose-Steps P false m n h k = k
