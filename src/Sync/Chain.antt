-- ===== src/Sync/Chain.antt =====
-- Chains as the theorems on the pipeline use them.
use mathlib.Core.Option
use emvault_elements.Prelude.{
  ℕ, zero, suc, ◌+◌, ◌≤◌, ◌<◌, ◌^◌, ◌≡◌, refl, sym, ap, ◌∙◌, ◌≢◌, Option, some, List, [], ◌∷◌, ◌++◌,
  map, append_assoc, append-nil, arith, length, get_elem?, find, All, All-append, if◌then◌else◌,
  ◌==◌, nat_eqb_iff,
}
use native.Mathlib.Nat.{zero-add}
use emvault_elements.Prelude.Tests.{nat_eq}
use emvault_elements.Elements.{Block, Transaction}
use emvault_elements.Sync.Ledger.{Dated, dated, IsOnce}
use emvault_elements.Sync.Agreement.Blocks.{IsSized}

abbrev pub hash_at : List Block → ℕ → Option ℕ
hash_at bs h = Option.map (λ b. b.block_hash) (get_elem? bs h)

-- No two blocks have one hash.
abbrev pub IsDistinct : List Block → Type 0
IsDistinct [] = Unit
IsDistinct (b ∷ bs) = All (λ x. x.block_hash ≢ b.block_hash) bs × IsDistinct bs

-- What consensus gives of a chain: block hashes and transaction identifiers do not repeat, and
-- output indices and heights fit in a `u32` (with one to spare).
pub record IsChain (bs : List Block) : Type 0 where
  pub distinct : IsDistinct bs
  pub once : (t : ℕ) → IsOnce t (dated 0 bs)
  pub sized : All (λ b. All IsSized b.txdata) bs
  pub short : length bs < 2 ^ 32

pub find_distinct :
    (before after : List Block) (b : Block)
    → IsDistinct (before ++ b ∷ after)
    → find (λ x. x.block_hash == b.block_hash) (before ++ b ∷ after) ≡ some b
find_distinct [] after b d = ground (arith, nat_eqb_iff b.block_hash b.block_hash)
find_distinct (x ∷ before) after b d =
    ground (arith, find_distinct before after b d.1, other before d.0)
  where
    other :
        (bs : List Block)
        → All (λ y. y.block_hash ≢ x.block_hash) (bs ++ b ∷ after)
        → b.block_hash ≢ x.block_hash
    other [] a = a.0
    other (y ∷ bs) a = other bs a.1

module _ {ℓ} {A : Type ℓ} where
  pub get_elem?-append_last :
      (xs : List A) (b : A) (i : ℕ)
      → get_elem? (xs ++ b ∷ []) i ≡ (if length xs == i then some b else get_elem? xs i)
  get_elem?-append_last [] b zero = refl
  get_elem?-append_last [] b (suc i) = ground arith
  get_elem?-append_last (x ∷ xs) b zero = ground arith
  get_elem?-append_last (x ∷ xs) b (suc i) = ground (arith, get_elem?-append_last xs b i)

pub dated-append :
    (h : ℕ) (xs ys : List Block) → dated h (xs ++ ys) ≡ dated h xs ++ dated (h + length xs) ys
unfolding dated
dated-append h [] ys = ap (λ n. dated n ys) (omega arith)
dated-append h (b ∷ xs) ys =
    ap (λ l. map (λ tx. (h, tx)) b.txdata ++ l)
      (dated-append (suc h) xs ys ∙ ap (λ n. dated (suc h) xs ++ dated n ys) (omega arith))
    ∙ sym (
        append_assoc (map (λ tx. (h, tx)) b.txdata) (dated (suc h) xs)
          (dated (h + length (b ∷ xs)) ys))

-- The transactions of a chain, divided at a block.
module _ (before after : List Block) (b : Block) where
  pub dated-last :
      dated 0 (before ++ b ∷ []) ≡ dated 0 before ++ map (λ tx. (length before, tx)) b.txdata
  unfolding dated
  dated-last =
      dated-append 0 before (b ∷ [])
      ∙ (ap (λ n. dated 0 before ++ (map (λ tx. (n, tx)) b.txdata ++ [])) (zero-add (length before))
          ∙ ap (λ l. dated 0 before ++ l) (append-nil (map (λ tx. (length before, tx)) b.txdata)))

  pub dated-middle :
      dated 0 (before ++ b ∷ after)
      ≡ dated 0 before
        ++ (map (λ tx. (length before, tx)) b.txdata ++ dated (suc (length before)) after)
  unfolding dated
  dated-middle =
      dated-append 0 before (b ∷ after)
      ∙ ap (λ n. dated 0 before ++ (map (λ tx. (n, tx)) b.txdata ++ dated (suc n) after))
          (zero-add (length before))

module _ (P : ℕ → Type 0) where
  stamped :
      (h : ℕ) (txs : List Transaction)
      → P h
      → All {A = Dated} (λ d. P d.0) (map (λ tx. (h, tx)) txs)
  stamped h [] p = tt
  stamped h (tx ∷ txs) p = (p, stamped h txs p)

  -- The heights of a chain's transactions.
  pub dated-All :
      (h : ℕ) (bs : List Block)
      → ((i : ℕ) → h ≤ i → i < h + length bs → P i)
      → All {A = Dated} (λ d. P d.0) (dated h bs)
  unfolding dated
  dated-All h [] p = tt
  dated-All h (b ∷ bs) p =
      All-append {A = Dated} (λ d. P d.0) (map (λ tx. (h, tx)) b.txdata) (dated (suc h) bs)
        (stamped h b.txdata (p h (omega arith) (omega arith)))
        (dated-All (suc h) bs (λ i l u. p i (omega arith) (omega arith)))
