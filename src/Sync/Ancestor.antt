-- ===== src/Sync/Ancestor.antt =====
-- `find_common_ancestor` on the in-memory stores and a scripted chain.
use emvault_elements.Prelude.{
  ℕ, zero, suc, ◌≤◌, ◌<◌, ◌≡◌, refl, subst, sym, ◌≢◌, ◌⊎◌, inl, inr, true, false, none, some, List,
  arith, length, get_elem?, ◌==◌, Bool-cases, Option-cases, nat_eqb_iff,
}
use emvault_elements.Prelude.Tests.{nat_eq}
use emvault_elements.Prelude.Result.{ok}
use emvault_elements.Elements.{Block}
use emvault_elements.Sync.Engine.{is_shared, find_common_ancestor}
use emvault_elements.Sync.Fakes.{World, mock_chain, mem_blocks, block_hash_at, block_hash}
use emvault_elements.Sync.Chain.{hash_at}

-- The answer of the walk: it leaves the world alone, stops at or below `from`, and above its stop
-- the stored hash is not the node's; it stops at a shared hash, or at the genesis block.
pub record LastShared (w : World) (from : ℕ) : Type 0 where
  pub at : ℕ
  pub runs : find_common_ancestor mock_chain mem_blocks from w ≡ (ok at, w)
  pub bound : at ≤ from
  pub shared : (at ≡ 0) ⊎ (block_hash_at w.store at ≡ hash_at w.source.chain at)
  pub highest : (i : ℕ) → at < i → i ≤ from → block_hash_at w.store i ≢ hash_at w.source.chain i

pub hash_exists :
    (bs : List Block) (h : ℕ) → h < length bs → (b : Block) × (get_elem? bs h ≡ some b)
hash_exists List.[] h lt = elim lt [ ]
hash_exists (List.◌∷◌ b bs) zero lt = (b, refl)
hash_exists (List.◌∷◌ b bs) (suc h) lt = hash_exists bs h (omega arith)

module _ (w : World) where
  abbrev Shares : ℕ → Type 0
  Shares h =
      ((is_shared mock_chain mem_blocks h w ≡ (ok true, w))
        × (block_hash_at w.store h ≡ hash_at w.source.chain h))
      ⊎ ((is_shared mock_chain mem_blocks h w ≡ (ok false, w))
          × (block_hash_at w.store h ≢ hash_at w.source.chain h))

  pub node_hash :
      (h : ℕ) (b : Block)
      → get_elem? w.source.chain h ≡ some b
      → block_hash w.source h ≡ ok b.block_hash
  unfolding block_hash
  node_hash h b e = rw e

  absent_hash :
      (h : ℕ) (b : Block)
      → get_elem? w.source.chain h ≡ some b
      → block_hash_at w.store h ≡ none
      → Shares h
  unfolding is_shared
  absent_hash h b e stored = inr (rw stored, λ p. ground arith)

  stored_hash :
      (h x : ℕ) (b : Block)
      → get_elem? w.source.chain h ≡ some b
      → block_hash_at w.store h ≡ some x
      → Shares h
  unfolding is_shared
  stored_hash h x b e stored = elim (Bool-cases (x == b.block_hash)) [
    | inl same ↦
        inl (rw (stored, node_hash h b e, same), ground (arith, nat_eqb_iff x b.block_hash))
    | inr other ↦
        inr (rw (stored, node_hash h b e, other), λ p. ground (arith, nat_eqb_iff x b.block_hash))
  ]

  is_shared_cases : (h : ℕ) → h < length w.source.chain → Shares h
  is_shared_cases h lt =
      let (b, e) = hash_exists w.source.chain h lt in
      elim (Option-cases (block_hash_at w.store h)) [
        | inl stored ↦ absent_hash h b e stored
        | inr (x, stored) ↦ stored_hash h x b e stored
      ]

  -- From a height that the node has, the walk ends without an error and without a write, at or
  -- below that height. Above its stop the stored hash, if there is one, is not the node's; at
  -- its stop the two agree, unless the stop is 0.
  pub find_common_ancestor-LastShared :
      (from : ℕ) → from < length w.source.chain → LastShared w from
  unfolding find_common_ancestor
  find_common_ancestor-LastShared zero lt = elim (is_shared_cases zero lt) [
    | inl (yes_, _) ↦ record {
      at = 0;
      runs = rw (yes_, find_common_ancestor);
      bound = omega arith;
      shared = inl refl;
      highest = λ i above below. absurd (omega arith);
    }
    | inr (no_, _) ↦ record {
      at = 0;
      runs = rw (no_, find_common_ancestor);
      bound = omega arith;
      shared = inl refl;
      highest = λ i above below. absurd (omega arith);
    }
  ]
  find_common_ancestor-LastShared (suc h) lt =
      let below = find_common_ancestor-LastShared h (omega arith) in
      elim (is_shared_cases (suc h) lt) [
        | inl (yes_, same) ↦ record {
          at = suc h;
          runs = rw (yes_, find_common_ancestor);
          bound = omega arith;
          shared = inr same;
          highest = λ i above le. absurd (omega arith);
        }
        | inr (no_, differ) ↦ record {
          at = below.at;
          runs = rw (no_, find_common_ancestor) below.runs;
          bound = omega (arith, below.bound);
          shared = below.shared;
          highest = λ i above le. elim (Bool-cases (i == suc h)) [
            | inl top ↦
                subst (λ j. block_hash_at w.store j ≢ hash_at w.source.chain j)
                  (sym ((nat_eqb_iff _ _).0 top)) differ
            | inr lower ↦ below.highest i above (ground arith)
          ];
        }
      ]
