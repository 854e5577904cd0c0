-- ===== src/Sync/Restart.antt =====
-- Where a pass starts: the blocks that the stores and the node still share.
use mathlib.Core.Option
use emvault_elements.Prelude.{
  ℕ, suc, ◌≤◌, ◌<◌, ◌^◌, ◌≡◌, refl, subst, sym, ap, ◌∙◌, inl, inr, false, Option, none, some, List,
  [], ◌∷◌, ◌++◌, arith, length, length-take, get_elem?, take, drop, take-append-drop, take_all,
  ◌==◌, Bool-cases, nat_eqb_iff,
}
use emvault_elements.Prelude.Tests.{nat_eq}
use emvault_elements.Prelude.Result.{ok}
use emvault_elements.Elements.{outpoint_eq, Block}
use emvault_elements.Sync.Types.{SyncedTip}
use emvault_elements.Sync.Scan.{BlockScanEngine}
use emvault_elements.Sync.Engine.{start_height}
use emvault_elements.Sync.Fakes.{World, mock_chain, mem_blocks, mem_utxos}
use emvault_elements.Sync.Ledger.{dated, IsOnce}
use emvault_elements.Sync.Chain.{hash_at}
use emvault_elements.Sync.Synced.{Holds}
use emvault_elements.Sync.Cursor.{Synced, last, tip_of, get_elem?-last}
use emvault_elements.Sync.Ancestor.{
  LastShared, find_common_ancestor-LastShared, node_hash, hash_exists,
}
use emvault_elements.Sync.Rollback.{rolled_back, rolled_back-Synced}

-- A block hash commits to the block and to all before it, so chains with one hash at a height
-- agree up to there; and the two chains share their genesis block.
pub record IsFork (old new : List Block) : Type 0 where
  pub commits :
      (h x : ℕ)
      → hash_at old h ≡ some x
      → hash_at new h ≡ some x
      → take (suc h) old ≡ take (suc h) new
  pub genesis : (x : ℕ) → hash_at old 0 ≡ some x → hash_at new 0 ≡ some x

module _ (engine : BlockScanEngine) (w : World) where
  -- The start of a pass: the stores hold `kept`, and `rest` is what is left to scan.
  pub record Restart (synced : Option SyncedTip) : Type 0 where
    pub kept : List Block
    pub rest : List Block
    pub after : World
    pub reorg_to : Option ℕ
    pub chain : w.source.chain ≡ kept ++ rest
    pub runs :
        start_height mock_chain mem_blocks mem_utxos synced w ≡ (ok (length kept, reorg_to), after)
    pub holds : Holds engine after kept
    pub cursor : after.store.tip ≡ tip_of kept
    pub source : after.source ≡ w.source

  pub start_fresh : Synced engine w [] → Restart none
  unfolding start_height
  start_fresh s = record {
    kept = [];
    rest = w.source.chain;
    after = w;
    reorg_to = none;
    chain = refl;
    runs = refl;
    holds = s.holds;
    cursor = s.cursor;
    source = refl;
  }

  module _ (b : Block) (bs : List Block) (synced : Synced engine w (b ∷ bs))
      (once : (t : ℕ) → IsOnce t (dated 0 (b ∷ bs))) (fork : IsFork (b ∷ bs) w.source.chain)
      (long : length (b ∷ bs) ≤ length w.source.chain)
      (short : length w.source.chain < 2 ^ 32) where
    abbrev pub tip : SyncedTip
    tip = record { height = length bs; hash = (last b bs).block_hash }

    -- Where the two chains have one hash, the node's chain starts with the stored blocks.
    shared_prefix :
        (k : ℕ)
        → k ≤ length bs
        → hash_at (b ∷ bs) k ≡ hash_at w.source.chain k
        → w.source.chain ≡ take (suc k) (b ∷ bs) ++ drop (suc k) w.source.chain
    shared_prefix k le same =
        let (x, e) = hash_exists (b ∷ bs) k (omega arith) in
        let old : hash_at (b ∷ bs) k ≡ some x.block_hash = ap (Option.map (λ c. c.block_hash)) e in
        sym (take-append-drop (suc k) w.source.chain)
        ∙ ap (λ l. l ++ drop (suc k) w.source.chain)
            (sym (fork.commits k x.block_hash old (sym same ∙ old)))

    kept_length : (k : ℕ) → k ≤ length bs → length (take (suc k) (b ∷ bs)) ≡ suc k
    kept_length k le = omega (arith, length-take k bs)

    module _ (x : Block) (e : get_elem? w.source.chain (length bs) ≡ some x) where
      same_tip :
          x.block_hash ≡ (last b bs).block_hash
          → start_height mock_chain mem_blocks mem_utxos (some tip) w
            ≡ (ok (length (b ∷ bs), none), w)
      unfolding start_height
      same_tip same =
          rw (node_hash w (length bs) x e, (nat_eqb_iff _ _).1 same)
            (ap (λ n. (ok (n, none), w)) (omega arith))

      -- The node still has the synced tip: nothing is rolled back.
      start_after : x.block_hash ≡ (last b bs).block_hash → Restart (some tip)
      start_after same = record {
        kept = b ∷ bs;
        rest = drop (suc (length bs)) w.source.chain;
        after = w;
        reorg_to = none;
        chain =
            shared_prefix (length bs) (omega arith) (
              ap (Option.map (λ c. c.block_hash)) (get_elem?-last b bs)
              ∙ (ap some (sym same) ∙ sym (ap (Option.map (λ c. c.block_hash)) e)))
            ∙ ap (λ l. l ++ drop (suc (length bs)) w.source.chain) (take_all (b ∷ bs));
        runs = same_tip same;
        holds = synced.holds;
        cursor = synced.cursor;
        source = refl;
      }

      module _ (other : (x.block_hash == (last b bs).block_hash) ≡ false)
          (anc : LastShared w (length bs)) where
        k : ℕ
        k = anc.at

        agree : hash_at (b ∷ bs) k ≡ hash_at w.source.chain k
        unfolding k
        agree = elim anc.shared [
          | inl zero_ ↦
              subst (λ n. hash_at (b ∷ bs) n ≡ hash_at w.source.chain n) (sym zero_)
                (sym (fork.genesis b.block_hash refl))
          | inr same ↦ sym (synced.holds.hashes anc.at) ∙ same
        ]

        forked :
            start_height mock_chain mem_blocks mem_utxos (some tip) w
            ≡ (ok (suc k, some k), rolled_back w k)
        unfolding start_height k
        forked =
            rw (node_hash w (length bs) x e, other, anc.runs)
              (ap (λ n. (ok (n, some anc.at), rolled_back w anc.at)) (omega (arith, anc.bound)))

        split_chain : take (suc k) (b ∷ bs) ++ drop (suc k) (b ∷ bs) ≡ b ∷ bs
        split_chain = take-append-drop (suc k) (b ∷ bs)

        back : Synced engine (rolled_back w k) (take (suc k) (b ∷ bs))
        unfolding k
        back =
            rolled_back-Synced engine w k (take (suc k) (b ∷ bs)) (drop (suc k) (b ∷ bs))
              (kept_length k anc.bound)
              (subst (λ l. (t : ℕ) → IsOnce t (dated 0 l)) (sym split_chain) once)
              (subst (Synced engine w) (sym split_chain) synced)

        -- The node has another block at the synced height: the stores go back to the ancestor.
        start_forked : Restart (some tip)
        unfolding k
        start_forked = record {
          kept = take (suc k) (b ∷ bs);
          rest = drop (suc k) w.source.chain;
          after = rolled_back w k;
          reorg_to = some k;
          chain = shared_prefix k anc.bound agree;
          runs = rw (kept_length k anc.bound) forked;
          holds = back.holds;
          cursor = back.cursor;
          source = refl;
        }

    pub start_again : Restart (some tip)
    start_again =
        let (x, e) = hash_exists w.source.chain (length bs) (omega arith) in
        elim (Bool-cases (x.block_hash == (last b bs).block_hash)) [
          | inl same ↦ start_after x e ((nat_eqb_iff _ _).0 same)
          | inr other ↦
              start_forked x e other (find_common_ancestor-LastShared w (length bs) (omega arith))
        ]
