-- ===== src/Sync/Refinement.antt =====
-- One pass of `sync` on the in-memory stores and a scripted chain.
use emvault_elements.Prelude.{
  ℕ, suc, ◌+◌, ◌-◌, ◌≤◌, ◌<◌, ◌^◌, ◌≡◌, refl, subst, sym, ap, ◌∙◌, true, false, none, some, List,
  [], ◌∷◌, ◌++◌, arith, length, length-append, get_elem?, leb, ltb, All, wrap32,
}
use emvault_elements.Prelude.Result.{ok}
use emvault_elements.Prelude.Map
use emvault_elements.Prelude.Map.{IsUnique, values}
use emvault_elements.Prelude.Map.Laws.{contains_key-collect, All-entries}
use emvault_elements.Elements.{OutPoint, outpoint_eq, outpoint_eqb_iff, Block}
use emvault_elements.Sync.Scan.{BlockScanEngine}
use emvault_elements.Sync.Engine.{SyncSummary, empty_summary, advance, sync}
use emvault_elements.Sync.Fakes.{
  World, UtxoMap, mock_chain, mem_blocks, mem_utxos, block_hash_at, tip_height, unspent_outpoints,
}
use emvault_elements.Sync.Ledger.{dated, IsOnce}
use emvault_elements.Sync.Ledger.Steps.{IsKeyed, ledger-IsKeyed}
use emvault_elements.Sync.Agreement.{is_unspent}
use emvault_elements.Sync.Agreement.Outputs.{IsWired}
use emvault_elements.Sync.Chain.{IsChain}
use emvault_elements.Sync.Synced.{Holds, Indexes}
use emvault_elements.Sync.Synced.Loop.{Scanned, scan_blocks_total}
use emvault_elements.Sync.Ancestor.{node_hash}
use emvault_elements.Sync.Restart.{Restart, IsFork, start_fresh, start_again}
use emvault_elements.Sync.Cursor.{Synced}
use emvault_elements.Sync.Cursor.{last, get_elem?-last}

pub unspent_keys :
    (m : UtxoMap) (op : OutPoint)
    → IsUnique m
    → All (λ p. p.1.utxo.outpoint ≡ p.0) m
    → Map.contains_key op (unspent_outpoints m) ≡ is_unspent (Map.get op m)
unfolding unspent_outpoints Map.contains_key Map.get
unspent_keys [] op u k = refl
unspent_keys ((j, e) ∷ m) op u k =
    ground
      (arith, unspent_keys m op u.1 k.1, outpoint_eqb_iff j op, outpoint_eqb_iff e.utxo.outpoint op)

module _ (engine : BlockScanEngine) where
  pub stored_keys :
      (w : World) (bs : List Block) → Holds engine w bs → All (λ p. p.1.utxo.outpoint ≡ p.0) w.utxos
  stored_keys w bs held =
      All-entries (λ op e. e.utxo.outpoint ≡ op) w.utxos held.unique
        λ op e found.
          subst (IsKeyed op) (sym (held.ledgers op) ∙ found)
            (ledger-IsKeyed engine op (dated 0 bs) none tt)

  -- The spend index that a pass starts with lists the unspent outpoints.
  collect-Indexes :
      (w : World) (bs : List Block)
      → Holds engine w bs
      → Indexes (Map.collect (unspent_outpoints w.utxos)) w.utxos
  collect-Indexes w bs held op =
      contains_key-collect op (unspent_outpoints w.utxos)
      ∙ unspent_keys w.utxos op held.unique (stored_keys w bs held)

  -- A pass returned, and left its stores synced with the node's chain.
  pub record Caught (w : World) : Type 0 where
    pub after : World
    pub summary : SyncSummary
    pub runs : sync mock_chain mem_blocks mem_utxos engine w ≡ (ok summary, after)
    pub synced : Synced engine after w.source.chain
    pub source : after.source ≡ w.source

  module _ (wired : IsWired engine) (w : World) (b : Block) (bs : List Block)
      (here : w.source.chain ≡ b ∷ bs) (valid : IsChain w.source.chain) where
    pub tip_here : tip_height w.source ≡ ok (length bs)
    unfolding tip_height
    tip_here = rw here (ground (arith, valid.short, ap length here))

    -- The cursor moves to the tip.
    advanced : World → World
    advanced v = record v {
      store = record (v.store) {
        tip = some (record { height = length bs; hash = (last b bs).block_hash });
      };
    }

    advance_lem :
        (v : World)
        → v.source ≡ w.source
        → advance mock_chain mem_blocks mem_utxos engine (length bs) v ≡ (ok tt, advanced v)
    unfolding advance advanced
    advance_lem v same =
        rw
          (node_hash v (length bs) (last b bs) (
            ap (λ c. get_elem? c.chain (length bs)) same
            ∙ (ap (λ l. get_elem? l (length bs)) here ∙ get_elem?-last b bs)))
          refl

    module _ (start : Restart engine w w.store.tip) where
      first : SyncSummary
      first = record empty_summary { reorg_to = start.reorg_to }

      total : length start.kept + length start.rest ≡ suc (length bs)
      total =
          sym (length-append start.kept start.rest) ∙ (ap length (sym start.chain) ∙ ap length here)

      scanned :
          Scanned engine wired start.after
            (length start.rest)
            (length start.kept)
            (Map.collect (unspent_outpoints start.after.utxos))
            first
            (start.kept ++ start.rest)
      scanned =
          scan_blocks_total engine wired start.rest start.kept start.after _ first
            (ap (λ c. c.chain) start.source ∙ start.chain) (subst IsChain start.chain valid)
            start.holds (collect-Indexes start.after start.kept start.holds)

      no_clamp : ltb (wrap32 (length bs + 1)) (length start.kept) ≡ false
      no_clamp = ground (arith, total, valid.short, ap length here)

      rounds : suc (length bs) - length start.kept ≡ length start.rest
      rounds = omega (arith, total)

      reached : leb (length start.kept) (wrap32 (length bs + 1)) ≡ true
      reached = ground (arith, total, valid.short, ap length here)

      runs :
          sync mock_chain mem_blocks mem_utxos engine w
          ≡ (ok scanned.summary, advanced scanned.after)
      unfolding sync first
      runs =
          rw
            (
              tip_here,
              start.runs,
              no_clamp,
              rounds,
              scanned.runs,
              reached,
              advance_lem scanned.after (scanned.source ∙ start.source),
            )
            refl

      catch_up : Caught w
      unfolding advanced block_hash_at
      catch_up = record {
        after = advanced scanned.after;
        summary = scanned.summary;
        runs = runs;
        synced = record {
          holds = subst (Holds engine _) (sym start.chain) (record {
            hashes = scanned.holds.hashes;
            ledgers = scanned.holds.ledgers;
            unique = scanned.holds.unique;
            unique_heights = scanned.holds.unique_heights;
          });
          cursor = rw here;
        };
        source = scanned.source ∙ start.source;
      }

  pub restart :
      (w : World) (old : List Block)
      → Synced engine w old
      → ((t : ℕ) → IsOnce t (dated 0 old))
      → IsFork old w.source.chain
      → length old ≤ length w.source.chain
      → length w.source.chain < 2 ^ 32
      → Restart engine w w.store.tip
  restart w [] synced once fork long short =
      subst (Restart engine w) (sym synced.cursor) (start_fresh engine w synced)
  restart w (b ∷ bs) synced once fork long short =
      subst (Restart engine w) (sym synced.cursor)
        (start_again engine w b bs synced once fork long short)

pub nonempty :
    (bs : List Block) → 0 < length bs → (b : Block) × (rest : List Block) × (bs ≡ b ∷ rest)
nonempty [] h = elim h [ ]
nonempty (b ∷ rest) h = (b, rest, refl)

-- Let every entry of the engine's index name a registered wollet, and unblinding return (it may
-- fail). Let the stores be synced with a chain `old` (none of its transaction identifiers
-- repeats), and let the node have any chain that is well formed (`IsChain`), not empty, not
-- shorter than `old`, and a fork of it (an extension, or a reorganisation above the genesis
-- block). Then one pass of `sync` returns without an error or a panic, and leaves the stores
-- synced with the node's chain: for every outpoint the store holds exactly what the ledger of the
-- new chain says, every stored hash and the cursor are the new chain's, and the node is left as
-- it was.
pub sync-Synced :
    (engine : BlockScanEngine)
    → IsWired engine
    → (w : World) (old : List Block) → Synced engine w old
    → ((t : ℕ) → IsOnce t (dated 0 old))
    → IsChain w.source.chain
    → IsFork old w.source.chain
    → length old ≤ length w.source.chain
    → 0 < length w.source.chain
    → Caught engine w
sync-Synced engine wired w old synced once valid fork long some_block =
    let (b, rest, here) = nonempty w.source.chain some_block in
    catch_up engine wired w b rest here valid
      (restart engine w old synced once fork long valid.short)
