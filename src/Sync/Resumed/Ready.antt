-- ===== src/Sync/Resumed/Ready.antt =====
-- Stores that a pass can start from: it finds a part of the chain that they hold.
use emvault_elements.Prelude.{
  ℕ, ◌+◌, ◌≤◌, ◌<◌, ◌^◌, ◌≡◌, refl, subst, sym, ap, ◌∙◌, inl, inr, Option, none, some, List, [],
  ◌∷◌, ◌++◌, append-nil, arith, length, length-append, get_elem?, get_elem?-append_left,
  get_elem?-past, ltb, Option-cases, Bool-cases, nat_eqb_iff,
}
use emvault_elements.Prelude.Tests.{nat_eq}
use emvault_elements.Prelude.Result.{ok}
use emvault_elements.Elements.{OutPoint, outpoint_eq, Block}
use emvault_elements.Sync.Scan.{BlockScanEngine}
use emvault_elements.Sync.Engine.{start_height}
use emvault_elements.Sync.Fakes.{World, Entry, mock_chain, mem_blocks, mem_utxos, block_hash_at}
use emvault_elements.Sync.Ledger.{Dated, dated, ledger, IsOnce}
use emvault_elements.Sync.Ledger.Rollback.{IsSettled}
use emvault_elements.Sync.Ledger.Steps.{IsKeyed, ledger-IsSettled}
use emvault_elements.Sync.Chain.{dated-All}
use emvault_elements.Sync.Synced.{Holds}
use emvault_elements.Sync.Cursor.{Synced}
use emvault_elements.Sync.Cursor.{tip_of, last, get_elem?-last}
use emvault_elements.Sync.Ancestor.{node_hash}
use emvault_elements.Sync.Resumed.Within.{Within, IsMarked, Within-Reaches}
use emvault_elements.Sync.Resumed.Partial.{Partial, told}
use emvault_elements.Sync.Restart.{Restart}
use emvault_elements.Sync.Ledger.Fresh.{ledger-append, ledger-IsFresh}
use emvault_elements.Sync.Ledger.Later.{Later, ledger-Later}
use emvault_elements.Sync.Chain.{dated-append}
use emvault_elements.Sync.Resumed.Within.{Reaches-refl, Later-Within}

settled-IsMarked : (k : ℕ) (o : Option Entry) → IsSettled k o → IsMarked o
settled-IsMarked k none s = tt
settled-IsMarked k (some e) s = λ new. ground arith

pub Within-IsKeyed : (op : OutPoint) (l s : Option Entry) → IsKeyed op l → Within l s → IsKeyed op s
Within-IsKeyed op l none k w = tt
Within-IsKeyed op none (some s) k w = absurd w
Within-IsKeyed op (some e) (some s) k w = cc

module _ (engine : BlockScanEngine) where
  -- Stores that hold a whole chain as parts hold it.
  pub Partial-Holds : (w : World) (bs : List Block) → Partial engine w bs bs → Holds engine w bs
  unfolding dated
  Partial-Holds w bs p = record {
    hashes = λ h. elim (Bool-cases (ltb h (length bs))) [
      | inl inside ↦ p.low h (ground arith)
      | inr outside ↦ elim (Option-cases (block_hash_at w.store h)) [
        | inl e ↦ e ∙ rw (get_elem?-past bs h (ground arith)) refl
        | inr (x, e) ↦ e ∙ sym (p.high h x e)
      ]
    ];
    ledgers = λ op.
        Within-Reaches (told engine bs op) _
          (settled-IsMarked (length bs) _ (
            ledger-IsSettled engine op (length bs) none (dated 0 bs)
              (dated-All (λ h. h ≤ length bs) 0 bs (λ i _ u. omega arith)) tt))
          (p.within op) (p.reaches op);
    unique = p.unique;
    unique_heights = p.unique_heights;
  }

  module _ (base rest : List Block) (once : (t : ℕ) → IsOnce t (dated 0 (base ++ rest)))
      (op : OutPoint) where
    marked : IsMarked (told engine base op)
    unfolding dated
    marked = settled-IsMarked (length base) _ (
        ledger-IsSettled engine op (length base) none (dated 0 base)
          (dated-All (λ h. h ≤ length base) 0 base (λ i _ u. omega arith)) tt)

    known :
        (a : Option Entry)
        → told engine base op ≡ a
        → IsMarked a
        → Within (told engine (base ++ rest) op) a
    known none e m = tt
    known (some x) e m =
        let later : List Dated = dated (0 + length base) rest in
        let fresh =
          ledger-IsFresh engine op (dated 0 base) later none
            (inl refl, subst (IsOnce op.txid) (dated-append 0 base rest) (once op.txid)) in
        elim fresh.0 [
          | inl unknown ↦ absurd (cc)
          | inr absent ↦ Later-Within x _ m (
              subst (Later x)
                (sym (
                  ap (λ l. ledger engine op l none) (dated-append 0 base rest)
                  ∙ ledger-append engine op (dated 0 base) later none))
                (ledger-Later engine op x later _ absent (inl e)))
        ]

  -- Stores that hold a chain are ahead of it in nothing.
  Holds-Partial :
      (w : World) (base rest : List Block)
      → ((t : ℕ) → IsOnce t (dated 0 (base ++ rest)))
      → Holds engine w base
      → Partial engine w base (base ++ rest)
  Holds-Partial w base rest once held = record {
    within = λ op. rw (held.ledgers op) (known base rest once op _ refl (marked base rest once op));
    reaches = λ op. rw (held.ledgers op) (Reaches-refl _);
    low = λ h lt. held.hashes h ∙ rw (get_elem?-append_left base rest h lt) refl;
    high = λ h x found.
        ground (arith, held.hashes h, get_elem?-append_left base rest h, get_elem?-past base h);
    unique = held.unique;
    unique_heights = held.unique_heights;
  }

  -- The start of a pass finds a part of the chain that the stores hold, with traces of the rest.
  pub record Ready (w : World) (whole : List Block) : Type 0 where
    pub kept : List Block
    pub rest : List Block
    pub parts : kept ++ rest ≡ whole
    pub after : World
    pub reorg_to : Option ℕ
    pub runs :
        start_height mock_chain mem_blocks mem_utxos w.store.tip w
        ≡ (ok (length kept, reorg_to), after)
    pub held : Partial engine after kept whole
    pub cursor : after.store.tip ≡ tip_of kept
    pub source : after.source ≡ w.source

  pub Restart-Ready :
      (w : World)
      → ((t : ℕ) → IsOnce t (dated 0 w.source.chain))
      → Restart engine w w.store.tip
      → Ready w w.source.chain
  Restart-Ready w once r = record {
    kept = r.kept;
    rest = r.rest;
    parts = sym r.chain;
    after = r.after;
    reorg_to = r.reorg_to;
    runs = r.runs;
    held = subst (Partial engine r.after r.kept) (sym r.chain) (
        Holds-Partial r.after r.kept r.rest
          (λ t. subst (λ l. IsOnce t (dated 0 l)) r.chain (once t)) r.holds);
    cursor = r.cursor;
    source = r.source;
  }

  start :
      (w : World) (base rest : List Block)
      → w.source.chain ≡ base ++ rest
      → length base < 2 ^ 32
      → start_height mock_chain mem_blocks mem_utxos (tip_of base) w ≡ (ok (length base, none), w)
  unfolding start_height
  start w [] rest here short = refl
  start w (c ∷ cs) rest here short =
      let known = node_hash w (length cs) (last c cs) (
        ap (λ l. get_elem? l (length cs)) here
        ∙ (get_elem?-append_left (c ∷ cs) rest (length cs) (omega arith) ∙ get_elem?-last c cs)) in
      rw (known, (nat_eqb_iff (last c cs).block_hash _).1 refl)
        (ap (λ n. (ok (n, none), w)) (omega arith))

  -- The cursor is at the end of what is held.
  pub standing-Ready :
      (w : World) (base rest whole : List Block)
      → w.source.chain ≡ whole
      → base ++ rest ≡ whole
      → length whole < 2 ^ 32
      → Partial engine w base whole
      → w.store.tip ≡ tip_of base
      → Ready w whole
  standing-Ready w base rest whole here parts short held cursor = record {
    kept = base;
    rest = rest;
    parts = parts;
    after = w;
    reorg_to = none;
    runs =
        subst (λ t. start_height mock_chain mem_blocks mem_utxos t w ≡ (ok (length base, none), w))
          (sym cursor)
          (start w base rest (here ∙ sym parts)
            (omega (arith, length-append base rest, ap length parts)));
    held = held;
    cursor = cursor;
    source = refl;
  }

  -- Synced stores are ready to start again.
  pub Synced-Ready :
      (w : World) (whole : List Block)
      → w.source.chain ≡ whole
      → ((t : ℕ) → IsOnce t (dated 0 whole))
      → length whole < 2 ^ 32
      → Synced engine w whole
      → Ready w whole
  Synced-Ready w whole here once short s =
      standing-Ready w whole [] whole here (append-nil whole) short
        (subst (Partial engine w whole) (append-nil whole) (
          Holds-Partial w whole []
            (λ t. subst (λ l. IsOnce t (dated 0 l)) (sym (append-nil whole)) (once t)) s.holds))
        s.cursor
