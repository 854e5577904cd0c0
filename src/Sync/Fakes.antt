-- ===== src/Sync/Fakes.antt =====
-- sync/fakes.rs: the in-memory stores and the scripted chain, the reference behaviour of the three
-- interfaces. A `Mutex` is taken and released within each call.
pub mod Laws
pub mod Tip
use emvault_elements.Prelude.{
  ℕ, ◌+◌, ◌-◌, ◌^◌, Bool, true, false, not, ◌&&◌, Option, none, some, List, [], ◌∷◌, ◌++◌, map,
  length, is_empty, filter, find, get_elem?, take, leb, ltb, if◌then◌else◌, ◌==◌, Bytes, codes,
  decimal,
}
use mathlib.Core.Option
use emvault_elements.Prelude.Tests.{nat_eq}
use emvault_elements.Prelude.Result.{Result, ok, err, ok_or}
use emvault_elements.Prelude.Map
use emvault_elements.Prelude.Map.{Map}
use emvault_elements.Elements.{OutPoint, outpoint_eq, Block, Transaction}
use emvault_elements.Error.{SyncError}
use emvault_elements.Sync.Types.{
  WalletId, wallet_eq, CapturedUtxo, SyncedTip, WalletUtxoStore, BlockStore, ElementsChainSource,
}

pub record Entry : Type 0 where
  pub utxo : CapturedUtxo
  pub spent_height : Option ℕ

-- `MemUtxoStore`
abbrev pub UtxoMap : Type 0
UtxoMap = Map OutPoint Entry

abbrev pub fresh_entry : CapturedUtxo → Entry
fresh_entry u = record { utxo = u; spent_height = none }

-- `map.entry(u.outpoint).and_modify(..).or_insert_with(..)`
unfoldable pub upsert : UtxoMap → CapturedUtxo → UtxoMap
upsert m u = elim (Map.get u.outpoint m) [
  | none ↦ Map.insert u.outpoint (fresh_entry u) m
  | some e ↦ Map.insert u.outpoint (record e { utxo = u }) m
]

unfoldable pub upsert_all : UtxoMap → List CapturedUtxo → UtxoMap
unfolding upsert
upsert_all m [] = m
upsert_all m (u ∷ us) = upsert_all (upsert m u) us

abbrev pub spend_entry : ℕ → Entry → Entry
spend_entry h e = record { utxo = record (e.utxo) { is_spent = true }; spent_height = some h }

unfoldable pub mark_spent : UtxoMap → List OutPoint → ℕ → UtxoMap
mark_spent m [] h = m
mark_spent m (op ∷ ops) h = mark_spent (Map.modify op (spend_entry h) m) ops h

unfoldable pub list_unspent : UtxoMap → WalletId → List CapturedUtxo
list_unspent m wallet =
    map (λ e. e.utxo)
      (filter (λ e. not e.utxo.is_spent && (e.utxo.wallet_id == wallet)) (Map.values m))

unfoldable pub unspent_outpoints : UtxoMap → List (OutPoint × WalletId)
unspent_outpoints m =
    map (λ e. (e.utxo.outpoint, e.utxo.wallet_id))
      (filter (λ e. not e.utxo.is_spent) (Map.values m))

abbrev pub is_above : ℕ → Option ℕ → Bool
is_above height none = false
is_above height (some h) = ltb height h

-- Un-spends an output whose spend landed above `height`.
abbrev pub unspend : ℕ → Entry → Entry
unspend height e =
    if is_above height e.spent_height
    then record { utxo = record (e.utxo) { is_spent = false }; spent_height = none }
    else e

unfoldable pub rollback_utxos : UtxoMap → ℕ → UtxoMap
rollback_utxos m height =
    Map.update_values (unspend height) (Map.retain (λ _ e. leb e.utxo.height height) m)

pub record MemBlockStore : Type 0 where
  pub blocks : Map ℕ (ℕ × Bytes)
  pub tip : Option SyncedTip

unfoldable pub store_block : MemBlockStore → ℕ → ℕ → Bytes → MemBlockStore
store_block b height hash raw = record b { blocks = Map.insert height (hash, raw) b.blocks }

unfoldable pub block_hash_at : MemBlockStore → ℕ → Option ℕ
block_hash_at b height = Option.map (λ p. p.0) (Map.get height b.blocks)

-- `blocks.iter().max_by_key(|(h, _)| **h)`: of equal keys the last.
unfoldable pub max_by_key : Map ℕ (ℕ × Bytes) → Option SyncedTip
max_by_key [] = none
max_by_key ((h, (hash, raw)) ∷ rest) = elim (max_by_key rest) [
  | none ↦ some (record { height = h; hash = hash })
  | some t ↦ if ltb t.height h then some (record { height = h; hash = hash }) else some t
]

abbrev tip_above : ℕ → Option SyncedTip → Bool
tip_above height none = false
tip_above height (some t) = ltb height t.height

unfoldable pub rollback_blocks : MemBlockStore → ℕ → MemBlockStore
unfolding max_by_key
rollback_blocks b height =
    let kept = Map.retain (λ h _. leb h height) b.blocks in
    record { blocks = kept; tip = if tip_above height b.tip then max_by_key kept else b.tip }

-- `MockChainSource`; the index of a block is its height.
pub record MockChainSource : Type 0 where
  pub chain : List Block
  pub broadcasted : List Transaction

unfoldable pub push_block : MockChainSource → Block → MockChainSource
push_block c b = record c { chain = c.chain ++ b ∷ [] }

unfoldable pub reorg_to : MockChainSource → ℕ → MockChainSource
reorg_to c height = record c { chain = take (height + 1) c.chain }

abbrev empty_chain : SyncError
empty_chain = SyncError.chain_source (codes "empty chain")

unfoldable pub tip_height : MockChainSource → Result SyncError ℕ
tip_height c =
    if is_empty c.chain
    then err empty_chain
    else if ltb (length c.chain - 1) (2 ^ 32)
    then ok (length c.chain - 1)
    else err (SyncError.chain_source (codes "chain too long"))

unfoldable pub block_hash : MockChainSource → ℕ → Result SyncError ℕ
block_hash c height =
    ok_or (SyncError.chain_source (codes "no block at height " ++ decimal height))
      (Option.map (λ b. b.block_hash) (get_elem? c.chain height))

-- The hash is printed in decimal here.
unfoldable pub block : MockChainSource → ℕ → Result SyncError Block
block c hash =
    ok_or (SyncError.chain_source (codes "no block with hash " ++ decimal hash))
      (find (λ b. b.block_hash == hash) c.chain)

-- All three, as the world of one sync pass.
pub record World : Type 0 where
  pub source : MockChainSource
  pub store : MemBlockStore
  pub utxos : UtxoMap

abbrev pub mock_chain : ElementsChainSource World
mock_chain = record {
  tip_height = λ w. (tip_height w.source, w);
  block_hash = λ h w. (block_hash w.source h, w);
  block = λ hash w. (block w.source hash, w);
  broadcast = λ tx w. (
    ok tx.txid,
    record w { source = record (w.source) { broadcasted = w.source.broadcasted ++ tx ∷ [] } },
  );
}

abbrev pub mem_blocks : BlockStore World
mem_blocks = record {
  store_block = λ h hash raw w. (ok tt, record w { store = store_block w.store h hash raw });
  synced_tip = λ w. (ok w.store.tip, w);
  set_synced_tip = λ t w. (ok tt, record w { store = record (w.store) { tip = some t } });
  block_hash_at = λ h w. (ok (block_hash_at w.store h), w);
  rollback_above = λ h w. (ok tt, record w { store = rollback_blocks w.store h });
}

abbrev pub mem_utxos : WalletUtxoStore World
mem_utxos = record {
  upsert_utxos = λ us w. (ok tt, record w { utxos = upsert_all w.utxos us });
  mark_spent = λ ops h w. (ok tt, record w { utxos = mark_spent w.utxos ops h });
  list_unspent = λ id w. (ok (list_unspent w.utxos id), w);
  unspent_outpoints = λ w. (ok (unspent_outpoints w.utxos), w);
  rollback_above = λ h w. (ok tt, record w { utxos = rollback_utxos w.utxos h });
}
