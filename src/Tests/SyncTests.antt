-- ===== src/Tests/SyncTests.antt =====
-- One wallet, a chain of two blocks, and a reorganisation to a longer chain.
use mathlib.Core.Option.{some-injective}
use emvault_elements.Prelude.{
  ℕ, zero, suc, ◌≡◌, refl, ◌≢◌, none, some, List, [], ◌∷◌, arith, get_elem?, take, subst, codes,
}
use emvault_elements.Prelude.Tests.{bytes_eq, nat_eq}
use emvault_elements.Prelude.Result.{ok, err, panic}
use emvault_elements.Prelude.Map
use emvault_elements.Elements.{
  outpoint_eq, TxOut, TxOutSecrets, Transaction, Block, Chain, Confidential, WolletDescriptor,
}
use emvault_elements.Network.{ElementsNetwork, LwkNetwork}
use emvault_elements.Wollet
use emvault_elements.Wollet.{ElementsWollet}
use emvault_elements.Sync.Types.{WalletId}
use emvault_elements.Sync.Scan.{ScriptEntry, BlockScanEngine}
use emvault_elements.Sync.Wired.{Returns, fresh, registered, Built-IsWired}
use emvault_elements.Sync.Engine
use emvault_elements.Sync.Engine.{
  register_wallet, sync, SyncSummary, start_height, advance, scan_blocks, scan_block, write_pass,
  find_common_ancestor, is_shared,
}
use emvault_elements.Sync.Fakes.{World, block_hash_at}
use emvault_elements.Sync.Ledger.{dated, ledger}
use emvault_elements.Sync.Agreement.Outputs.{IsWired}
use emvault_elements.Sync.Chain.{IsChain, hash_at}
use emvault_elements.Sync.Restart.{IsFork}
use emvault_elements.Sync.Cursor.{Synced}
use emvault_elements.Sync.Refinement.{Caught, sync-Synced}
use emvault_elements.Sync.Ancestor.{LastShared, find_common_ancestor-LastShared}

abbrev pub secrets : TxOutSecrets
secrets = record { asset = 1; asset_bf = 0; value = 50; value_bf = 0 }

-- The scripts are the index with a tag for the chain; every output can be opened.
abbrev descriptor : WolletDescriptor
descriptor = record {
  text = codes "ct";
  address = λ i _. ok (record { script_pubkey = 0 ∷ i ∷ [] });
  change = λ i _. ok (record { script_pubkey = 1 ∷ i ∷ [] });
  try_unblind = λ _. ok secrets;
  descriptor = err [];
}

abbrev pub wollet : ElementsWollet
wollet = record {
  descriptor = descriptor;
  master_blinding_key = [];
  network = ElementsNetwork.elements_regtest;
  lwk_network = LwkNetwork.default_regtest;
}

abbrev pub wallet_id : WalletId
wallet_id = record { bytes = 9 ∷ [] }

abbrev entry : ScriptEntry
entry = record { wallet_id = wallet_id; chain = Chain.external; wildcard_index = 0; wollet_idx = 0 }

abbrev pub engine : BlockScanEngine
engine = record { index = (0 ∷ 0 ∷ [], entry) ∷ []; wollets = wollet ∷ [] }

abbrev pub paid : TxOut
paid = record {
  asset = Confidential.null;
  value = Confidential.null;
  nonce = [];
  script_pubkey = 0 ∷ 0 ∷ [];
  witness = [];
}

abbrev pub genesis : Block
genesis = record { block_hash = 100; txdata = []; serialized = [] }

-- Transaction 11 pays the wallet; transaction 12 spends that and pays the wallet again.
abbrev pay : Transaction
pay = record { txid = 11; input = []; output = paid ∷ [] }

abbrev repay : Transaction
repay = record {
  txid = 12;
  input = record { previous_output = record { txid = 11; vout = 0 } } ∷ [];
  output = paid ∷ [];
}

abbrev pub old_chain : List Block
old_chain =
    genesis
    ∷ record { block_hash = 101; txdata = pay ∷ []; serialized = [] }
    ∷ record { block_hash = 102; txdata = repay ∷ []; serialized = [] }
    ∷ []

abbrev pub new_chain : List Block
new_chain =
    genesis
    ∷ record { block_hash = 101; txdata = pay ∷ []; serialized = [] }
    ∷ record { block_hash = 202; txdata = []; serialized = [] }
    ∷ record { block_hash = 203; txdata = []; serialized = [] }
    ∷ []

abbrev pub empty_world : List Block → World
empty_world bs = record {
  source = record { chain = bs; broadcasted = [] };
  store = record { blocks = []; tip = none };
  utxos = [];
}

wollet-returns :
    (i : ℕ) (w : ElementsWollet) (txout : TxOut)
    → get_elem? engine.wollets i ≡ some w
    → Wollet.unblind w txout ≢ panic
unfolding Wollet.unblind
wollet-returns zero w txout found =
    subst (λ v. Wollet.unblind v txout ≢ panic) (some-injective wollet w found) (λ e. cc)
wollet-returns (suc i) w txout found = absurd (cc)

pub engine-IsWired : IsWired engine
unfolding Map.get
engine-IsWired = record {
  registered = λ spk e found. (wollet, ground arith);
  returns = wollet-returns;
}

pub old-IsChain : IsChain old_chain
unfolding dated
old-IsChain = record {
  distinct = omega arith;
  once = λ t. omega arith;
  sized = omega arith;
  short = omega arith;
}

pub new-IsChain : IsChain new_chain
unfolding dated
new-IsChain = record {
  distinct = omega arith;
  once = λ t. omega arith;
  sized = omega arith;
  short = omega arith;
}

pub fresh-Synced : Synced engine (empty_world old_chain) []
unfolding Map.get ledger dated block_hash_at
fresh-Synced = record {
  holds = record { hashes = λ h. refl; ledgers = λ op. refl; unique = tt; unique_heights = tt };
  cursor = refl;
}

pub first-IsFork : IsFork [] old_chain
first-IsFork = record { commits = λ h x e _. absurd (cc); genesis = λ x e. absurd (cc) }

unfoldable pub first_pass : Caught engine (empty_world old_chain)
unfolding dated
first_pass =
    sync-Synced engine engine-IsWired (empty_world old_chain) [] fresh-Synced (λ t. tt) old-IsChain
      first-IsFork (omega arith) (omega arith)

-- The node switches to the other chain.
abbrev pub reorganised : World
reorganised = record (first_pass.after) { source = record { chain = new_chain; broadcasted = [] } }

pub chains-IsFork : IsFork old_chain new_chain
chains-IsFork = record { commits = agree; genesis = λ x e. e }
  where
    agree :
        (h x : ℕ)
        → hash_at old_chain h ≡ some x
        → hash_at new_chain h ≡ some x
        → take (suc h) old_chain ≡ take (suc h) new_chain
    agree zero x e f = refl
    agree (suc zero) x e f = refl
    agree (suc (suc zero)) x e f = absurd (ground arith)
    agree (suc (suc (suc h))) x e f = absurd (cc)

pub reorganised-Synced : Synced engine reorganised old_chain
unfolding first_pass
reorganised-Synced = record {
  holds = record {
    hashes = first_pass.synced.holds.hashes;
    ledgers = first_pass.synced.holds.ledgers;
    unique = first_pass.synced.holds.unique;
    unique_heights = first_pass.synced.holds.unique_heights;
  };
  cursor = first_pass.synced.cursor;
}

sync-Synced_example : Caught engine reorganised
sync-Synced_example =
    sync-Synced engine engine-IsWired reorganised old_chain reorganised-Synced old-IsChain.once
      new-IsChain chains-IsFork (omega arith) (omega arith)

-- Heights 0 and 1 are shared, height 2 is not.
abbrev pub diverged : World
diverged = record (empty_world new_chain) {
  store = record {
    blocks = (0, (100, [])) ∷ (1, (101, [])) ∷ (2, (102, [])) ∷ [];
    tip = some (record { height = 2; hash = 102 });
  };
}

find_common_ancestor-LastShared_example : LastShared diverged 2
find_common_ancestor-LastShared_example = find_common_ancestor-LastShared diverged 2 (omega arith)

pub wollet-Returns : Returns wollet
unfolding Returns Wollet.unblind
wollet-Returns = λ txout e. cc

Built-IsWired_example : IsWired (register_wallet wallet_id wollet 2 Engine.new).1
Built-IsWired_example =
    Built-IsWired (register_wallet wallet_id wollet 2 Engine.new).1
      (registered Engine.new wallet_id wollet 2 wollet-Returns fresh)
