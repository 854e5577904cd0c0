-- ===== src/Rpc/Wallets.antt =====
-- rpc.rs: the calls that read and manage the daemon's wallets.
use mathlib.Core.Option
use emvault_elements.Prelude.{
  ℕ, true, false, Option, none, some, List, [], ◌∷◌, ◌++◌, map, any, if◌then◌else◌, ◌==◌, codes,
  Text,
}
use emvault_elements.Prelude.Tests.{bytes_eq}
use emvault_elements.Prelude.Result.{Result, ok_or, map_err}
use emvault_elements.Prelude.Exec.{Exec, pure, lift, ◌>>=◌, ◌>>◌}
use emvault_elements.Rpc.{
  ElementsRpcError, rpc, bad_response, ElementsRpc, DescriptorInfo, ImportDescriptorRequest,
  ImportDescriptorResult, ElementsBalances, ElementsUtxo, WalletTransaction, Backend,
}

module _ {S C V F E : Type 0} (backend : Backend S C V F E) (node : ElementsRpc) where
  open backend use {net, json, decode}

  abbrev pub Rpc : Type 0 → Type 0
  Rpc A = Exec S (ElementsRpcError E) A

  unfoldable pub client_for_wallet : Text → Result (ElementsRpcError E) C
  client_for_wallet wallet =
      map_err rpc
        (net.connect (node.base_url ++ (codes "/wallet/" ++ wallet)) node.user node.password)

  unfoldable pub base_client : Result (ElementsRpcError E) C
  base_client = map_err rpc (net.connect node.base_url node.user node.password)

  -- `client.call(method, args)?`, where the result is a `Value`
  abbrev pub call : C → Text → List V → Rpc V
  call c method args s = let (r, s') = net.call c method args s in (map_err rpc r, s')

  -- The same, where the result is deserialized.
  abbrev pub call_as : {A : Type 0} → (V → Result E A) → C → Text → List V → Rpc A
  call_as target c method args = do v ← call c method args; lift (map_err rpc (target v))

  unfoldable pub get_block_count : Rpc ℕ
  unfolding base_client
  get_block_count = do
    client ← lift base_client
    λ s. let (r, s') = net.get_block_count client s in (map_err rpc r, s')

  unfoldable pub create_wallet : Text → Rpc (Unit {0})
  unfolding base_client
  create_wallet name = do
    client ← lift base_client
    call client (codes "createwallet") (
        json.string name
        ∷ json.bool true
        ∷ json.bool true
        ∷ json.string []
        ∷ json.bool false
        ∷ json.bool true
        ∷ [])
    pure tt

  unfoldable pub load_wallet : Text → Rpc (Unit {0})
  unfolding base_client
  load_wallet name = do
    client ← lift base_client
    call client (codes "loadwallet") (json.string name ∷ [])
    pure tt

  unfoldable pub list_wallets : Rpc (List Text)
  unfolding base_client
  list_wallets = do client ← lift base_client; call_as decode.texts client (codes "listwallets") []

  -- `v.get(key).and_then(Value::as_str)`
  abbrev pub text_field : V → Text → Option Text
  text_field v key = Option.bind (json.get v key) json.as_str

  -- `filter_map` over the entries
  unfoldable pub entry_names : List V → List Text
  entry_names [] = []
  entry_names (v ∷ vs) =
      let rest = entry_names vs in
      elim (text_field v (codes "name")) [ none ↦ rest | some name ↦ name ∷ rest ]

  unfoldable pub wallet_names : V → List Text
  unfolding entry_names
  wallet_names raw = elim (Option.bind (json.get raw (codes "wallets")) json.as_array) [
    | none ↦ []
    | some vs ↦ entry_names vs
  ]

  unfoldable pub list_wallet_dir : Rpc (List Text)
  unfolding base_client
  list_wallet_dir = do
    client ← lift base_client
    raw ← call client (codes "listwalletdir") []
    pure (wallet_names raw)

  unfoldable pub ensure_wallet_loaded : Text → Rpc (Unit {0})
  unfolding list_wallets list_wallet_dir load_wallet create_wallet
  ensure_wallet_loaded name = do
    loaded ← list_wallets
    if any (λ w. w == name) loaded then pure tt else do
      on_disk ← list_wallet_dir
      if any (λ w. w == name) on_disk then load_wallet name else create_wallet name

  unfoldable pub get_descriptor_info : Text → Rpc DescriptorInfo
  unfolding base_client
  get_descriptor_info descriptor = do
    client ← lift base_client
    call_as decode.descriptor_info client (codes "getdescriptorinfo") (json.string descriptor ∷ [])

  abbrev pub import_request : ImportDescriptorRequest → V
  import_request d = json.object (
      (codes "desc", json.string d.descriptor)
      ∷ (codes "timestamp", json.string (codes "now"))
      ∷ (codes "active", json.bool d.active)
      ∷ (codes "internal", json.bool d.internal)
      ∷ [])

  unfoldable pub import_descriptors :
      Text → List ImportDescriptorRequest → Rpc (List ImportDescriptorResult)
  unfolding client_for_wallet
  import_descriptors wallet descriptors = do
    client ← lift (client_for_wallet wallet)
    call_as decode.import_results client (codes "importdescriptors")
        (json.array (map import_request descriptors) ∷ [])

  unfoldable pub import_blinding_key : Text → Text → Text → Rpc (Unit {0})
  unfolding client_for_wallet
  import_blinding_key wallet address blinding_key_hex = do
    client ← lift (client_for_wallet wallet)
    call client (codes "importblindingkey")
        (json.string address ∷ json.string blinding_key_hex ∷ [])
    pure tt

  unfoldable pub dump_blinding_key : Text → Text → Rpc Text
  unfolding client_for_wallet
  dump_blinding_key wallet address = do
    client ← lift (client_for_wallet wallet)
    call_as decode.text client (codes "dumpblindingkey") (json.string address ∷ [])

  unfoldable pub extract_btc_balance : Option V → F
  extract_btc_balance v =
      Option.get_or
        (Option.bind v (λ obj. Option.bind (json.get obj (codes "bitcoin")) json.as_f64))
        json.zero_float

  abbrev pub balances_of : V → ElementsBalances F
  balances_of mine = record {
    trusted = extract_btc_balance (json.get mine (codes "trusted"));
    untrusted_pending = extract_btc_balance (json.get mine (codes "untrusted_pending"));
    immature = extract_btc_balance (json.get mine (codes "immature"));
  }

  unfoldable pub get_balances : Text → Rpc (ElementsBalances F)
  unfolding client_for_wallet
  get_balances wallet = do
    client ← lift (client_for_wallet wallet)
    raw ← call client (codes "getbalances") []
    mine ← lift (
        ok_or (bad_response (codes "getbalances missing 'mine' field"))
          (json.get raw (codes "mine")))
    pure (balances_of mine)

  unfoldable pub list_unspent : Text → Rpc (List (ElementsUtxo F))
  unfolding client_for_wallet
  list_unspent wallet = do
    client ← lift (client_for_wallet wallet)
    call_as decode.utxos client (codes "listunspent") (json.number 0 ∷ json.number 9999999 ∷ [])

  unfoldable pub list_transactions : Text → Rpc (List (WalletTransaction F))
  unfolding client_for_wallet
  list_transactions wallet = do
    client ← lift (client_for_wallet wallet)
    call_as decode.transactions client (codes "listtransactions")
        (json.string (codes "*") ∷ json.number 9999 ∷ json.number 0 ∷ json.bool true ∷ [])
