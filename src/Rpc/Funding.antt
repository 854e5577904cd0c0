-- ===== src/Rpc/Funding.antt =====
-- rpc.rs: the calls that make, read and send transactions.
use emvault_elements.Prelude.{
  ℕ, zero, suc, ◌-◌, ◌^◌, true, false, List, [], ◌∷◌, map, length, ltb, if◌then◌else◌, codes, Text,
}
use emvault_elements.Prelude.Result.{ok_or}
use emvault_elements.Prelude.Exec.{lift, ◌>>=◌}
use emvault_elements.Rpc.{bad_response, ElementsRpc, FundedPsbt, Backend}
use emvault_elements.Rpc.Wallets
use emvault_elements.Rpc.Wallets.{Rpc, client_for_wallet, base_client}

-- `u32::try_from(n).unwrap_or(u32::MAX)`
abbrev pub saturated : ℕ → ℕ
saturated n = if ltb n (2 ^ 32) then n else 2 ^ 32 - 1

-- `(i..i + n).collect()`
unfoldable pub range_from : ℕ → ℕ → List ℕ
range_from i zero = []
range_from i (suc n) = i ∷ range_from (suc i) n

unfoldable pub output_indices : {A : Type 0} → List A → List ℕ
unfolding range_from
output_indices outputs = range_from 0 (saturated (length outputs))

module _ {S C V F E : Type 0} (backend : Backend S C V F E) (node : ElementsRpc) where
  open backend use {json, decode}

  abbrev call : C → Text → List V → Rpc backend node V
  call = Wallets.call backend node

  -- `walletcreatefundedpsbt`, with the inputs, the outputs and the options
  abbrev fund : Text → List V → List V → List (Text × V) → Rpc backend node (FundedPsbt F)
  fund wallet inputs outputs options = do
    client ← lift (client_for_wallet backend node wallet)
    Wallets.call_as backend node decode.funded_psbt client (codes "walletcreatefundedpsbt") (
        json.array inputs
        ∷ json.array outputs
        ∷ json.number 0
        ∷ json.object options
        ∷ json.bool true
        ∷ [])

  unfoldable pub wallet_create_funded_psbt : Text → List V → F → Rpc backend node (FundedPsbt F)
  unfolding client_for_wallet
  wallet_create_funded_psbt wallet outputs fee_rate_btc_per_kb =
      fund wallet [] outputs ((codes "feeRate", json.float fee_rate_btc_per_kb) ∷ [])

  unfoldable pub wallet_create_funded_psbt_drain :
      Text → List V → F → Rpc backend node (FundedPsbt F)
  unfolding client_for_wallet output_indices
  wallet_create_funded_psbt_drain wallet outputs fee_rate_btc_per_kb = fund wallet [] outputs (
      (codes "feeRate", json.float fee_rate_btc_per_kb)
      ∷ (codes "subtractFeeFromOutputs", json.array (map json.number (output_indices outputs)))
      ∷ [])

  unfoldable pub wallet_create_funded_psbt_with_inputs :
      Text → List V → List V → ℕ → F → Rpc backend node (FundedPsbt F)
  unfolding client_for_wallet
  wallet_create_funded_psbt_with_inputs wallet inputs outputs fee_subtract_output_index
        fee_rate_btc_per_kb =
      fund wallet inputs outputs (
        (codes "feeRate", json.float fee_rate_btc_per_kb)
        ∷ (codes "subtractFeeFromOutputs", json.array (json.number fee_subtract_output_index ∷ []))
        ∷ (codes "add_inputs", json.bool false)
        ∷ [])

  -- `v.as_str().map(str::to_string).ok_or_else(|| ..)`
  abbrev text_or : Text → V → Rpc backend node Text
  text_or message v = lift (ok_or (bad_response message) (json.as_str v))

  unfoldable pub get_wallet_transaction_hex : Text → Text → Rpc backend node Text
  unfolding client_for_wallet
  get_wallet_transaction_hex wallet txid = do
    client ← lift (client_for_wallet backend node wallet)
    result ← call client (codes "gettransaction") (json.string txid ∷ [])
    text_or (codes "gettransaction returned no hex") (json.index result (codes "hex"))

  unfoldable pub create_psbt : List V → List V → Rpc backend node Text
  unfolding base_client
  create_psbt inputs outputs = do
    client ← lift (base_client backend node)
    Wallets.call_as backend node decode.text client (codes "createpsbt")
        (json.array inputs ∷ json.array outputs ∷ [])

  unfoldable pub wallet_update_psbt : Text → Text → Rpc backend node Text
  unfolding client_for_wallet
  wallet_update_psbt wallet psbt_base64 = do
    client ← lift (client_for_wallet backend node wallet)
    result ← call client (codes "walletprocesspsbt") (
        json.string psbt_base64 ∷ json.bool false ∷ json.string (codes "ALL") ∷ json.bool true ∷ [])
    text_or (codes "walletprocesspsbt returned no psbt") (json.index result (codes "psbt"))

  unfoldable pub send_raw_transaction : Text → Rpc backend node Text
  unfolding base_client
  send_raw_transaction hex = do
    client ← lift (base_client backend node)
    txid ← call client (codes "sendrawtransaction") (json.string hex ∷ [])
    text_or (codes "sendrawtransaction returned non-string") txid
