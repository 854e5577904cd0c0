-- ===== src/Rpc.antt =====
-- rpc.rs: the records of the Elements daemon's JSON-RPC interface, and what the calls go through.
pub mod Wallets
pub mod Funding
pub mod Ensure
pub mod Drain
use emvault_elements.Prelude.{ℕ, Bool, Option, List, Text}
use emvault_elements.Prelude.Int.{ℤ}
use emvault_elements.Prelude.Result.{Result, map_err}
use emvault_elements.Prelude.Exec.{Exec}

-- `E` is `bitcoincore_rpc::Error`.
pub data ElementsRpcError (E : Type 0) : Type 0 where
  rpc : E → ElementsRpcError E
  bad_response : Text → ElementsRpcError E

pub record ElementsRpc : Type 0 where
  pub base_url : Text
  pub user : Text
  pub password : Text

unfoldable pub new : Text → Text → Text → ElementsRpc
new base_url user password = record { base_url = base_url; user = user; password = password }

pub record DescriptorInfo : Type 0 where
  pub descriptor : Text
  pub checksum : Text
  pub is_range : Bool
  pub is_solvable : Bool
  pub has_private_keys : Bool

pub record ImportDescriptorRequest : Type 0 where
  pub descriptor : Text
  pub active : Bool
  pub internal : Bool

pub record ImportDescriptorError : Type 0 where
  pub code : ℤ
  pub message : Text

pub record ImportDescriptorResult : Type 0 where
  pub success : Bool
  pub error : Option ImportDescriptorError

-- `F` is `f64`.
pub record ElementsBalances (F : Type 0) : Type 0 where
  pub trusted : F
  pub untrusted_pending : F
  pub immature : F

pub record ElementsUtxo (F : Type 0) : Type 0 where
  pub txid : Text
  pub vout : ℕ
  pub address : Option Text
  pub amount : Option F
  pub asset : Option Text
  pub confirmations : ℕ
  pub spendable : Bool

pub record WalletTransaction (F : Type 0) : Type 0 where
  pub txid : Text
  pub address : Option Text
  pub category : Text
  pub amount : Option F
  pub confirmations : Option ℤ
  pub vout : Option ℕ

pub record FundedPsbt (F : Type 0) : Type 0 where
  pub psbt : Text
  pub fee : F
  pub changepos : ℤ

-- serde_json: what `json!` makes, and the methods of `Value` that are called. `V` is `Value`, and
-- `index` is `value[key]`.
pub record Json (V F : Type 0) : Type 0 where
  pub string : Text → V
  pub bool : Bool → V
  pub number : ℕ → V
  pub float : F → V
  pub array : List V → V
  pub object : List (Text × V) → V
  pub zero_float : F
  pub get : V → Text → Option V
  pub index : V → Text → V
  pub as_str : V → Option Text
  pub as_array : V → Option (List V)
  pub as_f64 : V → Option F

-- The deserializers that serde derives for the result types.
pub record Decoders (V F E : Type 0) : Type 0 where
  pub texts : V → Result E (List Text)
  pub text : V → Result E Text
  pub descriptor_info : V → Result E DescriptorInfo
  pub import_results : V → Result E (List ImportDescriptorResult)
  pub utxos : V → Result E (List (ElementsUtxo F))
  pub transactions : V → Result E (List (WalletTransaction F))
  pub funded_psbt : V → Result E (FundedPsbt F)

-- bitcoincore_rpc: `connect` is `Client::new` with the url, the user and the password, `call` is
-- `RpcApi::call` before the result is deserialized. The daemon and the wire are the world `S`.
pub record Transport (S C V E : Type 0) : Type 0 where
  pub connect : Text → Text → Text → Result E C
  pub call : C → Text → List V → Exec S E V
  pub get_block_count : C → Exec S E ℕ

pub record Backend (S C V F E : Type 0) : Type 0 where
  pub net : Transport S C V E
  pub json : Json V F
  pub decode : Decoders V F E
