-- ===== src/Elements.antt =====
-- Values of the crates `elements`, `elements_miniscript`, `lwk_wollet` and `emvault_core`, as far as
-- this repository reads them. Their code is not part of the repository: a value is a record of
-- the fields that are read and of the results of the methods that are called, so a theorem that
-- quantifies over such a value quantifies over every behaviour of those methods.
-- Hashes, keys and identifiers are the numbers that their bytes spell.
use emvault_elements.Prelude.{ℕ, Bool, ◌&&◌, ◌≡◌, ◌↔◌, Option, List, Text, Bytes, Eq, arith}
use emvault_elements.Prelude.Tests.{nat_eq, nat_eqb}
use emvault_elements.Prelude.Result.{Result}
use emvault_elements.Prelude.Map.{Map}

abbrev pub Script : Type 0
Script = Bytes

-- elements::OutPoint
pub record OutPoint : Type 0 where
  pub txid : ℕ
  pub vout : ℕ

abbrev outpoint_eqb : OutPoint → OutPoint → Bool
outpoint_eqb a b = nat_eqb a.txid b.txid && nat_eqb a.vout b.vout

pub outpoint_eqb_iff : (a b : OutPoint) → (outpoint_eqb a b ≡ Bool.true) ↔ (a ≡ b)
outpoint_eqb_iff a b = ground arith

instance abbrev pub outpoint_eq : Eq OutPoint
outpoint_eq = record { eqb = outpoint_eqb; eqb_iff = outpoint_eqb_iff }

-- confidential::Value and confidential::Asset: absent, in the clear, or a commitment
pub data Confidential : Type 0 where
  null : Confidential
  explicit : ℕ → Confidential
  commitment : Bytes → Confidential

pub record TxOut : Type 0 where
  pub asset : Confidential
  pub value : Confidential
  pub nonce : Bytes
  pub script_pubkey : Script
  pub witness : Bytes

pub record TxOutSecrets : Type 0 where
  pub asset : ℕ
  pub asset_bf : ℕ
  pub value : ℕ
  pub value_bf : ℕ

pub record TxIn : Type 0 where
  pub previous_output : OutPoint

-- `txid` is the result of `Transaction::txid()`.
pub record Transaction : Type 0 where
  pub txid : ℕ
  pub input : List TxIn
  pub output : List TxOut

-- `block_hash` and `serialized` are the results of `Block::block_hash()` and of
-- `elements::encode::serialize`.
pub record Block : Type 0 where
  pub block_hash : ℕ
  pub txdata : List Transaction
  pub serialized : Bytes

-- lwk_wollet::Chain
pub data Chain : Type 0 where
  external internal : Chain

-- elements::AddressParams, by its three constants
pub data AddressParams : Type 0 where
  liquid_params liquid_testnet_params elements_params : AddressParams

pub record Address : Type 0 where
  pub script_pubkey : Script

-- Descriptor<DefiniteDescriptorKey>
pub record DefiniteDescriptor : Type 0 where
  pub text : Text
  pub max_weight_to_satisfy : Result Text ℕ

-- Descriptor<DescriptorPublicKey> with a single path
pub record SingleDescriptor : Type 0 where
  pub at_derivation_index : ℕ → Result Text DefiniteDescriptor

pub record MultipathDescriptor : Type 0 where
  pub into_single_descriptors : Result Text (List SingleDescriptor)

-- lwk_wollet::WolletDescriptor; `try_unblind` is the function of `lwk_wollet::clients` at this
-- descriptor.
pub record WolletDescriptor : Type 0 where
  pub text : Text
  pub address : ℕ → AddressParams → Result Text Address
  pub change : ℕ → AddressParams → Result Text Address
  pub try_unblind : TxOut → Result Text TxOutSecrets
  pub descriptor : Result Text MultipathDescriptor

-- elements::pset::Input
pub record PsetInput : Type 0 where
  pub previous_txid : ℕ
  pub previous_output_index : ℕ
  pub witness_utxo : Option TxOut
  pub partial_sigs : Map ℕ Bytes
  pub witness_script : Option Script
  pub bip32_derivation : Map ℕ (ℕ × Text)
  pub redeem_script : Option Script
  pub sighash_type : Option ℕ
  pub final_script_witness : Option (List Bytes)

-- elements::pset::Output; the two commitments, those of the blinded value and asset, are not read.
pub record PsetOutput : Type 0 where
  pub script_pubkey : Script
  pub amount_comm : Option Bytes
  pub asset_comm : Option Bytes
  pub value_rangeproof : Option Bytes
  pub asset_surjection_proof : Option Bytes
  pub blinder_index : Option ℕ

-- elements::pset::PartiallySignedTransaction
pub record Pset : Type 0 where
  pub inputs : List PsetInput
  pub outputs : List PsetOutput

-- An item of `Script::instructions()`: pushed bytes, or anything else (an opcode, an error).
pub data Instruction : Type 0 where
  push_bytes : Bytes → Instruction
  other : Instruction

-- `Script::instructions` and `bitcoin::PublicKey::from_slice`
pub record ScriptOps : Type 0 where
  pub instructions : Script → List Instruction
  pub from_slice : Bytes → Option ℕ

-- elements_miniscript::slip77::MasterBlindingKey
pub record MasterBlindingKey : Type 0 where
  pub blinding_private_key : Script → ℕ
