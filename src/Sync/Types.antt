-- ===== src/Sync/Types.antt =====
-- sync/mod.rs: the records of the scan and the three interfaces. An implementation of a trait is
-- a record of actions over one world `S`, since `&self` hides the mutation.
use emvault_elements.Prelude.{ℕ, Bool, ◌≡◌, ◌↔◌, Option, List, Bytes, Eq, arith}
use emvault_elements.Prelude.Tests.{bytes_eqb, bytes_eqb_iff}
use emvault_elements.Prelude.Exec.{Exec}
use emvault_elements.Elements.{OutPoint, TxOut, TxOutSecrets, Chain, Block, Transaction, Script}
use emvault_elements.Error.{SyncError}

-- sixteen bytes
pub record WalletId : Type 0 where
  pub bytes : Bytes

abbrev wallet_eqb : WalletId → WalletId → Bool
wallet_eqb a b = bytes_eqb a.bytes b.bytes

pub wallet_eqb_iff : (a b : WalletId) → (wallet_eqb a b ≡ Bool.true) ↔ (a ≡ b)
wallet_eqb_iff a b = ground (arith, bytes_eqb_iff a.bytes b.bytes)

instance abbrev pub wallet_eq : Eq WalletId
wallet_eq = record { eqb = wallet_eqb; eqb_iff = wallet_eqb_iff }

pub record CapturedUtxo : Type 0 where
  pub wallet_id : WalletId
  pub outpoint : OutPoint
  pub txout : TxOut
  pub secrets : TxOutSecrets
  pub chain : Chain
  pub wildcard_index : ℕ
  pub height : ℕ
  pub is_spent : Bool

unfoldable pub value : CapturedUtxo → ℕ
value u = u.secrets.value

unfoldable pub asset : CapturedUtxo → ℕ
asset u = u.secrets.asset

unfoldable pub script_pubkey : CapturedUtxo → Script
script_pubkey u = u.txout.script_pubkey

pub record SyncedTip : Type 0 where
  pub height : ℕ
  pub hash : ℕ

pub record WalletUtxoStore (S : Type 0) : Type 0 where
  pub upsert_utxos : List CapturedUtxo → Exec S SyncError (Unit {0})
  pub mark_spent : List OutPoint → ℕ → Exec S SyncError (Unit {0})
  pub list_unspent : WalletId → Exec S SyncError (List CapturedUtxo)
  pub unspent_outpoints : Exec S SyncError (List (OutPoint × WalletId))
  pub rollback_above : ℕ → Exec S SyncError (Unit {0})

pub record BlockStore (S : Type 0) : Type 0 where
  pub store_block : ℕ → ℕ → Bytes → Exec S SyncError (Unit {0})
  pub synced_tip : Exec S SyncError (Option SyncedTip)
  pub set_synced_tip : SyncedTip → Exec S SyncError (Unit {0})
  pub block_hash_at : ℕ → Exec S SyncError (Option ℕ)
  pub rollback_above : ℕ → Exec S SyncError (Unit {0})

pub record ElementsChainSource (S : Type 0) : Type 0 where
  pub tip_height : Exec S SyncError ℕ
  pub block_hash : ℕ → Exec S SyncError ℕ
  pub block : ℕ → Exec S SyncError Block
  pub broadcast : Transaction → Exec S SyncError ℕ
