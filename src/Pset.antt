-- ===== src/Pset.antt =====
-- pset.rs: the stages of the pipeline and the blinding.
pub mod Finalize
pub mod Coordinator
pub mod Secrets
pub mod Stages
pub mod Finalized
use mathlib.Core.List.{foldl}
use emvault_elements.Prelude.{
  ℕ, zero, suc, ◌+◌, Bool, true, false, Option, none, some, List, [], ◌∷◌, ◌++◌, map, length, any,
  if◌then◌else◌, ◌==◌, codes, decimal, Text, Bytes,
}
use emvault_elements.Prelude.Tests.{nat_eq}
use emvault_elements.Prelude.Result.{Result, ok, err, map_err, ok_or, ◌>>=◌}
use emvault_elements.Prelude.Map
use emvault_elements.Prelude.Map.{Map}
use emvault_elements.Elements.{
  Pset, PsetInput, PsetOutput, TxOut, TxOutSecrets, Confidential, explicit, Script,
  MasterBlindingKey,
}
use emvault_elements.Error.{
  PsetError, elements, unexpected_signatures, not_blinded, blinding_failed,
}

pub record UnsignedPset : Type 0 where
  pub pset : Pset

pub record BlindedPset : Type 0 where
  pub pset : Pset

unfoldable pub total_sigs : List PsetInput → ℕ
total_sigs [] = 0
total_sigs (i ∷ is) = length i.partial_sigs + total_sigs is

-- `UnsignedPset::new`
unfoldable pub new_unsigned : Pset → Result PsetError UnsignedPset
unfolding total_sigs
new_unsigned pset =
    if total_sigs pset.inputs == 0
    then ok (record { pset = pset })
    else err (unexpected_signatures (total_sigs pset.inputs))

abbrev pub is_some {ℓ} : {A : Type ℓ} → Option A → Bool
is_some none = false
is_some (some _) = true

-- `BlindedPset::new`
unfoldable pub new_blinded : Pset → Result PsetError BlindedPset
new_blinded pset =
    if any (λ o. is_some o.value_rangeproof) pset.outputs
    then ok (record { pset = pset })
    else err not_blinded

-- `blind_last` is `Pset::blind_last` with the generator and the context that it is called with.
unfoldable pub blind_pset :
    (Pset → Map ℕ TxOutSecrets → Result Text Pset)
    → UnsignedPset
    → Map ℕ TxOutSecrets
    → Result PsetError BlindedPset
unfolding new_blinded
blind_pset blind_last unsigned secrets = do
  inner ← map_err blinding_failed (blind_last unsigned.pset secrets)
  new_blinded inner

unfoldable pub explicit_txout_secrets : ℕ → ℕ → TxOutSecrets
explicit_txout_secrets asset value = record {
  asset = asset;
  asset_bf = 0;
  value = value;
  value_bf = 0;
}

-- `TxOut::unblind` and the master key are the caller's.
module _ (unblind : TxOut → ℕ → Result Text TxOutSecrets) (master : MasterBlindingKey) where
  unfoldable pub unblind_input : TxOut → ℕ → Result PsetError TxOutSecrets
  unblind_input utxo key =
      map_err (λ e. blinding_failed (codes "unblind failed: " ++ e)) (unblind utxo key)

  unfoldable pub slip77_blinding_key : Script → ℕ
  slip77_blinding_key script = master.blinding_private_key script

  unfoldable pub txout_secrets : TxOut → Confidential → Confidential → Result PsetError TxOutSecrets
  unfolding explicit_txout_secrets unblind_input slip77_blinding_key
  txout_secrets utxo (explicit value) (explicit asset) = ok (explicit_txout_secrets asset value)
  txout_secrets utxo _ _ = unblind_input utxo (slip77_blinding_key utxo.script_pubkey)

  abbrev pub missing_utxo : ℕ → PsetError
  missing_utxo i = elements (codes "input " ++ (decimal i ++ codes " missing witness_utxo"))

  -- The loop from input `i` on, and the map so far.
  unfoldable pub secrets_from :
      ℕ → List PsetInput → Map ℕ TxOutSecrets → Result PsetError (Map ℕ TxOutSecrets)
  secrets_from i [] secrets = ok secrets
  secrets_from i (input ∷ rest) secrets = do
    utxo ← ok_or (missing_utxo i) input.witness_utxo
    found ← txout_secrets utxo utxo.value utxo.asset
    secrets_from (suc i) rest (Map.insert i found secrets)

  unfoldable pub derive_input_secrets : Pset → Result PsetError (Map ℕ TxOutSecrets)
  derive_input_secrets pset = secrets_from 0 pset.inputs []
