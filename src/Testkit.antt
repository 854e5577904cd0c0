-- ===== src/Testkit.antt =====
-- testkit.rs: the software signer.
pub mod Touched
pub mod Written
pub mod Signing
pub mod Team
pub mod Attested
pub mod Sealed
pub mod Witnessed
use emvault_elements.Prelude.{
  ℕ, zero, suc, ◌+◌, Bool, Option, none, some, List, [], ◌∷◌, ◌++◌, length, get_elem?, set, filter,
  map, if◌then◌else◌, ◌==◌, codes, wrap64, Text, Bytes,
}
use emvault_elements.Prelude.Tests.{nat_eq}
use emvault_elements.Prelude.Result.{Result, ok, err, expect, map_err}
use emvault_elements.Prelude.Result
use emvault_elements.Prelude.Exec.{Exec, pure, lift, continue, ◌>>=◌}
use emvault_elements.Prelude.Map
use emvault_elements.Prelude.Map.{Map}
use emvault_elements.Elements.{Pset, PsetInput, Transaction}
use emvault_elements.Error.{PsetError, elements, signer_backend}
use emvault_elements.Network.{ElementsNetwork, LwkNetwork, to_lwk, NetworkType, ElementsNetworkId}
use emvault_elements.Pset.Coordinator.{ElementsSigner}

-- elements_miniscript::psbt::PsbtSighashMsg, with the message that it holds
pub data PsbtSighashMsg : Type 0 where
  ecdsa_sighash : ℕ → PsbtSighashMsg
  tap_sighash : ℕ → PsbtSighashMsg

-- bitcoin::bip32 and secp256k1, on a type `K` of extended private keys; paths and extended public
-- keys are what they print as, `sign_ecdsa` is the signature's DER form.
pub record Keys (K : Type 0) : Type 0 where
  pub new_master : Bytes → Option K
  pub parse_path : Text → Option Text
  pub derive_priv : K → Text → Result Text K
  pub xpub_of : K → Text
  pub fingerprint_of : K → ℕ
  pub id_of : ℕ → ℕ
  pub sign_ecdsa : ℕ → K → Bytes
  pub genesis_hash : LwkNetwork → ℕ

-- What is called of the PSET: `sighash_msg` at an input, with the transaction of the cache and the
-- genesis hash.
pub record PsetOps : Type 0 where
  pub extract_tx : Pset → Result Text Transaction
  pub sighash_msg : Pset → ℕ → Transaction → ℕ → Result Text PsbtSighashMsg

pub record SoftwareSigner (K : Type 0) : Type 0 where
  pub master : K
  pub path : Text
  pub xpub : Text
  pub fingerprint : ℕ
  pub id : ℕ
  pub genesis : ℕ

abbrev pub zeros : ℕ → Bytes
zeros zero = []
zeros (suc n) = 0 ∷ zeros n

-- `r.expect(..)`
abbrev unwrapped : {A : Type 0} → Result Text A → Result Text A
unwrapped (Result.ok a) = ok a
unwrapped _ = Result.panic

-- `pset.inputs_mut()[idx].partial_sigs.insert(pk, ser)`
abbrev pub insert_sig : ℕ → ℕ → Bytes → Pset → Pset
insert_sig idx pk ser pset = elim (get_elem? pset.inputs idx) [
  | none ↦ pset
  | some input ↦ record pset {
    inputs =
        set pset.inputs idx (record input { partial_sigs = Map.insert pk ser input.partial_sigs });
  }
]

module _ {K : Type 0} (keys : Keys K) where
  -- Its panics are the `expect`s.
  unfoldable pub new_with_seed_bytes : Bytes → LwkNetwork → Result Text (SoftwareSigner K)
  new_with_seed_bytes seed_bytes lwk_network =
      Result.◌>>=◌ (expect (keys.new_master seed_bytes)) λ master.
        Result.◌>>=◌ (expect (keys.parse_path (codes "m/48'/1'/0'/2'"))) λ path.
          Result.◌>>=◌ (unwrapped (keys.derive_priv master path)) λ derived. ok (record {
            master = master;
            path = path;
            xpub = keys.xpub_of derived;
            fingerprint = keys.fingerprint_of master;
            id = keys.id_of (keys.fingerprint_of master);
            genesis = keys.genesis_hash lwk_network;
          })

  -- `seed` is the first byte, 0x5a the second.
  unfoldable pub new_with_lwk : ℕ → LwkNetwork → Result Text (SoftwareSigner K)
  unfolding new_with_seed_bytes
  new_with_lwk seed lwk_network = new_with_seed_bytes (seed ∷ 0x5a ∷ zeros 30) lwk_network

  unfoldable pub new : ℕ → ElementsNetwork → Result Text (SoftwareSigner K)
  unfolding new_with_lwk
  new seed network = new_with_lwk seed (to_lwk network)

  -- The keys of the input that belong to the signer, with their paths.
  unfoldable pub mine : SoftwareSigner K → PsetInput → List (ℕ × Text)
  mine signer input =
      map (λ d. (d.0, d.1.1)) (filter (λ d. d.1.0 == signer.fingerprint) input.bip32_derivation)

  -- The signature with `SIGHASH_ALL` behind it
  abbrev pub serialized : ℕ → K → Bytes
  serialized message child = keys.sign_ecdsa message child ++ 1 ∷ []

  -- The loop over the keys of one input, and the count so far.
  unfoldable pub sign_keys : SoftwareSigner K → ℕ → ℕ → List (ℕ × Text) → ℕ → Exec Pset PsetError ℕ
  sign_keys signer idx message [] signed = pure signed
  sign_keys signer idx message ((pk, full_path) ∷ rest) signed = do
    child ← lift (map_err signer_backend (keys.derive_priv signer.master full_path))
    λ pset.
        sign_keys signer idx message rest (wrap64 (signed + 1))
          (insert_sig idx pk (serialized message child) pset)

  module _ (ops : PsetOps) where
    -- A Taproot message is passed over. `inputs()[idx]` panics out of range.
    unfoldable pub sign_message : SoftwareSigner K → ℕ → ℕ → PsbtSighashMsg → Exec Pset PsetError ℕ
    unfolding sign_keys mine
    sign_message signer idx signed (ecdsa_sighash message) pset =
        continue (expect (get_elem? pset.inputs idx))
          (λ input. sign_keys signer idx message (mine signer input) signed) pset
    sign_message signer idx signed (tap_sighash message) pset = (ok signed, pset)

    -- One round
    unfoldable pub sign_input : SoftwareSigner K → Transaction → ℕ → ℕ → Exec Pset PsetError ℕ
    unfolding sign_message
    sign_input signer tx idx signed pset =
        continue (map_err elements (ops.sighash_msg pset idx tx signer.genesis))
          (sign_message signer idx signed) pset

    -- `for idx in idx..` with `n` rounds left
    unfoldable pub sign_from : SoftwareSigner K → Transaction → ℕ → ℕ → ℕ → Exec Pset PsetError ℕ
    unfolding sign_input
    sign_from signer tx zero idx signed = pure signed
    sign_from signer tx (suc n) idx signed = do
      signed' ← sign_input signer tx idx signed
      sign_from signer tx n (suc idx) signed'

    unfoldable pub sign_pset : SoftwareSigner K → Exec Pset PsetError ℕ
    unfolding sign_from
    sign_pset signer pset =
        continue (map_err elements (ops.extract_tx pset))
          (λ tx pset'. sign_from signer tx (length pset'.inputs) 0 0 pset') pset

    -- `impl ElementsSigner for SoftwareSigner`
    abbrev pub elements_signer : SoftwareSigner K → ElementsSigner
    elements_signer signer = record { sign_pset = sign_pset signer }

-- The one network that the signer reports
abbrev pub supported_networks : {K : Type 0} → SoftwareSigner K → List NetworkType
supported_networks signer = NetworkType.elements ElementsNetworkId.elements_regtest ∷ []
