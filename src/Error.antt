-- ===== src/Error.antt =====
-- error.rs. A message is the text that `to_string` gives.
use emvault_elements.Prelude.{ℕ, Text}

pub data PsetError : Type 0 where
  signer_backend : Text → PsetError
  elements : Text → PsetError
  unexpected_signatures : ℕ → PsetError
  not_blinded : PsetError
  insufficient_signatures : ℕ → ℕ → PsetError
  finalization_failed : Text → PsetError
  blinding_failed : Text → PsetError
  unknown_signer : ℕ → PsetError
  invalid_signature : ℕ → Text → PsetError

pub data WolletError : Type 0 where
  descriptor : Text → WolletError
  build : Text → WolletError
  address_derivation : Text → WolletError
  unblind : Text → WolletError

pub data SpendError : Type 0 where
  build : Text → SpendError
  descriptor : Text → SpendError
  enrich : Text → SpendError
  unblind : Text → SpendError
  pset : PsetError → SpendError

pub data SyncError : Type 0 where
  store : Text → SyncError
  chain_source : Text → SyncError
  encoding : Text → SyncError
  wollet : WolletError → SyncError

pub data CtDescriptorError : Type 0 where
  bad_blinding_key_length : ℕ → CtDescriptorError
  duplicate_key : Text → CtDescriptorError
  no_signers : CtDescriptorError
  descriptor : Text → CtDescriptorError
  network_mismatch : Text → Text → CtDescriptorError
