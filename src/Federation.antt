-- ===== src/Federation.antt =====
-- `emvault_core::federation::Federation` and `FederationWallet`, by the methods that are called.
-- A signer is its id; `find` gives the fingerprint of the signer that it finds.
use emvault_elements.Prelude.{ℕ, Bool, Option, List}
use emvault_elements.Network.{NetworkType}

pub record Federation : Type 0 where
  pub threshold : ℕ
  pub network : NetworkType
  pub signers : List ℕ
  pub contains : ℕ → Bool
  pub find : ℕ → Option ℕ

pub record FederationWallet (W : Type 0) : Type 0 where
  pub federation : Federation
  pub wallet : W
  pub index : ℕ
