-- ===== src/FederatedWallet.antt =====
-- federated_wallet.rs
pub mod Versions
pub mod Signers
use mathlib.Core.Option
use emvault_elements.Prelude.{
  ℕ, Bool, not, Option, List, [], ◌∷◌, ◌++◌, map, length, any, filter, get_elem?, get_last?,
  if◌then◌else◌, ◌==◌, Text, Bytes,
}
use emvault_elements.Prelude.Tests.{nat_eq}
use emvault_elements.Prelude.Result.{Result, ok, err, expect, ◌>>=◌}
use emvault_elements.Network.{ElementsNetwork, NetworkType, network_eqb, to_network_type}
use emvault_elements.Federation.{Federation, FederationWallet}

-- The descriptor is its text.
pub record ElementsWalletHandle : Type 0 where
  pub ct_descriptor : Text
  pub blinding_key : Bytes

-- emvault_core::error::FederatedWalletError, as far as it is raised here
pub data FederatedWalletError : Type 0 where
  non_elements_network : FederatedWalletError
  network_mismatch : NetworkType → NetworkType → FederatedWalletError

abbrev pub Version : Type 0
Version = FederationWallet ElementsWalletHandle

pub record ElementsFederatedWallet : Type 0 where
  pub federation_wallets : List Version
  pub network : ElementsNetwork

-- `NetworkType::is_elements` is the caller's.
module _ (is_elements : NetworkType → Bool) where
  unfoldable pub new :
      Federation
      → ElementsWalletHandle
      → ElementsNetwork
      → Result FederatedWalletError ElementsFederatedWallet
  new federation handle network =
      if is_elements federation.network
      then ok (record {
        federation_wallets = record { federation = federation; wallet = handle; index = 0 } ∷ [];
        network = network;
      })
      else err non_elements_network

  unfoldable pub with_federation :
      ElementsFederatedWallet
      → Federation
      → ElementsWalletHandle
      → Result FederatedWalletError ElementsFederatedWallet
  with_federation w federation handle =
      let incoming = to_network_type w.network in
      if not (is_elements federation.network)
      then err non_elements_network
      else if not (network_eqb federation.network incoming)
      then err (network_mismatch incoming federation.network)
      else ok (record {
        federation_wallets =
            w.federation_wallets
            ++ record {
              federation = federation;
              wallet = handle;
              index = length w.federation_wallets;
            }
              ∷ [];
        network = w.network;
      })

unfoldable pub elements_network : ElementsFederatedWallet → ElementsNetwork
elements_network w = w.network

unfoldable pub ct_descriptors : ElementsFederatedWallet → List Text
ct_descriptors w = map (λ fw. fw.wallet.ct_descriptor) w.federation_wallets

unfoldable pub wallet_handles : ElementsFederatedWallet → List ElementsWalletHandle
wallet_handles w = map (λ fw. fw.wallet) w.federation_wallets

unfoldable pub handle_at : ElementsFederatedWallet → ℕ → Option ElementsWalletHandle
handle_at w i = Option.map (λ fw. fw.wallet) (get_elem? w.federation_wallets i)

-- It panics on a wallet with no federation.
unfoldable pub current : ElementsFederatedWallet → Result FederatedWalletError Version
current w = expect (get_last? w.federation_wallets)

unfoldable pub at : ElementsFederatedWallet → ℕ → Option Version
at w i = get_elem? w.federation_wallets i

unfoldable pub federation_count : ElementsFederatedWallet → ℕ
federation_count w = length w.federation_wallets

-- The `network` of the trait
unfoldable pub network_type : ElementsFederatedWallet → NetworkType
network_type w = to_network_type w.network

unfoldable pub threshold : ElementsFederatedWallet → Result FederatedWalletError ℕ
unfolding current
threshold w = do fw ← current w; ok fw.federation.threshold

unfoldable pub find_by_signer : ElementsFederatedWallet → ℕ → List Version
find_by_signer w id = filter (λ fw. fw.federation.contains id) w.federation_wallets

unfoldable pub signer_is_current : ElementsFederatedWallet → ℕ → Result FederatedWalletError Bool
unfolding current
signer_is_current w id = do fw ← current w; ok (fw.federation.contains id)

-- `collect` into a `HashSet`: the ids without repeats.
unfoldable pub collect_ids : List ℕ → List ℕ
collect_ids [] = []
collect_ids (id ∷ ids) =
    let rest = collect_ids ids in if any (λ x. x == id) rest then rest else id ∷ rest

unfoldable pub signers_of : List Version → List ℕ
signers_of [] = []
signers_of (fw ∷ fws) = fw.federation.signers ++ signers_of fws

unfoldable pub all_signer_ids : ElementsFederatedWallet → List ℕ
unfolding collect_ids signers_of
all_signer_ids w = collect_ids (signers_of w.federation_wallets)

unfoldable pub current_signer_ids : ElementsFederatedWallet → Result FederatedWalletError (List ℕ)
unfolding current collect_ids
current_signer_ids w = do fw ← current w; ok (collect_ids fw.federation.signers)
