-- ===== src/Network.antt =====
-- network.rs
use emvault_elements.Prelude.{ℕ, Bool, true, false, ◌==◌, Text, codes}
use emvault_elements.Prelude.Tests.{nat_eq}
use emvault_elements.Elements.{AddressParams, liquid_params, liquid_testnet_params, elements_params}

pub data ElementsNetwork : Type 0 where
  liquid liquid_testnet elements_regtest : ElementsNetwork

-- emvault_core::network::ElementsNetworkId
pub data ElementsNetworkId : Type 0 where
  liquid liquid_testnet elements_regtest : ElementsNetworkId

-- emvault_core::network::NetworkType: a Bitcoin network is the number of its variant.
pub data NetworkType : Type 0 where
  bitcoin : ℕ → NetworkType
  elements : ElementsNetworkId → NetworkType

-- the derived equality
abbrev pub id_eqb : ElementsNetworkId → ElementsNetworkId → Bool
id_eqb ElementsNetworkId.liquid ElementsNetworkId.liquid = true
id_eqb ElementsNetworkId.liquid_testnet ElementsNetworkId.liquid_testnet = true
id_eqb ElementsNetworkId.elements_regtest ElementsNetworkId.elements_regtest = true
id_eqb _ _ = false

abbrev pub network_eqb : NetworkType → NetworkType → Bool
network_eqb (NetworkType.bitcoin m) (NetworkType.bitcoin n) = m == n
network_eqb (NetworkType.elements a) (NetworkType.elements b) = id_eqb a b
network_eqb _ _ = false

-- lwk_wollet::Network: the parameters of a custom network are its policy asset and genesis hash.
pub data LwkNetwork : Type 0 where
  liquid testnet_liquid default_regtest : LwkNetwork
  custom_elements : Text → Text → LwkNetwork

unfoldable pub address_params : ElementsNetwork → AddressParams
address_params ElementsNetwork.liquid = liquid_params
address_params ElementsNetwork.liquid_testnet = liquid_testnet_params
address_params ElementsNetwork.elements_regtest = elements_params

unfoldable pub to_lwk : ElementsNetwork → LwkNetwork
to_lwk ElementsNetwork.liquid = LwkNetwork.liquid
to_lwk ElementsNetwork.liquid_testnet = LwkNetwork.testnet_liquid
to_lwk ElementsNetwork.elements_regtest = LwkNetwork.default_regtest

unfoldable pub to_core_id : ElementsNetwork → ElementsNetworkId
to_core_id ElementsNetwork.liquid = ElementsNetworkId.liquid
to_core_id ElementsNetwork.liquid_testnet = ElementsNetworkId.liquid_testnet
to_core_id ElementsNetwork.elements_regtest = ElementsNetworkId.elements_regtest

-- `impl From<ElementsNetworkId> for ElementsNetwork`
unfoldable pub from_core_id : ElementsNetworkId → ElementsNetwork
from_core_id ElementsNetworkId.liquid = ElementsNetwork.liquid
from_core_id ElementsNetworkId.liquid_testnet = ElementsNetwork.liquid_testnet
from_core_id ElementsNetworkId.elements_regtest = ElementsNetwork.elements_regtest

-- `impl From<ElementsNetwork> for NetworkType`
unfoldable pub to_network_type : ElementsNetwork → NetworkType
unfolding to_core_id
to_network_type n = NetworkType.elements (to_core_id n)

-- `impl Display for ElementsNetwork`
unfoldable pub display : ElementsNetwork → Text
display ElementsNetwork.liquid = codes "liquid"
display ElementsNetwork.liquid_testnet = codes "liquidtestnet"
display ElementsNetwork.elements_regtest = codes "elementsregtest"
