-- ===== src/Wollet.antt =====
-- wollet.rs: the client-side wallet of one federation version.
pub mod Watched
pub mod Restored
pub mod Paid
use emvault_elements.Prelude.{ℕ, zero, suc, ◌+◌, List, [], ◌∷◌, ◌++◌, codes, Text, Bytes}
use emvault_elements.Prelude.Result.{Result, ok, map_err, ◌>>=◌, ◌>>◌}
use emvault_elements.Elements.{
  Script, Chain, external, internal, Address, WolletDescriptor, TxOut, TxOutSecrets,
}
use emvault_elements.Descriptor.{to_multipath_string}
use emvault_elements.Descriptor.Hex.{encode}
use emvault_elements.Error.{WolletError}
use emvault_elements.FederatedWallet.{ElementsWalletHandle}
use emvault_elements.Network.{ElementsNetwork, LwkNetwork, address_params, to_lwk}

pub record ElementsWollet : Type 0 where
  pub descriptor : WolletDescriptor
  pub master_blinding_key : Bytes
  pub network : ElementsNetwork
  pub lwk_network : LwkNetwork

-- `res.map_err(|e| WolletError::AddressDerivation(e.to_string()))`
abbrev derived : Result Text Address → Result WolletError Address
derived = map_err WolletError.address_derivation

unfoldable pub address : ElementsWollet → Chain → ℕ → Result WolletError Address
address w external index = derived (w.descriptor.address index (address_params w.network))
address w internal index = derived (w.descriptor.change index (address_params w.network))

-- The loop `for i in i..gap` with `n` rounds left, and what it has pushed.
unfoldable pub watched_from :
    ElementsWollet
    → ℕ
    → ℕ
    → List (Script × Chain × ℕ)
    → Result WolletError (List (Script × Chain × ℕ))
watched_from w zero i out = ok out
watched_from w (suc n) i out = do
  ext ← derived (w.descriptor.address i (address_params w.network))
  int ← derived (w.descriptor.change i (address_params w.network))
  watched_from w n (i + 1)
      ((out ++ (ext.script_pubkey, external, i) ∷ []) ++ (int.script_pubkey, internal, i) ∷ [])

unfoldable pub watched_scripts : ElementsWollet → ℕ → Result WolletError (List (Script × Chain × ℕ))
unfolding watched_from
watched_scripts w gap = watched_from w gap 0 []

unfoldable pub unblind : ElementsWollet → TxOut → Result WolletError TxOutSecrets
unblind w txout = map_err WolletError.unblind (w.descriptor.try_unblind txout)

-- `inner` (the `lwk_wollet::Wollet` that is built and kept) is only ever handed to `TxBuilder::finish`.
module _ (from_str : Text → Result Text WolletDescriptor)
    (build : LwkNetwork → WolletDescriptor → Result Text (Unit {0}))
    (blinding_from_str : Text → Result Text Bytes) where
  unfoldable pub from_descriptor_str :
      Text → Bytes → ElementsNetwork → LwkNetwork → Result WolletError ElementsWollet
  from_descriptor_str descriptor_str blinding_key network lwk_network = do
    descriptor ← map_err WolletError.descriptor (from_str descriptor_str)
    map_err WolletError.build (build lwk_network descriptor)
    key ←
        map_err (λ e. WolletError.descriptor (codes "invalid blinding key: " ++ e))
          (blinding_from_str (encode blinding_key))
    ok (record {
      descriptor = descriptor;
      master_blinding_key = key;
      network = network;
      lwk_network = lwk_network;
    })

  unfoldable pub from_handle_with_lwk :
      ElementsWalletHandle → ElementsNetwork → LwkNetwork → Result WolletError ElementsWollet
  unfolding from_descriptor_str
  from_handle_with_lwk handle network lwk_network =
      from_descriptor_str (to_multipath_string handle.ct_descriptor) handle.blinding_key network
        lwk_network

  unfoldable pub from_handle :
      ElementsWalletHandle → ElementsNetwork → Result WolletError ElementsWollet
  unfolding from_handle_with_lwk
  from_handle handle network = from_handle_with_lwk handle network (to_lwk network)
