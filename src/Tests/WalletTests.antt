-- ===== src/Tests/WalletTests.antt =====
-- Federated wallets and descriptor texts.
use emvault_elements.Prelude.{
  List, ℕ, ◌*◌, suc, ◌<◌, ◌≡◌, refl, Bool, true, false, some, [], ◌∷◌, length, arith, codes, Bytes,
}
use emvault_elements.Prelude.Result.{ok, err, expect}
use emvault_elements.Descriptor.{
  to_multipath_string, CtDescriptorBuilder, CtKeyMode, Signer, btree_insert, add_signer,
}
use emvault_elements.Error.{duplicate_key}
use emvault_elements.Descriptor.Order.{added, Collects, add_signer-Collects}
use emvault_elements.Descriptor.Hex.{encode}
use emvault_elements.Descriptor.Hex.RoundTrip.{IsBytes, decode, decode-encode}
use emvault_elements.Network.{ElementsNetwork, ElementsNetworkId, NetworkType, to_network_type}
use emvault_elements.Federation.{Federation}
use emvault_elements.FederatedWallet.{
  ElementsFederatedWallet, ElementsWalletHandle, FederatedWalletError, new, with_federation,
  current, at, federation_count,
}
use emvault_elements.FederatedWallet.Versions.{
  start, step, IsVersioned, Reachable-IsVersioned, with_federation_lem,
}

abbrev three_bytes : Bytes
three_bytes = 0 ∷ 255 ∷ 171 ∷ []

hex_text : encode three_bytes ≡ codes "00ffab"
unfolding encode
hex_text = refl

three_bytes-IsBytes : IsBytes three_bytes
unfolding IsBytes
three_bytes-IsBytes = (omega arith, (omega arith, (omega arith, tt)))

decode-encode_example :
    (length (encode three_bytes) ≡ 2 * length three_bytes)
    × (decode (encode three_bytes) ≡ three_bytes)
decode-encode_example = decode-encode three_bytes three_bytes-IsBytes

multipath : to_multipath_string (codes "k/0/*,j/0/*)#abc") ≡ codes "k/<0;1>/*,j/<0;1>/*)"
unfolding to_multipath_string
multipath = refl

abbrev is_elements : NetworkType → Bool
is_elements (NetworkType.bitcoin n) = false
is_elements (NetworkType.elements i) = true

abbrev on_network : NetworkType → Federation
on_network n = record {
  threshold = 1;
  network = n;
  signers = 1 ∷ [];
  contains = λ id. false;
  find = λ id. some id;
}

abbrev liquid_federation : Federation
liquid_federation = on_network (NetworkType.elements ElementsNetworkId.liquid)

abbrev handle : ElementsWalletHandle
handle = record { ct_descriptor = codes "ct"; blinding_key = 1 ∷ [] }

abbrev one_version : ElementsFederatedWallet
one_version = record {
  federation_wallets = record { federation = liquid_federation; wallet = handle; index = 0 } ∷ [];
  network = ElementsNetwork.liquid;
}

abbrev two_versions : ElementsFederatedWallet
two_versions = record {
  federation_wallets =
      record { federation = liquid_federation; wallet = handle; index = 0 }
      ∷ record { federation = liquid_federation; wallet = handle; index = 1 }
      ∷ [];
  network = ElementsNetwork.liquid;
}

made : new is_elements liquid_federation handle ElementsNetwork.liquid ≡ ok one_version
unfolding new
made = refl

extended : with_federation is_elements one_version liquid_federation handle ≡ ok two_versions
unfolding with_federation to_network_type
extended = refl

rejected :
    with_federation is_elements one_version (on_network (NetworkType.bitcoin 0)) handle
    ≡ err FederatedWalletError.non_elements_network
unfolding with_federation
rejected = refl

Reachable-IsVersioned_example : IsVersioned is_elements two_versions
Reachable-IsVersioned_example = Reachable-IsVersioned is_elements two_versions (
    step one_version liquid_federation handle two_versions
      (start liquid_federation handle ElementsNetwork.liquid one_version made) extended)

with_federation_lem_example :
    ((i : ℕ) → i < federation_count one_version → at two_versions i ≡ at one_version i)
    × (at two_versions (federation_count one_version)
        ≡ some (record {
          federation = liquid_federation;
          wallet = handle;
          index = federation_count one_version;
        }))
    × (current two_versions ≡ expect (at two_versions (federation_count one_version)))
    × (federation_count two_versions ≡ suc (federation_count one_version))
with_federation_lem_example =
    with_federation_lem is_elements one_version liquid_federation handle two_versions extended

abbrev key_of : ℕ → Signer
key_of n = record {
  id = n;
  id_text = codes "id";
  entry = record {
    fingerprint = n ∷ [];
    derivation_path = [];
    public_key = codes "pk";
    xpub = codes "xpub";
  };
}

abbrev builder : CtDescriptorBuilder
builder = record { threshold = 2; mode = CtKeyMode.fixed; master_blinding_key = []; entries = [] }

-- Signer 7 is added before signer 3, and once more after it.
abbrev crowd : List Signer
crowd = key_of 7 ∷ key_of 3 ∷ key_of 7 ∷ []

crowd_entries : (added crowd builder).entries ≡ (3, (key_of 3).entry) ∷ (7, (key_of 7).entry) ∷ []
unfolding added add_signer btree_insert
crowd_entries = refl

repeat_reported : (add_signer (key_of 7) (added crowd builder)).0 ≡ err (duplicate_key (codes "id"))
unfolding added add_signer btree_insert
repeat_reported = refl

add_signer-Collects_example : Collects crowd builder
add_signer-Collects_example = add_signer-Collects crowd builder refl
