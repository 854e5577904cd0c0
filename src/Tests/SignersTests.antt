-- ===== src/Tests/SignersTests.antt =====
-- The signers of a wallet of two federations.
use emvault_elements.Prelude.{
  ℕ, ◌≡◌, ◌↔◌, refl, true, ◌||◌, none, [], ◌∷◌, ◌==◌, IsMember, arith, inl, inr, nat_eqb_iff,
  Bool-cases, sym, subst,
}
use emvault_elements.Prelude.Tests.{nat_eq}
use emvault_elements.Federation.{Federation}
use emvault_elements.FederatedWallet.{
  ElementsFederatedWallet, Version, find_by_signer, all_signer_ids, collect_ids, signers_of,
}
use emvault_elements.FederatedWallet.Signers.{SignsIn, all_signer_ids_iff, find_by_signer_iff}
use emvault_elements.Network.{NetworkType, ElementsNetworkId, ElementsNetwork}
use emvault_elements.Pset.Coordinator.Quorum.{IsDistinct}

abbrev of_two : ℕ → ℕ → Federation
of_two a b = record {
  threshold = 2;
  network = NetworkType.elements ElementsNetworkId.liquid;
  signers = a ∷ b ∷ [];
  contains = λ id. (a == id) || (b == id);
  find = λ id. none;
}

abbrev version_of : ℕ → ℕ → ℕ → Version
version_of a b index = record {
  federation = of_two a b;
  wallet = record { ct_descriptor = []; blinding_key = [] };
  index = index;
}

-- Signer 2 is in both.
abbrev wallet : ElementsFederatedWallet
wallet = record {
  federation_wallets = version_of 1 2 0 ∷ version_of 2 3 1 ∷ [];
  network = ElementsNetwork.liquid;
}

ids : all_signer_ids wallet ≡ 1 ∷ 2 ∷ 3 ∷ []
unfolding all_signer_ids collect_ids signers_of
ids = refl

found : find_by_signer wallet 3 ≡ version_of 2 3 1 ∷ []
unfolding find_by_signer
found = refl

all_signer_ids_iff_example :
    ((id : ℕ) → IsMember id (all_signer_ids wallet) ↔ SignsIn id wallet.federation_wallets)
    × IsDistinct (all_signer_ids wallet)
all_signer_ids_iff_example = all_signer_ids_iff wallet

consistent : (a b id : ℕ) → ((of_two a b).contains id ≡ true) ↔ IsMember id (of_two a b).signers
consistent a b id = (
  λ e. elim (Bool-cases (a == id)) [
    | inl first ↦ inl (sym ((nat_eqb_iff a id).0 first))
    | inr other ↦ inr (inl (sym ((nat_eqb_iff b id).0 (ground (arith, e, other)))))
  ],
  λ m. elim m [
    | inl first ↦ ground (arith, nat_eqb_iff a id, first)
    | inr rest ↦ elim rest [
      | inl second ↦ ground (arith, nat_eqb_iff b id, second)
      | inr impossible ↦ elim impossible [ ]
    ]
  ],
)

says :
    (v : Version)
    → IsMember v wallet.federation_wallets
    → (v.federation.contains 3 ≡ true) ↔ IsMember 3 v.federation.signers
says v m = elim m [
  | inl first ↦
      subst (λ (x : Version). (x.federation.contains 3 ≡ true) ↔ IsMember 3 x.federation.signers)
        (sym first) (consistent 1 2 3)
  | inr rest ↦ elim rest [
    | inl second ↦
        subst (λ (x : Version). (x.federation.contains 3 ≡ true) ↔ IsMember 3 x.federation.signers)
          (sym second) (consistent 2 3 3)
    | inr impossible ↦ elim impossible [ ]
  ]
]

find_by_signer_iff_example :
    ((v : Version)
      → IsMember v (find_by_signer wallet 3)
        ↔ (IsMember v wallet.federation_wallets × IsMember 3 v.federation.signers))
    × (IsMember 3 (all_signer_ids wallet) ↔ ((v : Version) × IsMember v (find_by_signer wallet 3)))
find_by_signer_iff_example = find_by_signer_iff wallet 3 says
