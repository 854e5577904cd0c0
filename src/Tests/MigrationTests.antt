-- ===== src/Tests/MigrationTests.antt =====
-- A migration of the outputs of two accounts.
use emvault_elements.Prelude.{ℕ, refl, if◌then◌else◌, ◌==◌, List, [], ◌∷◌, All, codes, Text}
use emvault_elements.Prelude.Tests.{bytes_eq}
use emvault_elements.Prelude.Result.{Result, ok}
use emvault_elements.Elements.{
  outpoint_eq, external, internal, PsetInput, Address, SingleDescriptor,
}
use emvault_elements.Error.{SpendError}
use emvault_elements.Wollet.{ElementsWollet}
use emvault_elements.Spend.{singles_of, build_migration_pset}
use emvault_elements.Spend.Places.{receive, change}
use emvault_elements.Spend.Finished.{IsAccepted, Spends}
use emvault_elements.Spend.Migration.{IsFormed}
use emvault_elements.Spend.Migrated.{
  Owned, Derivable, utxo_of, OwnerDescribes, externals_of, pay, done, Assembled,
  build_migration_pset-Spends,
}
use emvault_elements.Tests.BuiltTests.{leaf, form, account, at, described, update, lwk, recipient}

-- Two accounts with different forms
abbrev one : ElementsWollet
one = account 0 1 (codes "ct")

abbrev other : ElementsWollet
other = account 2 3 (codes "ct2")

abbrev forms : Text → Result SpendError (List SingleDescriptor)
forms t = if t == codes "ct" then ok (form 0 ∷ form 1 ∷ []) else ok (form 2 ∷ form 3 ∷ [])

abbrev inputs : List Owned
inputs =
    (at (record { txid = 5; vout = 1 }) 3 external, one)
    ∷ (at (record { txid = 6; vout = 0 }) 4 internal, other)
    ∷ []

formed : All (λ o. IsFormed forms o.1) inputs
unfolding IsFormed singles_of
formed = (refl, (refl, tt))

abbrev derivable : All Derivable inputs
derivable = (
  record {
    singles = form 0 ∷ form 1 ∷ [];
    weight = 200;
    definite = leaf 0 3;
    splits = record { multipath = _; derives = refl; splits = refl };
    weighs = record {
      single = form 0;
      definite = leaf 0 0;
      path = receive _ _;
      derives = refl;
      weighs = refl;
    };
    describes = record { single = form 0; path = receive _ _; derives = refl };
  },
  (
    record {
      singles = form 2 ∷ form 3 ∷ [];
      weight = 220;
      definite = leaf 3 4;
      splits = record { multipath = _; derives = refl; splits = refl };
      weighs = record {
        single = form 2;
        definite = leaf 2 0;
        path = receive _ _;
        derives = refl;
        weighs = refl;
      };
      describes = record { single = form 3; path = change _ _ _; derives = refl };
    },
    tt,
  ),
)

abbrev customers : List (Address × ℕ)
customers = (recipient, 20) ∷ (recipient, 30) ∷ []

abbrev assembled : Assembled lwk one (externals_of inputs derivable) customers recipient 1
assembled = record {
  funded = _;
  paid = _;
  pset = _;
  funds = refl;
  pays = pay _ _ _ _ _ _ refl (pay _ _ _ _ _ _ refl (done _));
  finishes = refl;
}

accepted : (i : PsetInput) → IsAccepted update described utxo_of OwnerDescribes inputs i
unfolding IsAccepted
accepted i d p idx source here = rw (here, update) refl

build_migration_pset-Spends_example :
    Spends update described utxo_of OwnerDescribes inputs assembled.pset
      (build_migration_pset update lwk one inputs customers recipient 1)
unfolding externals_of
build_migration_pset-Spends_example =
    build_migration_pset-Spends update described forms inputs lwk one customers recipient 1 formed
      derivable assembled refl (accepted _, (accepted _, (accepted _, tt)))
