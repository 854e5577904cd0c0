-- ===== src/Tests/SpendTests.antt =====
-- Watched scripts and their registration, the secrets of inputs, and the preparation of a migration.
use emvault_elements.Prelude.{
  ℕ, ◌+◌, ◌≡◌, refl, false, none, some, List, [], ◌∷◌, All, codes, Text, length, if◌then◌else◌,
  ◌==◌,
}
use emvault_elements.Prelude.Tests.{bytes_eq, nat_eq}
use emvault_elements.Prelude.Result.{Result, ok, err}
use emvault_elements.Elements.{
  Script, outpoint_eq, TxOut, TxOutSecrets, Confidential, Chain, external, internal,
  WolletDescriptor, SingleDescriptor, DefiniteDescriptor, Pset, PsetInput, MasterBlindingKey,
}
use emvault_elements.Error.{SpendError}
use emvault_elements.Network.{ElementsNetwork, LwkNetwork}
use emvault_elements.Wollet.{ElementsWollet, address, watched_scripts, watched_from}
use emvault_elements.Wollet.Watched.{IsDerivable, Scripts, watched_scripts_lem}
use emvault_elements.Pset.Secrets.{clear, hidden, Revealed, Derived, derive_input_secrets-Derived}
use emvault_elements.Sync.Types.{CapturedUtxo}
use emvault_elements.Sync.Scan.{ScriptEntry, BlockScanEngine}
use emvault_elements.Sync.Indexed.{Registers, register_wallet-Registers}
use emvault_elements.Spend.{singles_of, migrate_from}
use emvault_elements.Spend.Migration.{IsFormed, migrate_each, migrate_from_lem}

abbrev secrets : TxOutSecrets
secrets = record { asset = 1; asset_bf = 2; value = 30; value_bf = 4 }

abbrev pub definite : DefiniteDescriptor
definite = record { text = codes "d"; max_weight_to_satisfy = ok 200 }

abbrev pub single : SingleDescriptor
single = record { at_derivation_index = λ i. ok definite }

abbrev forms : Text → Result SpendError (List SingleDescriptor)
forms t = ok (single ∷ single ∷ [])

abbrev descriptor : WolletDescriptor
descriptor = record {
  text = codes "ct";
  address = λ i _. ok (record { script_pubkey = 0 ∷ i ∷ [] });
  change = λ i _. ok (record { script_pubkey = 1 ∷ i ∷ [] });
  try_unblind = λ _. ok secrets;
  descriptor = ok (record { into_single_descriptors = ok (single ∷ single ∷ []) });
}

abbrev pub wollet : ElementsWollet
wollet = record {
  descriptor = descriptor;
  master_blinding_key = [];
  network = ElementsNetwork.elements_regtest;
  lwk_network = LwkNetwork.default_regtest;
}

abbrev listed : List (Script × Chain × ℕ)
listed =
    (0 ∷ 0 ∷ [], external, 0)
    ∷ (1 ∷ 0 ∷ [], internal, 0)
    ∷ (0 ∷ 1 ∷ [], external, 1)
    ∷ (1 ∷ 1 ∷ [], internal, 1)
    ∷ []

watched : watched_scripts wollet 2 ≡ ok listed
unfolding watched_scripts watched_from
watched = refl

derives : IsDerivable wollet 0 2
unfolding IsDerivable address
derives external j lt = (record { script_pubkey = 0 ∷ (0 + j) ∷ [] }, refl)
derives internal j lt = (record { script_pubkey = 1 ∷ (0 + j) ∷ [] }, refl)

watched_scripts_lem_example : Scripts wollet 2
watched_scripts_lem_example = watched_scripts_lem wollet 2 derives

-- Another wallet has one of the scripts, and one that this wallet does not watch.
abbrev shared_engine : BlockScanEngine
shared_engine =
    let other : ScriptEntry = record {
      wallet_id = record { bytes = 8 ∷ [] };
      chain = external;
      wildcard_index = 5;
      wollet_idx = 0;
    } in
    record { index = ((0 ∷ 1 ∷ []), other) ∷ ((7 ∷ []), other) ∷ []; wollets = wollet ∷ [] }

register_wallet-Registers_example :
    Registers (record { bytes = 9 ∷ [] }) wollet 2 shared_engine listed
register_wallet-Registers_example =
    register_wallet-Registers (record { bytes = 9 ∷ [] }) wollet 2 shared_engine listed watched

abbrev pub clear_output : TxOut
clear_output = record {
  asset = Confidential.explicit 6;
  value = Confidential.explicit 70;
  nonce = [];
  script_pubkey = 0 ∷ 0 ∷ [];
  witness = [];
}

abbrev blinded_output : TxOut
blinded_output = record clear_output { value = Confidential.commitment (8 ∷ []) }

abbrev pub spending : TxOut → PsetInput
spending utxo = record {
  previous_txid = 7;
  previous_output_index = 0;
  witness_utxo = some utxo;
  partial_sigs = [];
  witness_script = none;
  bip32_derivation = [];
  redeem_script = none;
  sighash_type = none;
  final_script_witness = none;
}

abbrev pset : Pset
pset = record { inputs = spending clear_output ∷ spending blinded_output ∷ []; outputs = [] }

abbrev master : MasterBlindingKey
master = record { blinding_private_key = λ s. length s }

-- The key of the script opens the output.
abbrev unblind : TxOut → ℕ → Result Text TxOutSecrets
unblind utxo k = if k == 2 then ok secrets else err (codes "key")

revealed : All (Revealed unblind master) (pset.inputs)
revealed = (
  record {
    utxo = clear_output;
    secrets = record { asset = 6; asset_bf = 0; value = 70; value_bf = 0 };
    named = refl;
    opened = clear 70 6 refl refl;
  },
  (
    record {
      utxo = blinded_output;
      secrets = secrets;
      named = refl;
      opened = hidden secrets (λ value asset v a. absurd (cc)) refl;
    },
    tt,
  ),
)

derive_input_secrets-Derived_example : Derived unblind master pset revealed
derive_input_secrets-Derived_example = derive_input_secrets-Derived unblind master pset revealed

abbrev pub captured : Chain → CapturedUtxo
captured c = record {
  wallet_id = record { bytes = 9 ∷ [] };
  outpoint = record { txid = 5; vout = 1 };
  txout = clear_output;
  secrets = secrets;
  chain = c;
  wildcard_index = 3;
  height = 2;
  is_spent = false;
}

abbrev migrated : List (CapturedUtxo × ElementsWollet)
migrated = (captured external, wollet) ∷ (captured internal, wollet) ∷ []

formed : All (λ p. IsFormed forms p.1) migrated
unfolding IsFormed singles_of
formed = (refl, (refl, tt))

migrate_from_lem_example : migrate_from migrated [] ([], []) ≡ migrate_each migrated ([], [])
migrate_from_lem_example = migrate_from_lem forms migrated ([], []) formed
