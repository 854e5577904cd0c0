-- ===== src/Tests/BuiltTests.antt =====
-- A spend and a sweep of two captured outputs.
use emvault_elements.Prelude.{
  ℕ, ◌+◌, ◌*◌, ◌≡◌, refl, none, some, List, [], ◌∷◌, All, ◌++◌, map, get_elem?, set, codes, Text,
}
use emvault_elements.Prelude.Tests.{nat_eq}
use emvault_elements.Prelude.Result.{Result, ok, err}
use emvault_elements.Elements.{
  outpoint_eq, OutPoint, DefiniteDescriptor, Chain, external, internal, Pset, PsetInput, PsetOutput,
  Address, SingleDescriptor,
}
use emvault_elements.Sync.Types.{CapturedUtxo}
use emvault_elements.Spend.{
  TxBuilder, ExternalUtxo, singles_of, max_weight_of, definite_at, build_spend_pset,
  build_sweep_pset, prepare_inputs, prepare_from, external_utxo, finish_blinded, enrich_from,
  enrich_input,
}
use emvault_elements.Prelude.Map
use emvault_elements.Pset.{new_blinded}
use emvault_elements.Pset.Stages.{IsProved}
use emvault_elements.Spend.Proved.{swept, Returned-IsProved}
use emvault_elements.Spend.Places.{Describes, Weighs, Splits, receive, change}
use emvault_elements.Wollet.{ElementsWollet}
use emvault_elements.Spend.Sources.{Definite}
use emvault_elements.Spend.Prepare.{own}
use emvault_elements.Spend.Finished.{IsAccepted, Spends}
use emvault_elements.Spend.Built.{
  Assembled, Drained, build_spend_pset-Spends, build_sweep_pset-Spends,
}
use emvault_elements.Tests.SpendTests.{wollet, captured, clear_output, spending}

-- The descriptors of one chain; each index has its own text and weight.
abbrev pub leaf : ℕ → ℕ → DefiniteDescriptor
leaf chain i = record { text = chain ∷ i ∷ []; max_weight_to_satisfy = ok (200 + 10 * chain + i) }

abbrev pub form : ℕ → SingleDescriptor
form chain = record { at_derivation_index = λ i. ok (leaf chain i) }

-- A wollet with the forms of two chains.
abbrev pub account : ℕ → ℕ → Text → ElementsWollet
account a b t = record wollet {
  descriptor = record (wollet.descriptor) {
    text = t;
    descriptor = ok (record { into_single_descriptors = ok (form a ∷ form b ∷ []) });
  };
}

abbrev singles : List SingleDescriptor
singles = form 0 ∷ form 1 ∷ []

abbrev spender : ElementsWollet
spender = account 0 1 (codes "ct")

abbrev pub at : OutPoint → ℕ → Chain → CapturedUtxo
at op i c = record (captured c) { outpoint = op; wildcard_index = i }

abbrev pub utxos : List CapturedUtxo
utxos =
    at (record { txid = 5; vout = 1 }) 3 external
    ∷ at (record { txid = 6; vout = 0 }) 4 internal
    ∷ []

weighs : Weighs singles 200
weighs = record {
  single = form 0;
  definite = leaf 0 0;
  path = receive _ _;
  derives = refl;
  weighs = refl;
}

definites : All (Definite own (Describes singles)) utxos
definites = (
  record {
    definite = leaf 0 3;
    describes = record { single = form 0; path = receive _ _; derives = refl };
  },
  (
    record {
      definite = leaf 1 4;
      describes = record { single = form 1; path = change _ _ _; derives = refl };
    },
    tt,
  ),
)

-- The witness script is the text of the descriptor.
abbrev pub described : DefiniteDescriptor → PsetInput → PsetInput
described d i = record i { witness_script = some d.text }

abbrev pub update : Pset → ℕ → DefiniteDescriptor → Result Text Pset
update p idx d = elim (get_elem? p.inputs idx) [
  | none ↦ err (codes "no input")
  | some i ↦ ok (record p { inputs = set p.inputs idx (described d i) })
]

abbrev pub input_at : OutPoint → PsetInput
input_at op = record (spending clear_output) {
  previous_txid = op.txid;
  previous_output_index = op.vout;
}

abbrev pub paid_output : PsetOutput
paid_output = record {
  script_pubkey = 0 ∷ [];
  amount_comm = some (2 ∷ []);
  asset_comm = some (3 ∷ []);
  value_rangeproof = some (1 ∷ []);
  asset_surjection_proof = some (1 ∷ []);
  blinder_index = some 0;
}

-- The builder is the list of the inputs, and it adds one of its own.
abbrev pub lwk : TxBuilder (List PsetInput) ℕ
lwk = record {
  new = λ n. input_at (record { txid = 77; vout = 0 }) ∷ [];
  add_external_utxos = λ us b. ok (b ++ map (λ (u : ExternalUtxo). input_at u.outpoint) us);
  add_lbtc_recipient = λ a n b. ok b;
  drain_lbtc_wallet = λ b. b;
  drain_lbtc_to = λ a b. b;
  fee_rate = λ r b. b;
  finish = λ w b. ok (record { inputs = b; outputs = paid_output ∷ [] });
}

abbrev pub recipient : Address
recipient = record { script_pubkey = 5 ∷ [] }

abbrev assembled : Assembled update described singles utxos lwk spender 200 recipient 10 1
assembled = record { funded = _; paid = _; pset = _; funds = refl; pays = refl; finishes = refl }

accepted : (i : PsetInput) → IsAccepted update described own (Describes singles) utxos i
unfolding IsAccepted
accepted i d p idx source here = rw (here, update) refl

splits : Splits spender singles
splits = record { multipath = _; derives = refl; splits = refl }

build_spend_pset-Spends_example :
    Spends update described own
      (Describes singles)
      utxos
      assembled.pset
      (build_spend_pset update lwk spender utxos recipient 10 1)
build_spend_pset-Spends_example =
    build_spend_pset-Spends update described singles utxos lwk spender 200 recipient 10 1 splits
      weighs definites assembled refl (accepted _, (accepted _, (accepted _, tt)))

abbrev drained : Drained update described singles utxos lwk spender 200 recipient 1
drained = record { funded = _; pset = _; funds = refl; finishes = refl }

build_sweep_pset-Spends_example :
    Spends update described own
      (Describes singles)
      utxos
      drained.pset
      (build_sweep_pset update lwk spender utxos recipient 1)
build_sweep_pset-Spends_example =
    build_sweep_pset-Spends update described singles utxos lwk spender 200 recipient 1 splits weighs
      definites drained refl (accepted _, (accepted _, (accepted _, tt)))

abbrev swept_pset : Pset
swept_pset = record {
  inputs =
      input_at (record { txid = 77; vout = 0 })
      ∷ described (leaf 0 3) (input_at (record { txid = 5; vout = 1 }))
      ∷ described (leaf 1 4) (input_at (record { txid = 6; vout = 0 }))
      ∷ [];
  outputs = paid_output ∷ [];
}

sweep_runs :
    build_sweep_pset update lwk spender utxos recipient 1 ≡ ok (record { pset = swept_pset })
unfolding build_sweep_pset singles_of prepare_inputs prepare_from max_weight_of definite_at
    external_utxo finish_blinded enrich_from enrich_input new_blinded Map.get Map.insert
sweep_runs = refl

Returned-IsProved_example : IsProved (paid_output ∷ [])
Returned-IsProved_example =
    Returned-IsProved update lwk (λ p secrets. ok p) (record { pset = swept_pset })
      (swept spender utxos recipient 1 sweep_runs)
