-- ===== src/Tests/TeamTests.antt =====
-- Two software signers and a 2-of-2 federation.
use emvault_elements.Prelude.{
  ℕ, ◌+◌, ◌≡◌, refl, ◌||◌, none, some, List, [], ◌∷◌, All, ◌==◌, Text, Bytes, length, arith,
}
use emvault_elements.Prelude.Tests.{nat_eq}
use emvault_elements.Prelude.Result.{ok}
use emvault_elements.Prelude.Exec.{pure}
use emvault_elements.Prelude.Map
use emvault_elements.Elements.{PsetOutput, Pset, PsetInput, ScriptOps, Transaction}
use emvault_elements.Pset.{BlindedPset, new_blinded}
use emvault_elements.Confidential.{
  validate_blinding, validate_blinding_raw, check_outputs, check_output,
}
use emvault_elements.Network.{NetworkType, ElementsNetworkId}
use emvault_elements.Federation.{Federation}
use emvault_elements.Pset.Finalize.Witness.{IsScripted}
use emvault_elements.Pset.Coordinator.{Coordinator, ElementsSigner, new}
use emvault_elements.Pset.Coordinator.Quorum.{IsDistinct}
use emvault_elements.Pset.Coordinator.Live.{Turn, IsWorking, Waiting, Finishes, turns-Finishes}
use emvault_elements.Testkit.{
  Keys, PsetOps, SoftwareSigner, ecdsa_sighash, mine, sign_keys, sign_message, sign_input,
  sign_from, sign_pset,
}
use emvault_elements.Testkit.Touched.{Within, sign_pset-Within}
use emvault_elements.Testkit.Signing.{Hashes, Signs, sign_pset-Signs}
use emvault_elements.Testkit.Team.{Member}

-- A key is a number; a child key adds the length of its path.
abbrev pub keys : Keys ℕ
keys = record {
  new_master = λ seed. some (length seed);
  parse_path = λ t. some t;
  derive_priv = λ k path. ok (k + length path);
  xpub_of = λ k. k ∷ [];
  fingerprint_of = λ k. k;
  id_of = λ f. f;
  sign_ecdsa = λ message k. message ∷ k ∷ [];
  genesis_hash = λ n. 0;
}

abbrev pub tx : Transaction
tx = record { txid = 5; input = []; output = [] }

-- The message of input `idx` is 100 + idx.
abbrev pub pset_ops : PsetOps
pset_ops = record {
  extract_tx = λ p. ok tx;
  sighash_msg = λ p idx tx genesis. ok (ecdsa_sighash (100 + idx));
}

abbrev ops : ScriptOps
ops = record { instructions = λ s. []; from_slice = λ b. none }

abbrev pub input : PsetInput
input = record {
  previous_txid = 7;
  previous_output_index = 0;
  witness_utxo = none;
  partial_sigs = (9, 99 ∷ []) ∷ [];
  witness_script = some (0x52 ∷ []);
  bip32_derivation = (1, (10, 3 ∷ [])) ∷ (2, (20, 4 ∷ 4 ∷ [])) ∷ [];
  redeem_script = none;
  sighash_type = some 1;
  final_script_witness = none;
}

abbrev pub proved_output : PsetOutput
proved_output = record {
  script_pubkey = 0 ∷ [];
  amount_comm = some (2 ∷ []);
  asset_comm = some (3 ∷ []);
  value_rangeproof = some (1 ∷ []);
  asset_surjection_proof = some (1 ∷ []);
  blinder_index = some 0;
}

abbrev pset : Pset
pset = record { inputs = input ∷ input ∷ []; outputs = proved_output ∷ [] }

abbrev pub signer_of : ℕ → SoftwareSigner ℕ
signer_of k = record { master = k; path = []; xpub = k ∷ []; fingerprint = k; id = k; genesis = 0 }

abbrev signatures : ℕ → List (ℕ × Bytes)
signatures idx = (9, 99 ∷ []) ∷ (1, (100 + idx) ∷ 11 ∷ 1 ∷ []) ∷ []

-- Signer 10 signs both inputs with key 1, and leaves the signature of key 9.
signed : sign_pset keys pset_ops (signer_of 10) pset ≡ (
  ok 2,
  record pset {
    inputs =
        record input { partial_sigs = signatures 0 }
        ∷ record input { partial_sigs = signatures 1 }
        ∷ [];
  },
)
unfolding sign_pset sign_from sign_input sign_message sign_keys mine Map.insert
signed = refl

sign_pset-Within_example : Within 10 pset (sign_pset keys pset_ops (signer_of 10) pset).1
sign_pset-Within_example = sign_pset-Within keys (signer_of 10) pset_ops pset

abbrev pub child_of : ℕ → Text → ℕ
child_of k path = k + length path

hashes : (k : ℕ) → Hashes keys (signer_of k) (child_of k) (λ path. refl) pset_ops tx (◌+◌ 100) pset
unfolding Hashes
hashes k q idx w small = refl

sign_pset-Signs_example :
    (after : Pset) × Signs keys
      (signer_of 10)
      (child_of 10)
      (λ path. refl)
      pset_ops
      tx
      (◌+◌ 100)
      pset
      (hashes 10)
      after
sign_pset-Signs_example =
    sign_pset-Signs keys (signer_of 10) (child_of 10) (λ path. refl) pset_ops tx (◌+◌ 100) pset
      (hashes 10) refl

abbrev pub federation : Federation
federation = record {
  threshold = 2;
  network = NetworkType.elements ElementsNetworkId.liquid;
  signers = 10 ∷ 20 ∷ [];
  contains = λ id. (id == 10) || (id == 20);
  find = λ id. some id;
}

abbrev begun : Coordinator
begun = record { federation = federation; pset = pset; signed = [] }

abbrev blinded : BlindedPset
blinded = record { pset = pset }

blinded_lem : new_blinded pset ≡ ok blinded
unfolding new_blinded
blinded_lem = refl

begun_lem : new federation blinded ≡ ok begun
unfolding new validate_blinding validate_blinding_raw check_outputs check_output
begun_lem = refl

abbrev pub team : List (Member ℕ)
team = record { id = 10; signer = signer_of 10 } ∷ record { id = 20; signer = signer_of 20 } ∷ []

scripted : All IsScripted pset.inputs
unfolding IsScripted
scripted = ((0x52 ∷ [], refl), ((0x52 ∷ [], refl), tt))

-- A signer that counts one input and changes nothing
abbrev idle : ElementsSigner
idle = record { sign_pset = pure 1 }

abbrev two_turns : List Turn
two_turns = record { id = 20; signer = idle } ∷ record { id = 10; signer = idle } ∷ []

abbrev IsAllScripted : Pset → Type 0
IsAllScripted p = All IsScripted p.inputs

idle-IsWorking : IsWorking ops pset_ops.extract_tx IsAllScripted idle
unfolding IsWorking
idle-IsWorking p h = record { less_one = 0; signs = refl; ready = h }

two_turns-Waiting : Waiting ops pset_ops.extract_tx IsAllScripted two_turns begun
unfolding IsDistinct
two_turns-Waiting = record {
  members = (refl, (refl, tt));
  working = (idle-IsWorking, (idle-IsWorking, tt));
  fresh = (refl, (refl, tt));
  distinct = (refl, (refl, tt));
  ready = scripted;
}

turns-Finishes_example : Finishes ops pset_ops.extract_tx IsAllScripted two_turns begun
turns-Finishes_example =
    turns-Finishes ops pset_ops.extract_tx IsAllScripted two_turns begun two_turns-Waiting
      (omega arith) (omega arith)
      (λ p h. record { scripted = h; transaction = tx; extracts = refl })
