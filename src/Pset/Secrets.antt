-- ===== src/Pset/Secrets.antt =====
-- The secrets of a PSET's inputs.
use emvault_elements.Prelude.{
  ℕ, suc, ◌+◌, ◌<◌, ◌≤◌, ◌≡◌, refl, ◌∙◌, none, some, List, [], ◌∷◌, arith, All, length, nat_eqb_iff,
  Text,
}
use emvault_elements.Prelude.Tests.{nat_eq}
use emvault_elements.Prelude.Result.{Result, ok}
use emvault_elements.Prelude.Map
use emvault_elements.Prelude.Map.{Map}
use emvault_elements.Prelude.Map.Laws.{get-insert}
use emvault_elements.Elements.{
  Pset, PsetInput, TxOut, TxOutSecrets, Confidential, null, explicit, commitment, MasterBlindingKey,
}
use emvault_elements.Pset.{
  explicit_txout_secrets, unblind_input, slip77_blinding_key, txout_secrets, secrets_from,
  derive_input_secrets,
}

module _ (unblind : TxOut → ℕ → Result Text TxOutSecrets) (master : MasterBlindingKey) where
  -- The secrets of an output. An output with an explicit value and an explicit asset has these, and
  -- blinding factors of zero; any other output is unblinded with the key that the master key gives
  -- for its script.
  pub data Opens (utxo : TxOut) : TxOutSecrets → Type 0 where
    clear :
        (value asset : ℕ)
        → utxo.value ≡ explicit value
        → utxo.asset ≡ explicit asset
        → Opens utxo (record { asset = asset; asset_bf = 0; value = value; value_bf = 0 })
    hidden :
        (secrets : TxOutSecrets)
        → ((value asset : ℕ) → utxo.value ≡ explicit value → utxo.asset ≡ explicit asset → ⊥)
        → unblind utxo (master.blinding_private_key utxo.script_pubkey) ≡ ok secrets
        → Opens utxo secrets

  hidden_lem :
      (utxo : TxOut) (secrets : TxOutSecrets) (v a : Confidential)
      → ((value asset : ℕ) → v ≡ explicit value → a ≡ explicit asset → ⊥)
      → unblind utxo (master.blinding_private_key utxo.script_pubkey) ≡ ok secrets
      → txout_secrets unblind master utxo v a ≡ ok secrets
  unfolding txout_secrets unblind_input slip77_blinding_key
  hidden_lem utxo secrets (explicit v) (explicit a) apart e = absurd (apart v a refl refl)
  hidden_lem utxo secrets (explicit v) null apart e = rw e refl
  hidden_lem utxo secrets (explicit v) (commitment c) apart e = rw e refl
  hidden_lem utxo secrets null a apart e = rw e refl
  hidden_lem utxo secrets (commitment c) a apart e = rw e refl

  txout_secrets_lem :
      (utxo : TxOut) (secrets : TxOutSecrets)
      → Opens utxo secrets
      → txout_secrets unblind master utxo utxo.value utxo.asset ≡ ok secrets
  unfolding txout_secrets explicit_txout_secrets
  txout_secrets_lem utxo _ (clear value asset v a) = rw (v, a) refl
  txout_secrets_lem utxo _ (hidden secrets apart e) =
      hidden_lem utxo secrets utxo.value utxo.asset apart e

  -- The secrets of one input: it names the output that it spends, and these are that output's.
  pub record Revealed (input : PsetInput) : Type 0 where
    pub utxo : TxOut
    pub secrets : TxOutSecrets
    pub named : input.witness_utxo ≡ some utxo
    pub opened : Opens utxo secrets

  -- The map has the secrets of the inputs at the positions from `i` on.
  pub Filed : ℕ → (inputs : List PsetInput) → All Revealed inputs → Map ℕ TxOutSecrets → Type 0
  Filed i [] r m = Unit
  Filed i (input ∷ rest) (r, rs) m = (Map.get i m ≡ some r.secrets) × Filed (suc i) rest rs m

  -- What the loop returns.
  record Filled (i : ℕ) (inputs : List PsetInput) (r : All Revealed inputs) (m : Map ℕ TxOutSecrets)
      : Type 0 where
    after : Map ℕ TxOutSecrets
    runs : secrets_from unblind master i inputs m ≡ ok after
    kept : (k : ℕ) → k < i → Map.get k after ≡ Map.get k m
    past : (k : ℕ) → i + length inputs ≤ k → Map.get k after ≡ Map.get k m
    filed : Filed i inputs r after

  secrets_from-step :
      (i : ℕ) (input : PsetInput) (rest : List PsetInput) (r : Revealed input)
      (m : Map ℕ TxOutSecrets)
      → secrets_from unblind master i (input ∷ rest) m
        ≡ secrets_from unblind master (suc i) rest (Map.insert i r.secrets m)
  unfolding secrets_from
  secrets_from-step i input rest r m = simp (r.named, txout_secrets_lem r.utxo r.secrets r.opened)

  fill :
      (i : ℕ) (inputs : List PsetInput) (r : All Revealed inputs) (m : Map ℕ TxOutSecrets)
      → Filled i inputs r m
  unfolding secrets_from Filed
  fill i [] r m = record {
    after = m;
    runs = refl;
    kept = λ k lt. refl;
    past = λ k le. refl;
    filed = tt;
  }
  fill i (input ∷ rest) (r, rs) m =
      let later = fill (suc i) rest rs (Map.insert i r.secrets m) in
      record {
        after = later.after;
        runs = secrets_from-step i input rest r m ∙ later.runs;
        kept = λ k lt.
            later.kept k (omega arith)
            ∙ ground (arith, get-insert i k r.secrets m, nat_eqb_iff i k);
        past = λ k le.
            later.past k (omega arith)
            ∙ ground (arith, get-insert i k r.secrets m, nat_eqb_iff i k);
        filed = (
          later.kept i (omega arith) ∙ ground (arith, get-insert i i r.secrets m, nat_eqb_iff i i),
          later.filed,
        );
      }

  -- What `derive_input_secrets` returned.
  pub record Derived (pset : Pset) (r : All Revealed pset.inputs) : Type 0 where
    pub secrets : Map ℕ TxOutSecrets
    pub runs : derive_input_secrets unblind master pset ≡ ok secrets
    pub filed : Filed 0 pset.inputs r secrets
    pub only : (k : ℕ) → length pset.inputs ≤ k → Map.get k secrets ≡ none

  -- If every input names the output that it spends, and that output is explicit in value and asset or
  -- is unblinded with the key that the master key gives for its script, `derive_input_secrets`
  -- succeeds: its map has at each input's position the explicit asset and value with blinding
  -- factors of zero, or what the unblinding returned, and nothing at any other position.
  pub derive_input_secrets-Derived : (pset : Pset) (r : All Revealed pset.inputs) → Derived pset r
  unfolding derive_input_secrets Map.get
  derive_input_secrets-Derived pset r =
      let all = fill 0 pset.inputs r [] in
      record {
        secrets = all.after;
        runs = all.runs;
        filed = all.filed;
        only = λ k le. all.past k (omega arith);
      }
