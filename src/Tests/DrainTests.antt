-- ===== src/Tests/DrainTests.antt =====
-- A drain of three outputs. The daemon answers with the indices that it was sent.
use emvault_elements.Prelude.{
  ℕ, ◌≡◌, refl, sym, subst, ap, none, List, [], ◌∷◌, ◌++◌, map, arith, if◌then◌else◌, ◌==◌, codes,
  Text, IsMember,
}
use emvault_elements.Prelude.Tests.{bytes_eq}
use emvault_elements.Prelude.Result.{Result, ok, err}
use emvault_elements.Prelude.Int.{pos}
use emvault_elements.Rpc.{ElementsRpc, FundedPsbt, Backend}
use emvault_elements.Rpc.Funding.{wallet_create_funded_psbt_drain, output_indices}
use emvault_elements.Rpc.Drain.{Funder, Drains, wallet_create_funded_psbt_drain-Drains}

-- A value is the numbers in it, and an object is its field `subtractFeeFromOutputs`.
abbrev Numbers : Type 0
Numbers = List ℕ

abbrev joined : List Numbers → Numbers
joined [] = []
joined (v ∷ vs) = v ++ joined vs

abbrev field : List (Text × Numbers) → Numbers
field [] = []
field ((key, v) ∷ rest) = if key == codes "subtractFeeFromOutputs" then v else field rest

abbrev options : List Numbers → Numbers
options (inputs ∷ outputs ∷ locktime ∷ v ∷ rest) = v
options _ = []

abbrev answer : Text → List Numbers → ℕ → Result Text Numbers × ℕ
answer method args s =
    if method == codes "walletcreatefundedpsbt" then (ok (options args), s) else (err method, s)

abbrev funded_by : Numbers → FundedPsbt ℕ
funded_by v = record { psbt = v; fee = 0; changepos = pos 0 }

abbrev backend : Backend ℕ (Unit {0}) Numbers ℕ Text
backend = record {
  net = record {
    connect = λ url user password.
        if url == codes "http://localhost:7041/wallet/vault" then ok tt else err url;
    call = λ client. answer;
    get_block_count = λ client s. (ok 0, s);
  };
  json = record {
    string = λ t. t;
    bool = λ b. [];
    number = λ n. n ∷ [];
    float = λ f. [];
    array = joined;
    object = field;
    zero_float = 0;
    get = λ v key. none;
    index = λ v key. v;
    as_str = λ v. none;
    as_array = λ v. none;
    as_f64 = λ v. none;
  };
  decode = record {
    texts = λ v. err [];
    text = λ v. err [];
    descriptor_info = λ v. err [];
    import_results = λ v. err [];
    utxos = λ v. err [];
    transactions = λ v. err [];
    funded_psbt = λ v. ok (funded_by v);
  };
}

abbrev node : ElementsRpc
node = record { base_url = codes "http://localhost:7041"; user = codes "u"; password = codes "p" }

-- The outputs that bear the fee are those that the answer lists.
abbrev Charged : FundedPsbt ℕ → ℕ → Type 0
Charged funded i = IsMember i funded.psbt

abbrev three : List Numbers
three = (8 ∷ []) ∷ (9 ∷ []) ∷ (8 ∷ []) ∷ []

joined_lem : (is : List ℕ) → joined (map (λ n. n ∷ []) is) ≡ is
joined_lem [] = refl
joined_lem (i ∷ is) = ap (λ l. i ∷ l) (joined_lem is)

daemon : Funder backend node Charged (codes "vault") three 1 0
daemon = record {
  client = tt;
  connects = refl;
  funds = λ is within distinct. record {
    reply = joined (map (λ n. n ∷ []) is);
    after = 0;
    funded = funded_by (joined (map (λ n. n ∷ []) is));
    runs = refl;
    decodes = refl;
    charges = λ i. (
      λ m. subst (IsMember i) (joined_lem is) m,
      λ m. subst (IsMember i) (sym (joined_lem is)) m,
    );
  };
}

drained :
    wallet_create_funded_psbt_drain backend node (codes "vault") three 1 0
    ≡ (ok (funded_by (0 ∷ 1 ∷ 2 ∷ [])), 0)
unfolding wallet_create_funded_psbt_drain output_indices
drained = refl

wallet_create_funded_psbt_drain-Drains_example :
    Drains backend node Charged (codes "vault") three 1 0
wallet_create_funded_psbt_drain-Drains_example =
    wallet_create_funded_psbt_drain-Drains backend node Charged (codes "vault") three 1 0 daemon
      (omega arith)
