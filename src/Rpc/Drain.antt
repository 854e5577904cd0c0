-- ===== src/Rpc/Drain.antt =====
-- `wallet_create_funded_psbt_drain` against what the daemon documents of `walletcreatefundedpsbt`.
use emvault_elements.Prelude.{
  ℕ, zero, suc, true, ◌⊎◌, ◌+◌, ◌^◌, ◌<◌, ◌≤◌, ◌≡◌, ◌↔◌, refl, inl, inr, List, [], ◌∷◌, ◌++◌,
  IsMember, arith, length, map, codes, Text,
}
use emvault_elements.Prelude.Result.{ok}
use emvault_elements.Rpc.{ElementsRpc, FundedPsbt, Backend}
use emvault_elements.Rpc.Wallets.{client_for_wallet}
use emvault_elements.Rpc.Funding.{
  saturated, range_from, output_indices, wallet_create_funded_psbt_drain,
}

range_from_iff : (i n j : ℕ) → IsMember j (range_from i n) ↔ ((i ≤ j) × (j < i + n))
unfolding range_from
range_from_iff i zero j = (λ m. absurd m, λ h. absurd (omega (arith, h.0, h.1)))
range_from_iff i (suc n) j =
    let rest = range_from_iff (suc i) n j in
    (
      λ m. elim m [
        | inl same ↦ (omega (arith, same), omega (arith, same))
        | inr later ↦
            let (least, most) = rest.0 later in (omega (arith, least), omega (arith, most))
      ],
      λ h. elim (first_or_later i n j h.0 h.1) [
        | inl same ↦ inl same
        | inr later ↦ inr (rest.1 later)
      ],
    )
  where
    first_or_later : (i n j : ℕ) → i ≤ j → j < i + suc n → (j ≡ i) ⊎ ((suc i ≤ j) × (j < suc i + n))
    first_or_later i n j le lt = ground arith

-- No index is listed twice.
pub IsDistinct : List ℕ → Type 0
IsDistinct [] = Unit
IsDistinct (i ∷ is) = (IsMember i is → ⊥) × IsDistinct is

range_from-IsDistinct : (i n : ℕ) → IsDistinct (range_from i n)
unfolding range_from IsDistinct
range_from-IsDistinct i zero = tt
range_from-IsDistinct i (suc n) = (
  λ m. let (least, most) = (range_from_iff (suc i) n i).0 m in absurd (omega (arith, least)),
  range_from-IsDistinct (suc i) n,
)

output_indices-IsDistinct : {A : Type 0} (outputs : List A) → IsDistinct (output_indices outputs)
unfolding output_indices
output_indices-IsDistinct outputs = range_from-IsDistinct 0 (saturated (length outputs))

output_indices_iff :
    {A : Type 0} (outputs : List A)
    → length outputs < 2 ^ 32
    → (i : ℕ) → IsMember i (output_indices outputs) ↔ (i < length outputs)
unfolding output_indices
output_indices_iff outputs small i =
    let whole : saturated (length outputs) ≡ length outputs = ground (arith, small) in
    let listed = range_from_iff 0 (saturated (length outputs)) i in
    (
      λ m. let (_, lt) = listed.0 m in omega (arith, lt, whole),
      λ lt. listed.1 (omega arith, omega (arith, lt, whole)),
    )

module _ {S C V F E : Type 0} (backend : Backend S C V F E) (node : ElementsRpc)
    (Charged : FundedPsbt F → ℕ → Type 0) (wallet : Text) (outputs : List V) (rate : F)
    (s : S) where
  open backend use {net, json, decode}

  -- The PSBT that the daemon returns, where the outputs at `indices` bear the fee, and no others
  pub record Funds (client : C) (indices : List ℕ) : Type 0 where
    pub reply : V
    pub after : S
    pub funded : FundedPsbt F
    pub runs :
        net.call client
          (codes "walletcreatefundedpsbt")
          (json.array []
            ∷ json.array outputs
            ∷ json.number 0
            ∷ json.object (
                (codes "feeRate", json.float rate)
                ∷ (codes "subtractFeeFromOutputs", json.array (map json.number indices))
                ∷ [])
            ∷ json.bool true
            ∷ [])
          s
        ≡ (ok reply, after)
    pub decodes : decode.funded_psbt reply ≡ ok funded
    pub charges : (i : ℕ) → Charged funded i ↔ IsMember i indices

  -- What the daemon documents of a wallet that can fund the outputs: the fee is deducted from the
  -- outputs whose indices the request lists, where each is the index of an output, and none is
  -- listed twice.
  pub record Funder : Type 0 where
    pub client : C
    pub connects :
        net.connect (node.base_url ++ (codes "/wallet/" ++ wallet)) node.user node.password
        ≡ ok client
    pub funds :
        (indices : List ℕ)
        → ((i : ℕ) → IsMember i indices → i < length outputs)
        → IsDistinct indices
        → Funds client indices

  -- What a drain returned
  pub record Drains : Type 0 where
    pub funded : FundedPsbt F
    pub after : S
    pub runs :
        wallet_create_funded_psbt_drain backend node wallet outputs rate s ≡ (ok funded, after)
    pub charges : (i : ℕ) → Charged funded i ↔ (i < length outputs)

  -- Against a daemon that takes the fee of a PSBT from the outputs that the request lists, if it
  -- lists indices of outputs and none twice: with fewer than 2^32 outputs,
  -- `wallet_create_funded_psbt_drain` succeeds, and in the PSBT that it returns every output of
  -- the request bears the fee, and nothing else does.
  pub wallet_create_funded_psbt_drain-Drains : Funder → length outputs < 2 ^ 32 → Drains
  unfolding wallet_create_funded_psbt_drain client_for_wallet
  wallet_create_funded_psbt_drain-Drains daemon small =
      let listed = output_indices_iff outputs small in
      let sent =
        daemon.funds (output_indices outputs) (λ i. (listed i).0)
          (output_indices-IsDistinct outputs) in
      record {
        funded = sent.funded;
        after = sent.after;
        runs = rw (daemon.connects, sent.runs, sent.decodes) refl;
        charges = λ i.
            (λ c. (listed i).0 ((sent.charges i).0 c), λ lt. (sent.charges i).1 ((listed i).1 lt));
      }
