-- ===== src/Spend/Places.antt =====
-- Where the descriptors of a spend stand, without the functions of spend.rs that look them up.
use emvault_elements.Prelude.{ℕ, ◌≡◌, refl, List, ◌∷◌}
use emvault_elements.Prelude.Result.{ok}
use emvault_elements.Elements.{
  Chain, external, internal, MultipathDescriptor, SingleDescriptor, DefiniteDescriptor,
}
use emvault_elements.Wollet.{ElementsWollet}
use emvault_elements.Sync.Types.{CapturedUtxo}
use emvault_elements.Spend.{ExternalUtxo, singles_of, definite_at, max_weight_of, chain_index}

-- The first single-path form is that of the external chain, and the second that of the internal
-- one.
pub data PathOf : Chain → List SingleDescriptor → SingleDescriptor → Type 0 where
  receive : (s : SingleDescriptor) (rest : List SingleDescriptor) → PathOf external (s ∷ rest) s
  change :
      (s t : SingleDescriptor) (rest : List SingleDescriptor) → PathOf internal (s ∷ t ∷ rest) t

-- The descriptor is derived, at the UTXO's index, from the form of the UTXO's chain.
pub record Describes (singles : List SingleDescriptor) (u : CapturedUtxo) (d : DefiniteDescriptor)
    : Type 0 where
  pub single : SingleDescriptor
  pub path : PathOf u.chain singles single
  pub derives : single.at_derivation_index u.wildcard_index ≡ ok d

-- The weight is that of the external chain's descriptor at index 0.
pub record Weighs (singles : List SingleDescriptor) (weight : ℕ) : Type 0 where
  pub single : SingleDescriptor
  pub definite : DefiniteDescriptor
  pub path : PathOf external singles single
  pub derives : single.at_derivation_index 0 ≡ ok definite
  pub weighs : definite.max_weight_to_satisfy ≡ ok weight

-- The wollet's descriptor has these single-path forms.
pub record Splits (wollet : ElementsWollet) (singles : List SingleDescriptor) : Type 0 where
  pub multipath : MultipathDescriptor
  pub derives : wollet.descriptor.descriptor ≡ ok multipath
  pub splits : multipath.into_single_descriptors ≡ ok singles

-- The UTXO as LWK is offered it: at its outpoint, with its output, its secrets and the weight
abbrev pub offered : CapturedUtxo → ℕ → ExternalUtxo
offered u weight = record {
  outpoint = u.outpoint;
  txout = u.txout;
  unblinded = u.secrets;
  max_weight_to_satisfy = weight;
}

path-definite_at :
    (c : Chain) (singles : List SingleDescriptor) (s : SingleDescriptor) (i : ℕ)
    (d : DefiniteDescriptor)
    → PathOf c singles s
    → s.at_derivation_index i ≡ ok d
    → definite_at singles (chain_index c) i ≡ ok d
unfolding definite_at
path-definite_at _ _ _ i d (receive s rest) e = rw e refl
path-definite_at _ _ _ i d (change s t rest) e = rw e refl

pub Describes-definite_at :
    (singles : List SingleDescriptor) (u : CapturedUtxo) (d : DefiniteDescriptor)
    → Describes singles u d
    → definite_at singles (chain_index u.chain) u.wildcard_index ≡ ok d
Describes-definite_at singles u d h =
    path-definite_at u.chain singles h.single u.wildcard_index d h.path h.derives

first-max_weight_of :
    (c : Chain) (singles : List SingleDescriptor) (s : SingleDescriptor) (d : DefiniteDescriptor)
    (weight : ℕ)
    → c ≡ external
    → PathOf c singles s
    → s.at_derivation_index 0 ≡ ok d
    → d.max_weight_to_satisfy ≡ ok weight
    → max_weight_of singles ≡ ok weight
unfolding max_weight_of
first-max_weight_of _ _ _ d weight e (receive s rest) derives weighs = rw (derives, weighs) refl
first-max_weight_of _ _ _ d weight e (change s t rest) derives weighs = absurd (cc)

pub Weighs-max_weight_of :
    (singles : List SingleDescriptor) (weight : ℕ)
    → Weighs singles weight
    → max_weight_of singles ≡ ok weight
Weighs-max_weight_of singles weight h =
    first-max_weight_of external singles h.single h.definite weight refl h.path h.derives h.weighs

pub Splits-singles_of :
    (wollet : ElementsWollet) (singles : List SingleDescriptor)
    → Splits wollet singles
    → singles_of wollet ≡ ok singles
unfolding singles_of
Splits-singles_of wollet singles h = rw (h.derives, h.splits) refl
