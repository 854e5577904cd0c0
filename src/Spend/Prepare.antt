-- ===== src/Spend/Prepare.antt =====
-- The inputs of a spend: external UTXOs, and the descriptors that enrich them.
use emvault_elements.Prelude.{
  ◌≡◌, sym, ap, ◌∙◌, List, [], ◌∷◌, ◌++◌, All, map, append_assoc, append-nil, ℕ,
}
use emvault_elements.Prelude.Result.{ok}
use emvault_elements.Prelude.Map
use emvault_elements.Prelude.Map.{Map}
use emvault_elements.Elements.{OutPoint, outpoint_eq, SingleDescriptor, DefiniteDescriptor}
use emvault_elements.Sync.Types.{CapturedUtxo}
use emvault_elements.Spend.{ExternalUtxo, external_utxo, prepare_from, prepare_inputs}
use emvault_elements.Spend.Places.{
  Describes, Weighs, offered, Describes-definite_at, Weighs-max_weight_of,
}
use emvault_elements.Spend.Sources.{Definite, Enriches, enriched, enriched_all-Enriches}

-- The items of a spend are its UTXOs.
abbrev pub own : CapturedUtxo → CapturedUtxo
own u = u

module _ (singles : List SingleDescriptor) where
  prepare_from_lem :
      (weight : ℕ) (us : List CapturedUtxo) (ds : All (Definite own (Describes singles)) us)
      (externals : List ExternalUtxo) (m : Map OutPoint DefiniteDescriptor)
      → prepare_from singles weight us (externals, m)
        ≡ ok (externals ++ map (λ u. offered u weight) us, enriched own (Describes singles) us ds m)
  unfolding prepare_from enriched external_utxo
  prepare_from_lem weight [] ds externals m = ap (λ l. ok (l, m)) (sym (append-nil externals))
  prepare_from_lem weight (u ∷ us) (d, ds) externals m =
      rw (Describes-definite_at singles u d.definite d.describes) (
        prepare_from_lem weight us ds (externals ++ offered u weight ∷ [])
          (Map.insert u.outpoint d.definite m)
        ∙ ap
            (λ l.
              ok (l, enriched own (Describes singles) us ds (Map.insert u.outpoint d.definite m)))
            (append_assoc externals (offered u weight ∷ []) (map (λ u. offered u weight) us)))

  -- What `prepare_inputs` returns
  pub record Prepares (weight : ℕ) (us : List CapturedUtxo) : Type 0 where
    pub enrich : Map OutPoint DefiniteDescriptor
    pub runs : prepare_inputs us singles ≡ ok (map (λ u. offered u weight) us, enrich)
    pub enriches : Enriches own (Describes singles) us enrich

  -- If the weight can be had, and each UTXO has a descriptor at its own chain and index, then
  -- `prepare_inputs` succeeds: it returns one external UTXO for each captured one, in order and
  -- with that weight, and a map that has a descriptor under the outpoint of each, and under no
  -- outpoint another descriptor than that of a UTXO with the outpoint at its chain and index.
  pub prepare_inputs-Prepares :
      (weight : ℕ) (us : List CapturedUtxo)
      → Weighs singles weight
      → All (Definite own (Describes singles)) us
      → Prepares weight us
  unfolding prepare_inputs
  prepare_inputs-Prepares weight us weighs ds = record {
    enrich = enriched own (Describes singles) us ds [];
    runs = rw (Weighs-max_weight_of singles weight weighs) (prepare_from_lem weight us ds [] []);
    enriches = enriched_all-Enriches own (Describes singles) us ds;
  }
