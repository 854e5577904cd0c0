-- ===== src/Spend/Enrich.antt =====
-- The enrichment of the inputs, and a spend from its UTXOs to its blinded PSET.
use emvault_elements.Prelude.{
  ℕ, suc, ◌≡◌, refl, sym, ap, ◌∙◌, true, Option, none, some, List, [], ◌∷◌, ◌++◌, All, map, any,
  append_assoc, arith, get_elem?, set, length, length-append, get_elem?-append_here,
  set-append_here, Text,
}
use emvault_elements.Prelude.Result.{Result, ok, map_err, ◌>>=◌}
use emvault_elements.Prelude.Map
use emvault_elements.Prelude.Map.{Map}
use emvault_elements.Elements.{
  OutPoint, outpoint_eq, DefiniteDescriptor, Pset, PsetInput, PsetOutput,
}
use emvault_elements.Error.{SpendError}
use emvault_elements.Pset.{new_blinded, is_some}
use emvault_elements.Spend.{enrich_input, enrich_from, finish_blinded}

-- The outpoint that the input spends
abbrev pub prevout_of : PsetInput → OutPoint
prevout_of i = record { txid = i.previous_txid; vout = i.previous_output_index }

abbrev pset_of : List PsetOutput → List PsetInput → Pset
pset_of outs is = record { inputs = is; outputs = outs }

module _ (update : Pset → ℕ → DefiniteDescriptor → Result Text Pset)
    (described : DefiniteDescriptor → PsetInput → PsetInput) where
  -- The input as it is described if a descriptor is found under its outpoint
  abbrev pub enriched_by : Map OutPoint DefiniteDescriptor → PsetInput → PsetInput
  enriched_by enrich i = elim (Map.get (prevout_of i) enrich) [ none ↦ i | some d ↦ described d i ]

  -- If a descriptor is found for the input, then `update_input_with_descriptor` accepts it at the
  -- input's place, and rewrites that input only.
  unfoldable pub IsAnswered : Map OutPoint DefiniteDescriptor → PsetInput → Type 0
  IsAnswered enrich i =
      (d : DefiniteDescriptor) (p : Pset) (idx : ℕ)
      → Map.get (prevout_of i) enrich ≡ some d
      → get_elem? p.inputs idx ≡ some i
      → update p idx d ≡ ok (record p { inputs = set p.inputs idx (described d i) })

  module _ (enrich : Map OutPoint DefiniteDescriptor) (outs : List PsetOutput) where
    -- One input, by what is found for it
    found_lem :
        (before : List PsetInput) (i : PsetInput) (after : List PsetInput)
        (o : Option DefiniteDescriptor)
        → Map.get (prevout_of i) enrich ≡ o
        → IsAnswered enrich i
        → ◌≡◌ {A = Result SpendError Pset}
            (elim o [
              | none ↦ ok (pset_of outs (before ++ i ∷ after))
              | some d ↦
                  map_err SpendError.enrich
                    (update (pset_of outs (before ++ i ∷ after)) (length before) d)
            ])
            (ok (pset_of outs (before ++ elim o [ none ↦ i | some d ↦ described d i ] ∷ after)))
    unfolding IsAnswered
    found_lem before i after none e answered = refl
    found_lem before i after (some d) e answered =
        rw
          (answered d (pset_of outs (before ++ i ∷ after)) (length before) e
            (get_elem?-append_here before after i))
          (ap (λ is. ok (pset_of outs is)) (set-append_here before after i (described d i)))

    enrich_input_lem :
        (before : List PsetInput) (i : PsetInput) (after : List PsetInput)
        → IsAnswered enrich i
        → enrich_input update enrich (length before) (pset_of outs (before ++ i ∷ after))
          ≡ ok (pset_of outs (before ++ enriched_by enrich i ∷ after))
    unfolding enrich_input
    enrich_input_lem before i after answered =
        rw (get_elem?-append_here before after i)
          (found_lem before i after (Map.get (prevout_of i) enrich) refl answered)

    enrich_from_lem :
        (before todo : List PsetInput)
        → All (IsAnswered enrich) todo
        → enrich_from update enrich (length todo) (length before) (pset_of outs (before ++ todo))
          ≡ ok (pset_of outs (before ++ map (enriched_by enrich) todo))
    unfolding enrich_from enrich_input
    enrich_from_lem before [] h = refl
    enrich_from_lem before (i ∷ todo) (h, hs) =
        let i' = enriched_by enrich i in
        let rounds : ℕ → List PsetInput → Result SpendError Pset =
          λ n is. enrich_from update enrich (length todo) n (pset_of outs is) in
        ap (λ r. r >>= enrich_from update enrich (length todo) (suc (length before)))
          (enrich_input_lem before i todo h)
        ∙ ap (λ n. rounds n (before ++ i' ∷ todo)) (omega (arith, length-append before (i' ∷ [])))
        ∙ ap (rounds (length (before ++ i' ∷ []))) (sym (append_assoc before (i' ∷ []) todo))
        ∙ enrich_from_lem (before ++ i' ∷ []) todo hs
        ∙ ap (λ is. ok (pset_of outs is))
            (append_assoc before (i' ∷ []) (map (enriched_by enrich) todo))

  -- If `update_input_with_descriptor` accepts the descriptors that are found, and rewrites one
  -- input each, and some output has a range proof, then `finish_blinded` succeeds: each input is
  -- described if a descriptor is found under its outpoint, and otherwise left as it is, and the
  -- outputs stay.
  pub finish_blinded_lem :
      (pset : Pset) (enrich : Map OutPoint DefiniteDescriptor)
      → All (IsAnswered enrich) pset.inputs
      → any (λ o. is_some o.value_rangeproof) pset.outputs ≡ true
      → finish_blinded update pset enrich
        ≡ ok (record { pset = record pset { inputs = map (enriched_by enrich) pset.inputs } })
  unfolding finish_blinded new_blinded
  finish_blinded_lem pset enrich answered blinded =
      rw (enrich_from_lem enrich pset.outputs [] pset.inputs answered, blinded) refl
