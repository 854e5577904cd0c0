-- ===== src/Spend/Migration.antt =====
-- The cache of a migration.
use emvault_elements.Prelude.{
  ◌≡◌, refl, subst, sym, ap, ◌∙◌, inl, inr, none, some, List, [], ◌∷◌, ◌++◌, All, arith, ◌==◌, Text,
  Option-cases, Bool-cases,
}
use emvault_elements.Prelude.Tests.{bytes_eq, bytes_eqb_iff}
use emvault_elements.Prelude.Result.{Result, ok, err, panic, ◌>>=◌}
use emvault_elements.Prelude.Map
use emvault_elements.Prelude.Map.{Map}
use emvault_elements.Prelude.Map.Laws.{get-insert}
use emvault_elements.Elements.{outpoint_eq, SingleDescriptor}
use emvault_elements.Error.{SpendError}
use emvault_elements.Wollet.{ElementsWollet}
use emvault_elements.Sync.Types.{CapturedUtxo}
use emvault_elements.Spend.{
  Prepared, Cache, singles_of, max_weight_of, definite_at, chain_index, external_utxo,
  cached_singles, migrate_from,
}

-- The preparation that asks each owner for its single-path forms again.
unfoldable pub migrate_each :
    List (CapturedUtxo × ElementsWollet) → Prepared → Result SpendError Prepared
migrate_each [] done = ok done
migrate_each ((utxo, owner) ∷ rest) (externals, enrich) = do
  singles ← singles_of owner
  weight ← max_weight_of singles
  definite ← definite_at singles (chain_index utxo.chain) utxo.wildcard_index
  migrate_each rest
      (externals ++ external_utxo utxo weight ∷ [], Map.insert utxo.outpoint definite enrich)

bind-cong :
    {A B : Type 0} (r : Result SpendError A) (f g : A → Result SpendError B)
    → ((a : A) → f a ≡ g a)
    → (r >>= f) ≡ (r >>= g)
bind-cong (ok a) f g h = h a
bind-cong (err e) f g h = refl
bind-cong panic f g h = refl

-- `forms` gives the single-path forms for the text of a descriptor.
module _ (forms : Text → Result SpendError (List SingleDescriptor)) where
  -- The owner's forms are those of its text.
  unfoldable pub IsFormed : ElementsWollet → Type 0
  IsFormed owner = singles_of owner ≡ forms owner.descriptor.text

  -- What is cached for a text are its forms.
  IsCache : Cache → Type 0
  IsCache cache =
      (t : Text) (singles : List SingleDescriptor)
      → Map.get t cache ≡ some singles
      → forms t ≡ ok singles

  insert-IsCache :
      (t : Text) (singles : List SingleDescriptor) (cache : Cache)
      → forms t ≡ ok singles
      → IsCache cache
      → IsCache (Map.insert t singles cache)
  unfolding IsCache
  insert-IsCache t singles cache e valid u found h = elim (Bool-cases (t == u)) [
    | inl same ↦
        let text : t ≡ u = (bytes_eqb_iff t u).0 same in
        let value : singles ≡ found = ground (arith, get-insert t u singles cache) in
        subst (λ x. forms x ≡ ok found) text (e ∙ ap ok value)
    | inr other ↦ valid u found (ground (arith, get-insert t u singles cache))
  ]

  -- What a lookup answers.
  data Lookup (owner : ElementsWollet) (cache : Cache) : Type 0 where
    failed :
        (e : SpendError)
        → cached_singles cache owner ≡ err e
        → singles_of owner ≡ err e
        → Lookup owner cache
    panicked : cached_singles cache owner ≡ panic → singles_of owner ≡ panic → Lookup owner cache
    answered :
        (singles : List SingleDescriptor) (after : Cache)
        → cached_singles cache owner ≡ ok (singles, after)
        → singles_of owner ≡ ok singles
        → IsCache after
        → Lookup owner cache

  ask :
      (owner : ElementsWollet) (cache : Cache) (r : Result SpendError (List SingleDescriptor))
      → singles_of owner ≡ r
      → IsFormed owner
      → IsCache cache
      → Map.get owner.descriptor.text cache ≡ none
      → Lookup owner cache
  unfolding cached_singles IsFormed
  ask owner cache (ok singles) e formed valid missing =
      answered singles (Map.insert owner.descriptor.text singles cache)
        (rw (missing, e, cached_singles)) e
        (insert-IsCache owner.descriptor.text singles cache (sym formed ∙ e) valid)
  ask owner cache (err x) e formed valid missing = failed x (rw (missing, e, cached_singles)) e
  ask owner cache panic e formed valid missing = panicked (rw (missing, e, cached_singles)) e

  lookup :
      (owner : ElementsWollet) (cache : Cache) → IsFormed owner → IsCache cache → Lookup owner cache
  unfolding cached_singles IsCache IsFormed
  lookup owner cache formed valid = elim (Option-cases (Map.get owner.descriptor.text cache)) [
    | inr (singles, found) ↦
        answered singles cache (rw (found, cached_singles))
          (formed ∙ valid owner.descriptor.text singles found) valid
    | inl missing ↦ ask owner cache (singles_of owner) refl formed valid missing
  ]

  migrate_from-each :
      (inputs : List (CapturedUtxo × ElementsWollet)) (cache : Cache) (done : Prepared)
      → All (λ p. IsFormed p.1) inputs
      → IsCache cache
      → migrate_from inputs cache done ≡ migrate_each inputs done
  unfolding migrate_from migrate_each
  migrate_from-each [] cache done formed valid = refl
  migrate_from-each ((utxo, owner) ∷ rest) cache (externals, enrich) (formed, later) valid =
      elim (lookup owner cache formed valid) [
        | failed e here there ↦ simp (here, there)
        | panicked here there ↦ simp (here, there)
        | answered singles after here there still ↦
            simp (here, there)
              (bind-cong (max_weight_of singles) _ _ λ weight.
                bind-cong (definite_at singles (chain_index utxo.chain) utxo.wildcard_index) _ _
                  λ definite. migrate_from-each rest after _ later still)
      ]

  -- If owners whose descriptors have the same text have the same single-path forms, the cache
  -- does not show: the inputs of a migration are prepared, or fail with the same error, as if
  -- each owner were asked for its forms again.
  pub migrate_from_lem :
      (inputs : List (CapturedUtxo × ElementsWollet)) (done : Prepared)
      → All (λ p. IsFormed p.1) inputs
      → migrate_from inputs [] done ≡ migrate_each inputs done
  unfolding IsCache Map.get
  migrate_from_lem inputs done formed = migrate_from-each inputs [] done formed (λ t singles h. cc)
