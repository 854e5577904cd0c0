-- ===== src/Spend/Sources.antt =====
-- The descriptors that enrich the inputs of a spend or of a migration, by their outpoints.
use emvault_elements.Prelude.{
  ◌≡◌, refl, subst, sym, ap, ◌∙◌, inl, inr, some, none, List, [], ◌∷◌, ◌++◌, All, IsMember,
  IsMember-append, ◌⊎◌, append_assoc, append-nil, arith, ◌==◌, Bool-cases,
}
use emvault_elements.Prelude.Map
use emvault_elements.Prelude.Map.{Map}
use emvault_elements.Prelude.Map.Laws.{get-insert}
use emvault_elements.Elements.{OutPoint, outpoint_eq, outpoint_eqb_iff, DefiniteDescriptor}
use emvault_elements.Sync.Types.{CapturedUtxo}

-- A key that is written, or was there, has a value.
written :
    (op other : OutPoint) (d : DefiniteDescriptor) (m : Map OutPoint DefiniteDescriptor)
    → (op ≡ other) ⊎ ((x : DefiniteDescriptor) × (Map.get other m ≡ some x))
    → (x : DefiniteDescriptor) × (Map.get other (Map.insert op d m) ≡ some x)
written op other d m h = elim (Bool-cases (op == other)) [
  | inl same ↦ (d, get-insert op other d m ∙ ground (arith, same))
  | inr apart ↦ elim h [
    | inl e ↦ absurd (ground (arith, outpoint_eqb_iff op other))
    | inr (x, found) ↦ (x, get-insert op other d m ∙ ground (arith, apart, found))
  ]
]

-- The UTXO of an item, and what a descriptor of the item is.
module _ {A : Type 0} (utxo_of : A → CapturedUtxo)
    (Describes : A → DefiniteDescriptor → Type 0) where
  -- The item has a descriptor.
  pub record Definite (a : A) : Type 0 where
    pub definite : DefiniteDescriptor
    pub describes : Describes a definite

  -- The descriptors of the items by their outpoints, on top of those in the map
  unfoldable pub enriched :
      (xs : List A)
      → All Definite xs
      → Map OutPoint DefiniteDescriptor
      → Map OutPoint DefiniteDescriptor
  enriched [] ds m = m
  enriched (a ∷ xs) (d, ds) m = enriched xs ds (Map.insert (utxo_of a).outpoint d.definite m)

  -- A descriptor that is found under an outpoint is that of an item with the outpoint.
  pub record Source (xs : List A) (op : OutPoint) (d : DefiniteDescriptor) : Type 0 where
    pub item : A
    pub listed : IsMember item xs
    pub here : (utxo_of item).outpoint ≡ op
    pub describes : Describes item d

  -- Every item has a descriptor under its outpoint, and each descriptor has its item.
  pub record Enriches (xs : List A) (m : Map OutPoint DefiniteDescriptor) : Type 0 where
    pub sources : (op : OutPoint) (d : DefiniteDescriptor) → Map.get op m ≡ some d → Source xs op d
    pub each :
        (a : A)
        → IsMember a xs
        → (d : DefiniteDescriptor) × (Map.get (utxo_of a).outpoint m ≡ some d)

  insert-Enriches :
      (seen : List A) (a : A) (d : Definite a) (m : Map OutPoint DefiniteDescriptor)
      → Enriches seen m
      → Enriches (seen ++ a ∷ []) (Map.insert (utxo_of a).outpoint d.definite m)
  insert-Enriches seen a d m e =
      let key = (utxo_of a).outpoint in
      record {
        sources = λ op x found. elim (Bool-cases (key == op)) [
          | inl same ↦ record {
            item = a;
            listed = (IsMember-append a seen (a ∷ [])).1 (inr (inl refl));
            here = (outpoint_eqb_iff key op).0 same;
            describes =
                subst (Describes a) (ground (arith, get-insert key op d.definite m)) d.describes;
          }
          | inr other ↦
              let s = e.sources op x (ground (arith, get-insert key op d.definite m)) in
              record {
                item = s.item;
                listed = (IsMember-append s.item seen (a ∷ [])).1 (inl s.listed);
                here = s.here;
                describes = s.describes;
              }
        ];
        each = λ x listed. elim ((IsMember-append x seen (a ∷ [])).0 listed) [
          | inl old ↦ written key (utxo_of x).outpoint d.definite m (inr (e.each x old))
          | inr new ↦ elim new [
            | inl same ↦
                written key (utxo_of x).outpoint d.definite m
                  (inl (ap (λ y. (utxo_of y).outpoint) (sym same)))
            | inr impossible ↦ elim impossible [ ]
          ]
        ];
      }

  -- What is in the map once more items are written, where `seen` are in it.
  enriched-Enriches :
      (seen xs : List A) (ds : All Definite xs) (m : Map OutPoint DefiniteDescriptor)
      → Enriches seen m
      → Enriches (seen ++ xs) (enriched xs ds m)
  unfolding enriched
  enriched-Enriches seen [] ds m e = subst (λ l. Enriches l m) (sym (append-nil seen)) e
  enriched-Enriches seen (a ∷ xs) (d, ds) m e =
      subst (λ l. Enriches l (enriched xs ds (Map.insert (utxo_of a).outpoint d.definite m)))
        (append_assoc seen (a ∷ []) xs)
        (enriched-Enriches (seen ++ a ∷ []) xs ds (Map.insert (utxo_of a).outpoint d.definite m)
          (insert-Enriches seen a d m e))

  -- From the empty map, all items and no others have their descriptors in the map.
  pub enriched_all-Enriches : (xs : List A) (ds : All Definite xs) → Enriches xs (enriched xs ds [])
  unfolding Map.get
  enriched_all-Enriches xs ds =
      enriched-Enriches [] xs ds []
        (record { sources = λ op d found. absurd (cc); each = λ a m. elim m [ ] })

  -- An outpoint without a descriptor is no item's.
  pub none_there :
      (xs : List A) (enrich : Map OutPoint DefiniteDescriptor) (op : OutPoint)
      → Enriches xs enrich
      → Map.get op enrich ≡ none
      → (a : A) → IsMember a xs
      → (utxo_of a).outpoint ≡ op
      → ⊥
  none_there xs enrich op enriches missing a listed here =
      let (d, found) = enriches.each a listed in
      let contradiction : some d ≡ none = sym found ∙ ap (λ o. Map.get o enrich) here ∙ missing in
      cc
