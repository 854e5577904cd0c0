-- ===== src/Descriptor/Order.antt =====
-- What a descriptor builder collects from its signers, and that their order does not matter.
pub mod Ascending
use mathlib.Core.Option.{some-injective, none-ne-some}
use emvault_elements.Prelude.{
  ℕ, ◌<◌, ◌≤◌, ◌≡◌, refl, subst, sym, ltb, ap, ◌∙◌, inl, inr, Bool, true, false, Option, none, some,
  List, [], ◌∷◌, arith, if◌then◌else◌, ◌==◌, Bool-cases, nat_eqb_iff,
}
use emvault_elements.Prelude.Tests.{nat_eq}
use emvault_elements.Prelude.Map
use emvault_elements.Prelude.Map.{Map}
use emvault_elements.Prelude.Result.{ok, err}
use emvault_elements.Error.{duplicate_key}
use emvault_elements.Descriptor.{CtDescriptorBuilder, KeyEntry, Signer, btree_insert, add_signer}
use emvault_elements.Descriptor.Order.Ascending.{
  is_there, IsAscending, get-btree_insert, btree_insert-IsAscending, found-btree_insert,
  ascending-eq,
}

-- The entry of the last signer with the id
unfoldable pub latest : ℕ → List Signer → Option KeyEntry
latest id [] = none
latest id (x ∷ xs) = elim (latest id xs) [
  | some e ↦ some e
  | none ↦ if x.id == id then some x.entry else none
]

-- The builder after a call of `add_signer` with each signer, in order, whatever the calls return
unfoldable pub added : List Signer → CtDescriptorBuilder → CtDescriptorBuilder
added [] b = b
added (x ∷ xs) b = added xs (add_signer x b).1

added-IsAscending :
    (xs : List Signer) (b : CtDescriptorBuilder)
    → IsAscending b.entries
    → IsAscending (added xs b).entries
unfolding added add_signer
added-IsAscending [] b a = a
added-IsAscending (x ∷ xs) b a =
    added-IsAscending xs _ (btree_insert-IsAscending x.id x.entry b.entries a)

get-added :
    (xs : List Signer) (b : CtDescriptorBuilder) (id : ℕ)
    → Map.get id (added xs b).entries
      ≡ elim (latest id xs) [ some e ↦ some e | none ↦ Map.get id b.entries ]
unfolding added add_signer latest
get-added [] b id = refl
get-added (x ∷ xs) b id =
    get-added xs _ id ∙ ground (arith, get-btree_insert x.id id x.entry b.entries)

kept-added :
    (xs : List Signer) (b : CtDescriptorBuilder)
    → added xs b ≡ record b { entries = (added xs b).entries }
unfolding added add_signer
kept-added [] b = refl
kept-added (x ∷ xs) b = kept-added xs (add_signer x b).1

-- What a builder without entries has after it was given signers
pub record Collects (xs : List Signer) (b : CtDescriptorBuilder) : Type 0 where
  pub ascending : IsAscending (added xs b).entries
  pub collected : (id : ℕ) → Map.get id (added xs b).entries ≡ latest id xs
  pub kept : added xs b ≡ record b { entries = (added xs b).entries }
  pub reports :
      (x : Signer)
      → (add_signer x (added xs b)).0
        ≡ (if is_there (latest x.id xs) then err (duplicate_key x.id_text) else ok tt)
  pub unordered :
      (ys : List Signer) → ((id : ℕ) → latest id ys ≡ latest id xs) → added ys b ≡ added xs b

or_none : (o : Option KeyEntry) → elim o [ some e ↦ some e | none ↦ none ] ≡ o
or_none none = refl
or_none (some e) = refl

-- A builder without entries that is given signers one by one, with calls that report duplicates
-- among them, has in ascending order of the ids, under each id, the entry of the last signer with
-- the id, and nothing else changed. A further call reports a duplicate exactly if one of the
-- signers had the id. Signers in another order give the same builder, and so the same descriptor,
-- if the last signer with each id has the same entry.
pub add_signer-Collects :
    (xs : List Signer) (b : CtDescriptorBuilder) → b.entries ≡ [] → Collects xs b
unfolding add_signer IsAscending Map.get
add_signer-Collects xs b empty =
    let nothing : IsAscending b.entries = rw empty tt in
    let found : (ys : List Signer) (id : ℕ) → Map.get id (added ys b).entries ≡ latest id ys =
      λ ys id.
        get-added ys b id
        ∙ ap (λ m. elim (latest id ys) [ some e ↦ some e | none ↦ Map.get id m ]) empty
        ∙ or_none (latest id ys) in
    let sorted : (ys : List Signer) → IsAscending (added ys b).entries =
      λ ys. added-IsAscending ys b nothing in
    record {
      ascending = sorted xs;
      collected = found xs;
      kept = kept-added xs b;
      reports = λ x.
          ap (λ (f : Bool). if f then err (duplicate_key x.id_text) else ok tt)
            (found-btree_insert x.id x.entry (added xs b).entries (sorted xs)
              ∙ ap is_there (found xs x.id));
      unordered = λ ys same.
          kept-added ys b
          ∙ ap (λ m. record b { entries = m })
              (ascending-eq (added ys b).entries (added xs b).entries (sorted ys) (sorted xs)
                λ id. found ys id ∙ same id ∙ sym (found xs id))
          ∙ sym (kept-added xs b);
    }
