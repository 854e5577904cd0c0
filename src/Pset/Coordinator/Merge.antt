-- ===== src/Pset/Coordinator/Merge.antt =====
-- What `receive_signature` does to the signatures that the coordinator already has.
use emvault_elements.Prelude.{
  ℕ, suc, ◌≡◌, ◌≢◌, refl, subst, sym, ap, ◌∙◌, inl, inr, Bool, true, false, ◌||◌, some, List, [],
  ◌∷◌, All, arith, get_elem?, nat_eqb_iff, Bytes, Bool-cases, Option-cases,
}
use emvault_elements.Prelude.Tests.{nat_eq}
use emvault_elements.Prelude.Result.{Result, ok, err, panic, ◌>>=◌}
use emvault_elements.Prelude.Exec.{continue}
use emvault_elements.Prelude.Pairwise.{Pairwise, Pairwise-refl, Pairwise-trans, set-Pairwise}
use emvault_elements.Prelude.Map
use emvault_elements.Prelude.Map.{Map}
use emvault_elements.Prelude.Map.Laws.{get-insert}
use emvault_elements.Elements.{Pset, PsetInput}
use emvault_elements.Error.{PsetError}
use emvault_elements.Pset.Coordinator.{
  Coordinator, is_attributed, new_sigs, insert_sigs, merge_input, merge_inputs, is_nonempty, accept,
  receive_signature,
}

-- Every signature of `old` is still there.
pub Keeps : Map ℕ Bytes → Map ℕ Bytes → Type 0
Keeps old new = (pk : ℕ) (s : Bytes) → Map.get pk old ≡ some s → Map.get pk new ≡ some s

-- None of the signatures is for a key that has one.
IsNew : Map ℕ Bytes → Map ℕ Bytes → Type 0
IsNew old = All (λ p. Map.contains_key p.0 old ≡ false)

IsNewResult : Map ℕ Bytes → Result PsetError (Map ℕ Bytes) → Type 0
IsNewResult old (ok sigs) = IsNew old sigs
IsNewResult old _ = Unit

nothing_new : (old : Map ℕ Bytes) → IsNewResult old (ok [])
unfolding IsNewResult IsNew
nothing_new old = tt

cons-IsNewResult :
    (old : Map ℕ Bytes) (pk : ℕ) (s : Bytes) (r : Result PsetError (Map ℕ Bytes))
    → Map.contains_key pk old ≡ false
    → IsNewResult old r
    → IsNewResult old (r >>= λ l. ok ((pk, s) ∷ l))
unfolding IsNewResult IsNew
cons-IsNewResult old pk s (ok sigs) e h = (e, h)
cons-IsNewResult old pk s (err x) e h = tt
cons-IsNewResult old pk s panic e h = tt

new_sigs-IsNewResult :
    (fp : ℕ) (own signed_input : PsetInput) (returned : Map ℕ Bytes)
    → IsNewResult own.partial_sigs (new_sigs fp (some own) signed_input returned)
unfolding new_sigs
new_sigs-IsNewResult fp own signed_input [] = nothing_new own.partial_sigs
new_sigs-IsNewResult fp own signed_input ((pk, s) ∷ rest) =
    let others = new_sigs-IsNewResult fp own signed_input rest in
    elim (Bool-cases (is_attributed fp signed_input pk)) [
      | inr foreign ↦ rw foreign others
      | inl ours ↦ elim (Bool-cases (Map.contains_key pk own.partial_sigs)) [
        | inl old ↦ rw (ours, old) others
        | inr new ↦ rw (ours, new) (cons-IsNewResult own.partial_sigs pk s _ new others)
      ]
    ]

-- Writing signatures for other keys leaves a key's signature as it is.
get-insert_sigs :
    (pk : ℕ) (sigs : Map ℕ Bytes) (input : PsetInput)
    → All (λ p. p.0 ≢ pk) sigs
    → Map.get pk (insert_sigs sigs input).partial_sigs ≡ Map.get pk input.partial_sigs
unfolding insert_sigs
get-insert_sigs pk [] input h = refl
get-insert_sigs pk ((k, s) ∷ rest) input (differ, h) =
    get-insert_sigs pk rest (record input { partial_sigs = Map.insert k s input.partial_sigs }) h
    ∙ ground (arith, get-insert k pk s input.partial_sigs, nat_eqb_iff k pk)

differ_all :
    (old sigs : Map ℕ Bytes) (pk : ℕ) (s : Bytes)
    → Map.get pk old ≡ some s
    → IsNew old sigs
    → All (λ p. p.0 ≢ pk) sigs
unfolding IsNew Map.contains_key
differ_all old [] pk s e h = tt
differ_all old ((k, v) ∷ rest) pk s e (new, h) =
    (λ same. ground (arith, ap (λ x. Map.get x old) same), differ_all old rest pk s e h)

insert_sigs-Keeps :
    (sigs : Map ℕ Bytes) (input : PsetInput)
    → IsNew input.partial_sigs sigs
    → Keeps input.partial_sigs (insert_sigs sigs input).partial_sigs
unfolding Keeps
insert_sigs-Keeps sigs input h pk s e =
    get-insert_sigs pk sigs input (differ_all input.partial_sigs sigs pk s e h) ∙ e

-- The input has the signatures of the old one, perhaps more of them, and is otherwise the same.
pub record Signed (old new : PsetInput) : Type 0 where
  pub keeps : Keeps old.partial_sigs new.partial_sigs
  pub same : new ≡ record old { partial_sigs = new.partial_sigs }

insert_sigs_lem :
    (sigs : Map ℕ Bytes) (input : PsetInput)
    → insert_sigs sigs input ≡ record input { partial_sigs = (insert_sigs sigs input).partial_sigs }
unfolding insert_sigs
insert_sigs_lem [] input = refl
insert_sigs_lem ((pk, s) ∷ rest) input =
    insert_sigs_lem rest (record input { partial_sigs = Map.insert pk s input.partial_sigs })

-- The inputs of one list are those of another, place by place, signed further.
abbrev pub SignedAll : List PsetInput → List PsetInput → Type 0
SignedAll = Pairwise Signed

Signed-refl : (i : PsetInput) → Signed i i
unfolding Keeps
Signed-refl i = record { keeps = λ pk s e. e; same = refl }

SignedAll-refl : (is : List PsetInput) → SignedAll is is
SignedAll-refl is = Pairwise-refl Signed Signed-refl is

Signed-trans : (a b c : PsetInput) → Signed a b → Signed b c → Signed a c
unfolding Keeps
Signed-trans a b c p q = record {
  keeps = λ pk s e. q.keeps pk s (p.keeps pk s e);
  same =
      q.same
      ∙ ap {A = PsetInput} {B = PsetInput} (λ x. record x { partial_sigs = c.partial_sigs }) p.same;
}

insert_sigs-Signed :
    (sigs : Map ℕ Bytes) (own : PsetInput)
    → IsNewResult own.partial_sigs (ok sigs)
    → Signed own (insert_sigs sigs own)
unfolding IsNewResult
insert_sigs-Signed sigs own h = record {
  keeps = insert_sigs-Keeps sigs own h;
  same = insert_sigs_lem sigs own;
}

merge_input-SignedAll :
    (fp idx : ℕ) (signed_input : PsetInput) (returned sigs : Map ℕ Bytes) (inputs : List PsetInput)
    → new_sigs fp (get_elem? inputs idx) signed_input returned ≡ ok sigs
    → SignedAll inputs (merge_input idx sigs inputs)
merge_input-SignedAll fp idx signed_input returned sigs inputs e =
    elim (Option-cases (get_elem? inputs idx)) [
      | inl beyond ↦ rw (beyond, merge_input) (SignedAll-refl inputs)
      | inr (own, found) ↦
          let new : IsNewResult own.partial_sigs (ok sigs) =
            subst (IsNewResult own.partial_sigs)
              (ap (λ o. new_sigs fp o signed_input returned) (sym found) ∙ e)
              (new_sigs-IsNewResult fp own signed_input returned) in
          rw (found, merge_input)
            (set-Pairwise Signed Signed-refl inputs idx own (insert_sigs sigs own) found
              (insert_sigs-Signed sigs own new))
    ]

merge-SignedAll :
    (idx : ℕ) (inputs : List PsetInput) (r : Result PsetError (Map ℕ Bytes))
    (next : Map ℕ Bytes → List PsetInput → Result PsetError Bool × List PsetInput)
    → ((sigs : Map ℕ Bytes) → r ≡ ok sigs → SignedAll inputs (merge_input idx sigs inputs))
    → ((sigs : Map ℕ Bytes) (is : List PsetInput) → SignedAll is (next sigs is).1)
    → SignedAll inputs (continue r (λ sigs is. next sigs (merge_input idx sigs is)) inputs).1
merge-SignedAll idx inputs (ok sigs) next h k =
    Pairwise-trans Signed Signed-trans _ _ _ (h sigs refl) (k sigs (merge_input idx sigs inputs))
merge-SignedAll idx inputs (err e) next h k = SignedAll-refl inputs
merge-SignedAll idx inputs panic next h k = SignedAll-refl inputs

merge_inputs-SignedAll :
    (fp idx : ℕ) (returned : List PsetInput) (found : Bool) (inputs : List PsetInput)
    → SignedAll inputs (merge_inputs fp idx returned found inputs).1
unfolding merge_inputs
merge_inputs-SignedAll fp idx [] found inputs = SignedAll-refl inputs
merge_inputs-SignedAll fp idx (signed_input ∷ rest) found inputs =
    merge-SignedAll idx inputs _
      (λ sigs is. merge_inputs fp (suc idx) rest (found || is_nonempty sigs) is)
      (λ sigs e. merge_input-SignedAll fp idx signed_input signed_input.partial_sigs sigs inputs e)
      (λ sigs is. merge_inputs-SignedAll fp (suc idx) rest (found || is_nonempty sigs) is)

-- The coordinator after a call: signatures may have been added, and nothing else of its PSET or
-- its federation differs.
pub record Merged (c c' : Coordinator) : Type 0 where
  pub inputs : SignedAll c.pset.inputs c'.pset.inputs
  pub outputs : c'.pset.outputs ≡ c.pset.outputs
  pub federation : c'.federation ≡ c.federation

unmerged : (c : Coordinator) → Merged c c
unmerged c = record { inputs = SignedAll-refl c.pset.inputs; outputs = refl; federation = refl }

accept-Merged :
    (id : ℕ) (is : List PsetInput) (c : Coordinator) (r : Result PsetError Bool)
    → SignedAll c.pset.inputs is
    → Merged c (continue r (accept id) (record c { pset = record (c.pset) { inputs = is } })).1
accept-Merged id is c (ok true) h = record { inputs = h; outputs = refl; federation = refl }
accept-Merged id is c (ok false) h = record { inputs = h; outputs = refl; federation = refl }
accept-Merged id is c (err e) h = record { inputs = h; outputs = refl; federation = refl }
accept-Merged id is c panic h = record { inputs = h; outputs = refl; federation = refl }

-- Whatever PSET is returned, and however the call ends, `receive_signature` keeps every signature
-- that the coordinator's inputs have, at its key and with its bytes; it changes nothing else of an
-- input, and neither the number of inputs, nor the outputs, nor the federation.
pub receive_signature-Merged :
    (id : ℕ) (returned : Pset) (c : Coordinator) → Merged c (receive_signature id returned c).1
unfolding receive_signature
receive_signature-Merged id returned c = elim (Bool-cases (c.federation.contains id)) [
  | inr stranger ↦ rw stranger (unmerged c)
  | inl member ↦ elim (Option-cases (c.federation.find id)) [
    | inl lost ↦ rw (member, lost) (unmerged c)
    | inr (fp, found) ↦
        rw (member, found)
          (accept-Merged id _ c _ (merge_inputs-SignedAll fp 0 returned.inputs false c.pset.inputs))
  ]
]
