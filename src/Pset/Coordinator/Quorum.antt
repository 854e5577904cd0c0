-- ===== src/Pset/Coordinator/Quorum.antt =====
-- The signers that a coordinator counts.
use emvault_elements.Prelude.{
  ℕ, ◌≤◌, ◌≡◌, refl, ap, ◌∙◌, sym, subst, inl, inr, Bool, true, false, List, [], ◌∷◌, ◌++◌, arith,
  All, All-append, any, length, ◌==◌, nat_eqb_iff, Bool-cases, Option-cases, if◌then◌else◌, Text,
}
use emvault_elements.Prelude.Tests.{nat_eq}
use emvault_elements.Prelude.Result.{Result, ok, err, panic, >>=-eq-ok}
use emvault_elements.Prelude.Exec.{continue}
use emvault_elements.Pset.{BlindedPset}
use emvault_elements.Confidential.{validate_blinding}
use emvault_elements.Elements.{Pset, ScriptOps, Transaction}
use emvault_elements.Error.{PsetError}
use emvault_elements.Federation.{Federation}
use emvault_elements.Pset.Coordinator.{
  Coordinator, ElementsSigner, FinalizedPset, add_signer, new, sign_with, note_signer, accept,
  receive_signature, merge_inputs, is_complete, signatures_collected, finalize,
}

-- No id stands twice in the list.
unfoldable pub IsDistinct : List ℕ → Type 0
IsDistinct [] = Unit
IsDistinct (x ∷ xs) = (any (λ y. y == x) xs ≡ false) × IsDistinct xs

-- The ids that are counted are different members of the federation.
pub record IsCounted (f : Federation) (signed : List ℕ) : Type 0 where
  pub members : All (λ id. f.contains id ≡ true) signed
  pub distinct : IsDistinct signed

pub any-append :
    (id : ℕ) (xs : List ℕ) (x : ℕ)
    → any (λ y. y == x) xs ≡ false
    → (x == id) ≡ false
    → any (λ y. y == x) (xs ++ id ∷ []) ≡ false
any-append id [] x h other = ground (arith, nat_eqb_iff x id, nat_eqb_iff id x)
any-append id (y ∷ ys) x h other = ground (arith, any-append id ys x)

append-IsDistinct :
    (id : ℕ) (xs : List ℕ)
    → IsDistinct xs
    → any (λ x. x == id) xs ≡ false
    → IsDistinct (xs ++ id ∷ [])
unfolding IsDistinct
append-IsDistinct id [] d h = (refl, tt)
append-IsDistinct id (x ∷ xs) d h =
    (any-append id xs x d.0 (ground arith), append-IsDistinct id xs d.1 (ground arith))

add_signer-IsCounted :
    (f : Federation) (id : ℕ) (signed : List ℕ)
    → f.contains id ≡ true
    → IsCounted f signed
    → IsCounted f (add_signer id signed)
unfolding add_signer
add_signer-IsCounted f id signed member c = elim (Bool-cases (any (λ x. x == id) signed)) [
  | inl old ↦ rw old c
  | inr fresh ↦ rw fresh (record {
    members = All-append _ signed _ c.members (member, tt);
    distinct = append-IsDistinct id signed c.distinct fresh;
  })
]

-- One call: the ids before and after it, and the federation, which does not change.
record Kept (c c' : Coordinator) : Type 0 where
  same : c'.federation ≡ c.federation
  counted : IsCounted c.federation c.signed → IsCounted c.federation c'.signed

signed-Kept :
    (id n : ℕ) (p : Pset) (c : Coordinator)
    → c.federation.contains id ≡ true
    → Kept c (note_signer id n (record c { pset = p }))
signed-Kept id n p c member = elim (Bool-cases (n == 0)) [
  | inl none_signed ↦ rw none_signed (record { same = refl; counted = λ k. k })
  | inr some_signed ↦ rw some_signed (record {
    same = refl;
    counted = λ k. add_signer-IsCounted c.federation id c.signed member k;
  })
]

outcome-Kept :
    (id : ℕ) (p : Pset) (c : Coordinator) (r : Result PsetError ℕ)
    → c.federation.contains id ≡ true
    → Kept c (continue r (λ n c'. (ok n, note_signer id n c')) (record c { pset = p })).1
outcome-Kept id p c (ok n) member = signed-Kept id n p c member
outcome-Kept id p c (err e) member = record { same = refl; counted = λ k. k }
outcome-Kept id p c panic member = record { same = refl; counted = λ k. k }

sign_with-Kept : (s : ElementsSigner) (id : ℕ) (c : Coordinator) → Kept c (sign_with s id c).1
unfolding sign_with
sign_with-Kept s id c = elim (Bool-cases (c.federation.contains id)) [
  | inr stranger ↦ rw stranger (record { same = refl; counted = λ k. k })
  | inl member ↦ rw member (outcome-Kept id (s.sign_pset c.pset).1 c (s.sign_pset c.pset).0 member)
]

accepted-Kept :
    (id : ℕ) (p : Pset) (c : Coordinator) (r : Result PsetError Bool)
    → c.federation.contains id ≡ true
    → Kept c (continue r (accept id) (record c { pset = p })).1
accepted-Kept id p c (ok true) member = record {
  same = refl;
  counted = λ k. add_signer-IsCounted c.federation id c.signed member k;
}
accepted-Kept id p c (ok false) member = record { same = refl; counted = λ k. k }
accepted-Kept id p c (err e) member = record { same = refl; counted = λ k. k }
accepted-Kept id p c panic member = record { same = refl; counted = λ k. k }

receive_signature-Kept : (id : ℕ) (p : Pset) (c : Coordinator) → Kept c (receive_signature id p c).1
unfolding receive_signature
receive_signature-Kept id p c = elim (Bool-cases (c.federation.contains id)) [
  | inr stranger ↦ rw stranger (record { same = refl; counted = λ k. k })
  | inl member ↦ elim (Option-cases (c.federation.find id)) [
    | inl lost ↦ rw (member, lost) (record { same = refl; counted = λ k. k })
    | inr (fp, found) ↦
        rw (member, found)
          (accepted-Kept id _ c (merge_inputs fp 0 p.inputs false c.pset.inputs).0 member)
  ]
]

-- A coordinator that the calls of its methods make, failed calls included.
pub data Reachable (f : Federation) : Coordinator → Type 0 where
  start : (b : BlindedPset) (c : Coordinator) → new f b ≡ ok c → Reachable f c
  signed :
      (c : Coordinator) (s : ElementsSigner) (id : ℕ)
      → Reachable f c
      → Reachable f (sign_with s id c).1
  received :
      (c : Coordinator) (id : ℕ) (p : Pset)
      → Reachable f c
      → Reachable f (receive_signature id p c).1

-- The coordinator is one of the federation, and counts different members of it.
pub record IsSound (f : Federation) (c : Coordinator) : Type 0 where
  pub federation : c.federation ≡ f
  pub counted : IsCounted f c.signed

Kept-IsSound : (f : Federation) (c c' : Coordinator) → Kept c c' → IsSound f c → IsSound f c'
Kept-IsSound f c c' k s = record {
  federation = k.same ∙ s.federation;
  counted =
      subst (λ g. IsCounted g c'.signed) s.federation
        (k.counted (subst (λ g. IsCounted g c.signed) (sym s.federation) s.counted));
}

new-IsSound : (f : Federation) (b : BlindedPset) (c : Coordinator) → new f b ≡ ok c → IsSound f c
unfolding new IsDistinct
new-IsSound f b c e =
    let (_, _, made) = >>=-eq-ok (validate_blinding b) _ e in
    let same : record { federation = f; pset = b.pset; signed = [] } ≡ c = cc in
    subst (IsSound f) same
      (record { federation = refl; counted = record { members = tt; distinct = tt } })

-- Whatever the signers do and whatever PSETs come back, a coordinator that was made for a
-- federation keeps it, and the signers that it counts are different members of the federation.
pub Reachable-IsSound : (f : Federation) (c : Coordinator) → Reachable f c → IsSound f c
Reachable-IsSound f _ (start b c e) = new-IsSound f b c e
Reachable-IsSound f _ (signed c s id r) =
    Kept-IsSound f c _ (sign_with-Kept s id c) (Reachable-IsSound f c r)
Reachable-IsSound f _ (received c id p r) =
    Kept-IsSound f c _ (receive_signature-Kept id p c) (Reachable-IsSound f c r)

-- What a finalized spend rests on: at least the threshold of different members.
pub record Quorum (f : Federation) (signed : List ℕ) : Type 0 where
  pub counted : IsCounted f signed
  pub enough : f.threshold ≤ length signed

complete_enough :
    (c : Coordinator) → is_complete c ≡ ok true → c.federation.threshold ≤ length c.signed
unfolding is_complete signatures_collected
complete_enough c e = ground arith

guard_held :
    {A : Type 0} (b : Bool) (r : Result PsetError A) (e : PsetError) (a : A)
    → (if b then r else err e) ≡ ok a
    → b ≡ true
guard_held true r e a h = refl
guard_held false r e a h = cc

module _ (ops : ScriptOps) (extract_tx : Pset → Result Text Transaction) where
  finalize_complete :
      (c : Coordinator) (out : FinalizedPset)
      → finalize ops extract_tx c ≡ ok out
      → is_complete c ≡ ok true
  unfolding finalize
  finalize_complete c out e =
      let (complete, same, rest) = >>=-eq-ok (is_complete c) _ e in
      same ∙ ap ok (guard_held complete _ _ _ rest)

  -- If a coordinator that was reached by any calls, with any signers and any returned PSETs,
  -- finalizes, then at least the threshold of different members of its federation were counted.
  pub finalize-Quorum :
      (f : Federation) (c : Coordinator) (out : FinalizedPset)
      → Reachable f c
      → finalize ops extract_tx c ≡ ok out
      → Quorum f c.signed
  finalize-Quorum f c out r e =
      let s = Reachable-IsSound f c r in
      record {
        counted = s.counted;
        enough =
            subst (λ g. g.threshold ≤ length c.signed) s.federation
              (complete_enough c (finalize_complete c out e));
      }
