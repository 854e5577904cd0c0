-- ===== src/Testkit/Witnessed.antt =====
-- The final witnesses of a PSET that a team of software signers signed.
use emvault_elements.Prelude.{
  ℕ, ◌+◌, ◌<◌, ◌≤◌, ◌^◌, ◌≡◌, refl, subst, sym, ap, ◌∙◌, inl, inr, true, false, some, List, [], ◌∷◌,
  ◌++◌, All, arith, get_elem?, map, Bytes, length, if◌then◌else◌,
}
use mathlib.Core.Option.{none-ne-some}
use native.Mathlib.Nat.{min-eq_left, le_trans}
use emvault_elements.Prelude.Tests.{nat_eq}
use emvault_elements.Prelude.Result.{ok}
use emvault_elements.Prelude.Map
use emvault_elements.Elements.{Pset, PsetInput, ScriptOps, Script, Transaction}
use emvault_elements.Federation.{Federation}
use emvault_elements.Prelude.Map.{Map}
use emvault_elements.Prelude.Pairwise.{
  Pairwise-refl, partner-Pairwise, get_elem?-map, get_elem?-All,
}
use emvault_elements.Pset.Stages.{IsUnsigned}
use emvault_elements.Pset.Finalize.{
  multisig_threshold, extract_pubkeys_from_witness_script, finalize_input,
}
use emvault_elements.Pset.Finalize.Witness.{
  Signs, signed_count, finalized, finalized-some, witness_stack-Multisig, IsScripted,
}
use emvault_elements.Pset.Coordinator.{Coordinator, new}
use emvault_elements.Pset.Coordinator.Live.{Finishes}
use emvault_elements.Testkit.{Keys, PsetOps}
use emvault_elements.Testkit.Team.{
  Member, Able, Team, turns, Resembles, SameInput, Team-Finishes, new_lem,
}
use emvault_elements.Testkit.Attested.{Sealed}
use emvault_elements.Testkit.Sealed.{AttestedBy, is_owned, weaker-Sealed, turns-Sealed}

module _ {K : Type 0} (keys : Keys K) (pset_ops : PsetOps) (p : Pset) (ops : ScriptOps) where
  -- How many of the keys some member owns in the input.
  unfoldable pub owned_count : List (Member K) → PsetInput → List ℕ → ℕ
  owned_count ms i [] = 0
  owned_count ms i (k ∷ ks) = (if is_owned keys ms i k then 1 else 0) + owned_count ms i ks

  -- The input has a script that asks for `m` signatures, and the members own that many keys of it.
  pub record Covered (ms : List (Member K)) (i : PsetInput) : Type 0 where
    pub script : Script
    pub has : i.witness_script ≡ some script
    pub m : ℕ
    pub opens : multisig_threshold script ≡ some m
    pub enough : m ≤ owned_count ms i (extract_pubkeys_from_witness_script ops script)

  -- Signatures of some of the keys, in the order of the keys, of which `Q` holds
  pub data InOrder (Q : ℕ → Bytes → Type 0) : List ℕ → List Bytes → Type 0 where
    done : (ks : List ℕ) → InOrder Q ks []
    skip : (k : ℕ) (ks : List ℕ) (out : List Bytes) → InOrder Q ks out → InOrder Q (k ∷ ks) out
    sign :
        (k : ℕ) (s : Bytes) (ks : List ℕ) (out : List Bytes)
        → Q k s
        → InOrder Q ks out
        → InOrder Q (k ∷ ks) (s ∷ out)

  Signs-InOrder :
      (Q : ℕ → Bytes → Type 0) (sigs : Map ℕ Bytes)
      → ((k : ℕ) (s : Bytes) → Map.get k sigs ≡ some s → Q k s)
      → (ks : List ℕ) (out : List Bytes) → Signs sigs ks out
      → InOrder Q ks out
  Signs-InOrder Q sigs h _ _ (Signs.done ks) = done ks
  Signs-InOrder Q sigs h _ _ (Signs.skip k ks out r) =
      skip k ks out (Signs-InOrder Q sigs h ks out r)
  Signs-InOrder Q sigs h _ _ (Signs.sign k s ks out e r) =
      sign k s ks out (h k s e) (Signs-InOrder Q sigs h ks out r)

  count-le :
      (ms : List (Member K)) (i : PsetInput) (sigs : Map ℕ Bytes)
      → ((k : ℕ) → is_owned keys ms i k ≡ true → Map.contains_key k sigs ≡ true)
      → (ks : List ℕ) → owned_count ms i ks ≤ signed_count sigs ks
  unfolding owned_count signed_count Map.contains_key
  count-le ms i sigs h [] = omega arith
  count-le ms i sigs h (k ∷ ks) = ground (arith, h k, count-le ms i sigs h ks)

  -- The final witness of the input at `idx`: an empty element, exactly as many signatures as the
  -- script asks for, and the script. The signatures are in the order of the script's keys, and
  -- each was made for this input by a member of the team.
  pub record Witness (ms : List (Member K))
      (able : All {A = Member K} (λ m. Able keys pset_ops p m.signer) ms) (final : Pset) (idx : ℕ)
      (i : PsetInput) (cov : Covered ms i) : Type 0 where
    pub input : PsetInput
    pub listed : get_elem? final.inputs idx ≡ some input
    pub sigs : List Bytes
    pub stack : input.final_script_witness ≡ some ([] ∷ (sigs ++ cov.script ∷ []))
    pub count : length sigs ≡ cov.m
    pub made :
        InOrder
          (AttestedBy keys pset_ops p ms able idx i)
          (extract_pubkeys_from_witness_script ops cov.script)
          sigs

  module _ (ms : List (Member K))
      (able : All {A = Member K} (λ m. Able keys pset_ops p m.signer) ms) (q : Pset)
      (s : Sealed keys pset_ops p
        (λ idx i pk sig. AttestedBy keys pset_ops p ms able idx i pk sig)
        (is_owned keys ms)
        q)
      (idx : ℕ) (i : PsetInput) (here : get_elem? p.inputs idx ≡ some i) (cov : Covered ms i) where
    witness : Witness ms able (record q { inputs = map (finalized ops) q.inputs }) idx i cov
    unfolding SameInput finalize_input
    witness =
        let (j, there, same) =
          partner-Pairwise SameInput p.inputs q.inputs idx i s.resembles here in
        let has : j.witness_script ≡ some cov.script =
          ap (λ (x : PsetInput). x.witness_script) same ∙ cov.has in
        let keys_of = extract_pubkeys_from_witness_script ops cov.script in
        let w = witness_stack-Multisig ops j cov.script cov.m cov.opens in
        record {
          input = finalize_input ops j cov.script;
          listed =
              get_elem?-map (finalized ops) q.inputs idx j there
              ∙ ap some (finalized-some ops j cov.script has);
          sigs = w.sigs;
          stack = ap some w.shape;
          count =
              w.count
              ∙ min-eq_left (
                  le_trans cov.enough (
                    count-le ms i j.partial_sigs (λ k owned. s.present idx i j k here there owned)
                      keys_of));
          made =
              Signs-InOrder (AttestedBy keys pset_ops p ms able idx i) j.partial_sigs
                (λ k sig found. s.attested idx i j k sig here there found) keys_of w.sigs
                w.in_order;
        }

  -- A PSET without signatures
  unsigned-Sealed :
      All IsUnsigned p.inputs → Sealed keys pset_ops p (λ idx i pk sig. ⊥) (λ i pk. false) p
  unfolding SameInput Map.get
  unsigned-Sealed unsigned = record {
    resembles = Pairwise-refl SameInput (λ i. refl) p.inputs;
    attested = λ idx i j pk sig here there found.
        let bare : j.partial_sigs ≡ [] = get_elem?-All IsUnsigned p.inputs idx j unsigned there in
        none-ne-some sig (sym (ap (Map.get pk) bare) ∙ found);
    present = λ idx i j pk here there held. cc;
  }

  Covered-IsScripted :
      (ms : List (Member K)) (is : List PsetInput) → All (Covered ms) is → All IsScripted is
  unfolding IsScripted
  Covered-IsScripted ms [] h = tt
  Covered-IsScripted ms (i ∷ is) (c, h) = ((c.script, c.has), Covered-IsScripted ms is h)

  -- The team finished, and the final PSET has the witnesses.
  pub record Witnesses (f : Federation) (ms : List (Member K)) (c : Coordinator)
      (team : Team keys pset_ops p ops f ms) (covered : All (Covered ms) p.inputs) : Type 0 where
    pub finishes : Finishes ops pset_ops.extract_tx (Resembles p) (turns keys pset_ops p ops ms) c
    pub witnesses :
        (idx : ℕ) (i : PsetInput) (here : get_elem? p.inputs idx ≡ some i)
        → Witness ms team.able finishes.out.pset idx i
            (get_elem?-All (Covered ms) p.inputs idx i covered here)

  -- From an unsigned PSET to a final one: a coordinator is made for a PSET without signatures, and
  -- asked to sign with each member of a team in turn. The team is as large as the threshold (and
  -- smaller than 2^32), its members are different members of the federation, each of their
  -- software signers owns a key path in the PSET and gets its third-party calls answered, each
  -- input has a script that asks for m signatures, of whose keys the team owns at least m, and
  -- the transaction extracts from the finalized PSET. Then every call signs, exactly the team is
  -- counted, `finalize` succeeds, and the final witness of each input is an empty element,
  -- exactly m signatures in the order of the script's keys, each of that input's message by a
  -- child key of a member who owns the key in the input, and the script.
  pub Team-Witnesses :
      (f : Federation) (ms : List (Member K)) (c : Coordinator)
      → new f (record { pset = p }) ≡ ok c
      → (team : Team keys pset_ops p ops f ms) → f.threshold ≤ length ms
      → length ms < 2 ^ 32
      → All IsUnsigned p.inputs
      → (covered : All (Covered ms) p.inputs)
      → ((r : Pset)
          → Resembles p r
          → (tx : Transaction) × (pset_ops.extract_tx
                (record r { inputs = map (finalized ops) r.inputs })
              ≡ ok tx))
      → Witnesses f ms c team covered
  Team-Witnesses f ms c made team enough small unsigned covered extracts =
      let finishes =
        Team-Finishes keys pset_ops p ops f ms c made team enough small
          (Covered-IsScripted ms p.inputs covered) extracts in
      let begun = new_lem keys pset_ops p ops f c made in
      let start : Sealed keys pset_ops p (λ idx i pk sig. ⊥) (λ i pk. false) c.pset =
        subst
          (λ (x : Coordinator). Sealed keys pset_ops p (λ idx i pk sig. ⊥) (λ i pk. false) x.pset)
          begun (unsigned-Sealed unsigned) in
      let members =
        subst (λ (x : Coordinator). All {A = Member K} (λ m. x.federation.contains m.id ≡ true) ms)
          begun team.members in
      let ended =
        weaker-Sealed keys pset_ops p _
          (λ idx i pk sig. AttestedBy keys pset_ops p ms team.able idx i pk sig) _
          (is_owned keys ms) _
          (λ idx i pk sig x. elim x [ inl impossible ↦ absurd impossible | inr by ↦ by ])
          (λ i pk h. h) (turns-Sealed keys pset_ops p ops ms team.able _ _ c members start) in
      record {
        finishes = finishes;
        witnesses = λ idx i here.
            let cov = get_elem?-All (Covered ms) p.inputs idx i covered here in
            subst (λ x. Witness ms team.able x idx i cov) (sym finishes.witnesses)
              (witness ms team.able _ ended idx i here cov);
      }
