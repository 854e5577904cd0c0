-- ===== src/Pset/Coordinator/Live.antt =====
-- Signers that take turns until the coordinator can finalize.
use emvault_elements.Prelude.{
  ℕ, suc, ◌+◌, ◌^◌, ◌≤◌, ◌<◌, ◌≡◌, refl, ap, ◌∙◌, sym, subst, true, false, List, [], ◌∷◌, ◌++◌, map,
  arith, All, any, length, ◌==◌, nat_eqb_iff, Text, append_assoc, append-nil, length-append,
}
use emvault_elements.Prelude.Tests.{nat_eq}
use emvault_elements.Prelude.Result.{Result, ok}
use emvault_elements.Elements.{Pset, ScriptOps, Transaction}
use emvault_elements.Federation.{Federation}
use emvault_elements.Pset.Finalize.Witness.{IsScripted, finalized, finalize_p2wsh_pset-IsScripted}
use emvault_elements.Pset.Coordinator.{
  Coordinator, ElementsSigner, FinalizedPset, add_signer, sign_with, note_signer, is_complete,
  signatures_collected, finalize,
}
use emvault_elements.Pset.Coordinator.Quorum.{IsDistinct, any-append}

-- A member's id and its signer
pub record Turn : Type 0 where
  pub id : ℕ
  pub signer : ElementsSigner

-- The calls of `sign_with`, one after another
unfoldable pub take_turns : List Turn → Coordinator → Coordinator
take_turns [] c = c
take_turns (t ∷ ts) c = take_turns ts (sign_with t.signer t.id c).1

abbrev pub ids : List Turn → List ℕ
ids = map (λ t. t.id)

note_signer_lem :
    (id n : ℕ) (c : Coordinator)
    → any (λ x. x == id) c.signed ≡ false
    → note_signer id (suc n) c ≡ record c { signed = c.signed ++ id ∷ [] }
unfolding add_signer
note_signer_lem id n c fresh =
    let some_signed : (suc n == 0) ≡ false = ground (arith, nat_eqb_iff (suc n) 0) in
    rw (some_signed, fresh) refl

length-map : (f : Turn → ℕ) (ts : List Turn) → length (map f ts) ≡ length ts
length-map f [] = refl
length-map f (t ∷ ts) = ap suc (length-map f ts)

-- The members that wait are still new once another one is counted.
fresh_after :
    (id : ℕ) (signed : List ℕ) (ts : List Turn)
    → any (λ y. y == id) (ids ts) ≡ false
    → All {A = Turn} (λ t. any (λ x. x == t.id) signed ≡ false) ts
    → All {A = Turn} (λ t. any (λ x. x == t.id) (signed ++ id ∷ []) ≡ false) ts
fresh_after id signed [] other fresh = tt
fresh_after id signed (t ∷ ts) other (new, fresh) =
    (any-append id signed t.id new (ground arith), fresh_after id signed ts (ground arith) fresh)

module _ (ops : ScriptOps) (extract_tx : Pset → Result Text Transaction)
    (IsReady : Pset → Type 0) where
  -- On a PSET that is ready the signer signs at least one input, and leaves the PSET ready.
  pub record Progress (s : ElementsSigner) (p : Pset) : Type 0 where
    pub less_one : ℕ
    pub signs : (s.sign_pset p).0 ≡ ok (suc less_one)
    pub ready : IsReady (s.sign_pset p).1

  unfoldable pub IsWorking : ElementsSigner → Type 0
  IsWorking s = (p : Pset) → IsReady p → Progress s p

  -- A PSET that is ready can be finalized: its inputs have witness scripts, and the transaction
  -- extracts once the witnesses are in place.
  pub record Finalizable (p : Pset) : Type 0 where
    pub scripted : All IsScripted p.inputs
    pub transaction : Transaction
    pub extracts : extract_tx (record p { inputs = map (finalized ops) p.inputs }) ≡ ok transaction

  -- Every call of the turns returns a count above 0.
  pub AllSigned : List Turn → Coordinator → Type 0
  AllSigned [] c = Unit
  AllSigned (t ∷ ts) c =
      ((n : ℕ) × ((sign_with t.signer t.id c).0 ≡ ok (suc n)))
      × AllSigned ts (sign_with t.signer t.id c).1

  sign_with_lem :
      (s : ElementsSigner) (id : ℕ) (c : Coordinator)
      → c.federation.contains id ≡ true
      → any (λ x. x == id) c.signed ≡ false
      → (done : Progress s c.pset)
      → sign_with s id c ≡ (
        ok (suc done.less_one),
        record {
          federation = c.federation;
          pset = (s.sign_pset c.pset).1;
          signed = c.signed ++ id ∷ [];
        },
      )
  unfolding sign_with add_signer
  sign_with_lem s id c member fresh done =
      rw (member, done.signs)
        (ap (λ c'. (ok (suc done.less_one), c'))
          (note_signer_lem id done.less_one (record c { pset = (s.sign_pset c.pset).1 }) fresh))

  -- The members that will sign: new to the coordinator, different, and with a working signer.
  pub record Waiting (ts : List Turn) (c : Coordinator) : Type 0 where
    pub members : All {A = Turn} (λ t. c.federation.contains t.id ≡ true) ts
    pub working : All {A = Turn} (λ t. IsWorking t.signer) ts
    pub fresh : All {A = Turn} (λ t. any (λ x. x == t.id) c.signed ≡ false) ts
    pub distinct : IsDistinct (ids ts)
    pub ready : IsReady c.pset

  -- The turns are over: every call signed, and every member is counted.
  pub record Ended (ts : List Turn) (c c' : Coordinator) : Type 0 where
    pub all_signed : AllSigned ts c
    pub signed : c'.signed ≡ c.signed ++ ids ts
    pub federation : c'.federation ≡ c.federation
    pub ready : IsReady c'.pset

  -- A first turn before turns that end well
  counted_first :
      (t : Turn) (ts : List Turn) (c c1 : Coordinator) (n : ℕ) (p : Pset)
      → sign_with t.signer t.id c ≡ (ok (suc n), c1)
      → c1 ≡ record { federation = c.federation; pset = p; signed = c.signed ++ t.id ∷ [] }
      → Ended ts c1 (take_turns ts c1)
      → Ended (t ∷ ts) c (take_turns (t ∷ ts) c)
  unfolding take_turns AllSigned
  counted_first t ts c c1 n p e shape rest =
      let after : (sign_with t.signer t.id c).1 ≡ c1 = ap (λ r. r.1) e in
      record {
        all_signed = ((n, ap (λ r. r.0) e), subst (AllSigned ts) (sym after) rest.all_signed);
        signed =
            ap (λ x. (take_turns ts x).signed) after
            ∙ rest.signed
            ∙ ap (λ x. x.signed ++ ids ts) shape
            ∙ append_assoc c.signed (t.id ∷ []) (ids ts);
        federation =
            ap (λ x. (take_turns ts x).federation) after
            ∙ rest.federation
            ∙ ap (λ x. x.federation) shape;
        ready = subst (λ x. IsReady (take_turns ts x).pset) (sym after) rest.ready;
      }

  turns_end : (ts : List Turn) (c : Coordinator) → Waiting ts c → Ended ts c (take_turns ts c)
  unfolding take_turns AllSigned IsDistinct IsWorking
  turns_end [] c w = record {
    all_signed = tt;
    signed = sym (append-nil c.signed);
    federation = refl;
    ready = w.ready;
  }
  turns_end (t ∷ ts) c w =
      let done = w.working.0 c.pset w.ready in
      let c1 : Coordinator = record {
        federation = c.federation;
        pset = (t.signer.sign_pset c.pset).1;
        signed = c.signed ++ t.id ∷ [];
      } in
      let e = sign_with_lem t.signer t.id c w.members.0 w.fresh.0 done in
      let rest = turns_end ts c1 (record {
        members = w.members.1;
        working = w.working.1;
        fresh = fresh_after t.id c.signed ts w.distinct.0 w.fresh.1;
        distinct = w.distinct.1;
        ready = done.ready;
      }) in
      counted_first t ts c c1 done.less_one _ e refl rest

  complete_after :
      (c : Coordinator)
      → length c.signed < 2 ^ 32
      → c.federation.threshold ≤ length c.signed
      → is_complete c ≡ ok true
  unfolding is_complete signatures_collected
  complete_after c small enough = ground arith

  finalize_ready :
      (c : Coordinator)
      → length c.signed < 2 ^ 32
      → c.federation.threshold ≤ length c.signed
      → Finalizable c.pset
      → (out : FinalizedPset) × (finalize ops extract_tx c ≡ ok out)
        × (out.pset ≡ record (c.pset) { inputs = map (finalized ops) c.pset.inputs })
  unfolding finalize
  finalize_ready c small enough f = (
    record {
      pset = record (c.pset) { inputs = map (finalized ops) c.pset.inputs };
      transaction = f.transaction;
    },
    rw
        (
          complete_after c small enough,
          finalize_p2wsh_pset-IsScripted ops c.pset f.scripted,
          f.extracts,
        )
        refl,
    refl,
  )

  -- The turns, and a final PSET after them
  pub record Finishes (ts : List Turn) (c : Coordinator) : Type 0 where
    pub ended : Ended ts c (take_turns ts c)
    pub out : FinalizedPset
    pub final : finalize ops extract_tx (take_turns ts c) ≡ ok out
    pub witnesses : out.pset ≡ record ((take_turns ts c).pset) {
      inputs = map (finalized ops) (take_turns ts c).pset.inputs;
    }

  length-Ended :
      (ts : List Turn) (c c' : Coordinator)
      → Ended ts c c'
      → length c'.signed ≡ length c.signed + length ts
  length-Ended ts c c' e =
      ap length e.signed
      ∙ length-append c.signed (ids ts)
      ∙ ap (λ n. length c.signed + n) (length-map (λ t. t.id) ts)

  -- If the members that take turns are different, new to the coordinator, and as many as the
  -- threshold asks for on top of those that are counted (fewer than 2^32 in all), if each of
  -- their signers signs at least one input of a PSET that is ready and leaves it ready, and if a
  -- PSET that is ready has witness scripts and extracts once they are used, then every call of
  -- `sign_with` returns a count above 0, exactly those members are counted, and `finalize`
  -- succeeds, with the PSET that they signed and each of its inputs finalized. `IsReady` is any
  -- predicate on PSETs.
  pub turns-Finishes :
      (ts : List Turn) (c : Coordinator)
      → Waiting ts c
      → length c.signed + length ts < 2 ^ 32
      → c.federation.threshold ≤ length c.signed + length ts
      → ((p : Pset) → IsReady p → Finalizable p)
      → Finishes ts c
  turns-Finishes ts c w small enough finalizable =
      let ended = turns_end ts c w in
      let c' = take_turns ts c in
      let n = length-Ended ts c c' ended in
      let same = ap (λ (f : Federation). f.threshold) ended.federation in
      let (out, final, witnesses) =
        finalize_ready c' (omega (arith, n)) (omega (arith, n, same))
          (finalizable c'.pset ended.ready) in
      record { ended = ended; out = out; final = final; witnesses = witnesses }
