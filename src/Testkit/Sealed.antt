-- ===== src/Testkit/Sealed.antt =====
-- The signatures of a PSET after the members of a team have taken turns.
use emvault_elements.Prelude.{
  ℕ, ◌≡◌, refl, subst, sym, ◌⊎◌, inl, inr, Bool, true, false, ◌||◌, List, [], ◌∷◌, All, arith,
  Bytes,
}
use emvault_elements.Prelude.Tests.{nat_eq}
use emvault_elements.Prelude.Result.{Result, ok, err, panic}
use emvault_elements.Prelude.Exec.{continue}
use emvault_elements.Elements.{Pset, PsetInput, ScriptOps}
use emvault_elements.Error.{PsetError}
use emvault_elements.Federation.{Federation}
use emvault_elements.Pset.Coordinator.{
  Coordinator, ElementsSigner, sign_with, note_signer, add_signer,
}
use emvault_elements.Pset.Coordinator.Live.{take_turns}
use emvault_elements.Testkit.{Keys, PsetOps, mine, elements_signer}
use emvault_elements.Testkit.Team.{Member, Able, turns}
use emvault_elements.Testkit.Attested.{has_path, Attests, Sealed, sign_pset-Sealed}

kept_pset :
    (id : ℕ) (r : Result PsetError ℕ) (c : Coordinator)
    → ((continue r (λ n c'. (ok n, note_signer id n c')) c).1.pset ≡ c.pset)
      × ((continue r (λ n c'. (ok n, note_signer id n c')) c).1.federation ≡ c.federation)
kept_pset id (ok n) c = ground arith
kept_pset id (err e) c = (refl, refl)
kept_pset id panic c = (refl, refl)

sign_with-pset :
    (signer : ElementsSigner) (id : ℕ) (c : Coordinator)
    → c.federation.contains id ≡ true
    → ((sign_with signer id c).1.pset ≡ (signer.sign_pset c.pset).1)
      × ((sign_with signer id c).1.federation ≡ c.federation)
unfolding sign_with add_signer
sign_with-pset signer id c member =
    let (r, pset) = signer.sign_pset c.pset in rw member (kept_pset id r (record c { pset = pset }))

module _ {K : Type 0} (keys : Keys K) where
  -- Some member's signer owns a path of the key in the input.
  unfoldable pub is_owned : List (Member K) → PsetInput → ℕ → Bool
  is_owned [] i pk = false
  is_owned (m ∷ ms) i pk = has_path pk (mine keys m.signer i) || is_owned ms i pk

module _ {K : Type 0} (keys : Keys K) (pset_ops : PsetOps) (p : Pset) where
  -- One of the members made the signature, for a key path that its signer owns in the input.
  unfoldable pub AttestedBy :
      (ms : List (Member K))
      → All {A = Member K} (λ m. Able keys pset_ops p m.signer) ms
      → ℕ
      → PsetInput
      → ℕ
      → Bytes
      → Type 0
  AttestedBy [] able idx i pk sig = ⊥
  AttestedBy (m ∷ ms) (a, able) idx i pk sig =
      Attests keys pset_ops p m.signer a idx i pk sig ⊎ AttestedBy ms able idx i pk sig

  pub weaker-Sealed :
      (P Q : ℕ → PsetInput → ℕ → Bytes → Type 0) (G H : PsetInput → ℕ → Bool) (q : Pset)
      → ((idx : ℕ) (i : PsetInput) (pk : ℕ) (sig : Bytes) → P idx i pk sig → Q idx i pk sig)
      → ((i : PsetInput) (pk : ℕ) → H i pk ≡ true → G i pk ≡ true)
      → Sealed keys pset_ops p P G q
      → Sealed keys pset_ops p Q H q
  weaker-Sealed P Q G H q over under s = record {
    resembles = s.resembles;
    attested = λ idx i j pk sig here there found.
        over idx i pk sig (s.attested idx i j pk sig here there found);
    present = λ idx i j pk here there held. s.present idx i j pk here there (under i pk held);
  }

  -- After the turns, each signature was there or is by a member, and every key that a member owns
  -- has one.
  pub turns-Sealed :
      (ops : ScriptOps) (ms : List (Member K))
      (able : All {A = Member K} (λ m. Able keys pset_ops p m.signer) ms)
      (P : ℕ → PsetInput → ℕ → Bytes → Type 0) (H : PsetInput → ℕ → Bool) (c : Coordinator)
      → All {A = Member K} (λ m. c.federation.contains m.id ≡ true) ms
      → Sealed keys pset_ops p P H c.pset
      → Sealed keys pset_ops p
          (λ idx i pk sig. P idx i pk sig ⊎ AttestedBy ms able idx i pk sig)
          (λ i pk. H i pk || is_owned keys ms i pk)
          (take_turns (turns keys pset_ops p ops ms) c).pset
  unfolding take_turns turns AttestedBy is_owned
  turns-Sealed ops [] able P H c members s =
      weaker-Sealed P (λ idx i pk sig. P idx i pk sig ⊎ ⊥) H (λ i pk. H i pk || false) c.pset
        (λ idx i pk sig x. inl x) (λ i pk h. ground arith) s
  turns-Sealed ops (m ∷ ms) (a, able) P H c (member, members) s =
      let signer = elements_signer keys pset_ops m.signer in
      let (now, same) = sign_with-pset signer m.id c member in
      let c1 = (sign_with signer m.id c).1 in
      let P1 : ℕ → PsetInput → ℕ → Bytes → Type 0 =
        λ idx i pk sig. P idx i pk sig ⊎ Attests keys pset_ops p m.signer a idx i pk sig in
      let H1 : PsetInput → ℕ → Bool = λ i pk. H i pk || has_path pk (mine keys m.signer i) in
      let step = sign_pset-Sealed keys pset_ops p P H m.signer a c.pset s in
      let rest =
        turns-Sealed ops ms able P1 H1 c1
          (subst (λ (f : Federation). All {A = Member K} (λ m. f.contains m.id ≡ true) ms)
            (sym same) members)
          (subst (Sealed keys pset_ops p P1 H1) (sym now) step) in
      weaker-Sealed _ _ _ _ _ (λ idx i pk sig x. reassociated x) (λ i pk h. ground arith) rest
    where
      reassociated : {A B C : Type 0} → (A ⊎ B) ⊎ C → A ⊎ (B ⊎ C)
      reassociated (inl (inl a)) = inl a
      reassociated (inl (inr b)) = inr (inl b)
      reassociated (inr c) = inr (inr c)
