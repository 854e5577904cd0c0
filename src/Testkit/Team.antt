-- ===== src/Testkit/Team.antt =====
-- Software signers that sign for a coordinator in turn.
use emvault_elements.Prelude.{
  ℕ, zero, suc, ◌^◌, ◌≤◌, ◌<◌, ◌≡◌, refl, subst, sym, ap, ◌∙◌, true, false, List, [], ◌∷◌, map, All,
  arith, Text, length, any, ◌==◌,
}
use emvault_elements.Prelude.Tests.{nat_eq}
use emvault_elements.Prelude.Result.{ok, >>=-eq-ok}
use emvault_elements.Prelude.Pairwise.{
  Pairwise, none_left, both, Pairwise-refl, Pairwise-trans, All-Pairwise,
}
use emvault_elements.Elements.{Pset, PsetInput, ScriptOps, Transaction}
use emvault_elements.Confidential.{validate_blinding}
use emvault_elements.Federation.{Federation}
use emvault_elements.Pset.Finalize.Witness.{IsScripted, finalized}
use emvault_elements.Pset.Coordinator.{Coordinator, new}
use emvault_elements.Pset.Coordinator.Quorum.{IsDistinct}
use emvault_elements.Pset.Coordinator.Live.{
  Turn, ids, IsWorking, Progress, Finalizable, Waiting, Finishes, turns-Finishes,
}
use emvault_elements.Testkit.{Keys, PsetOps, SoftwareSigner, ecdsa_sighash, mine, elements_signer}
use emvault_elements.Testkit.Touched.{Touched, Within, sign_pset-Within}
use emvault_elements.Testkit.Written.{own_total}
use emvault_elements.Testkit.Signing.{Hashes, sign_pset-Signs}

-- The input with perhaps other signatures
unfoldable pub SameInput : PsetInput → PsetInput → Type 0
SameInput i j = j ≡ record i { partial_sigs = j.partial_sigs }

-- The PSET with perhaps other signatures, and whatever outputs
abbrev pub Resembles : Pset → Pset → Type 0
Resembles p q = Pairwise SameInput p.inputs q.inputs

SameInput-trans : (i j k : PsetInput) → SameInput i j → SameInput j k → SameInput i k
unfolding SameInput
SameInput-trans i j k e h =
    h ∙ ap {A = PsetInput} {B = PsetInput} (λ x. record x { partial_sigs = k.partial_sigs }) e

Touched-SameInput :
    (fp : ℕ) (is js : List PsetInput) → Pairwise (Touched fp) is js → Pairwise SameInput is js
unfolding SameInput
Touched-SameInput fp _ _ none_left = none_left
Touched-SameInput fp _ _ (both i j is js t ts) =
    both i j is js t.same (Touched-SameInput fp is js ts)

pub Within-Resembles : (fp : ℕ) (p q r : Pset) → Resembles p q → Within fp q r → Resembles p r
Within-Resembles fp p q r h w =
    Pairwise-trans SameInput SameInput-trans p.inputs q.inputs r.inputs h
      (Touched-SameInput fp q.inputs r.inputs w.inputs)

SameInput-IsScripted : (i j : PsetInput) → SameInput i j → IsScripted i → IsScripted j
unfolding SameInput IsScripted
SameInput-IsScripted i j e (script, found) =
    (script, ap (λ (x : PsetInput). x.witness_script) e ∙ found)

less_one_of : (n : ℕ) → 0 < n → (m : ℕ) × (n ≡ suc m)
less_one_of zero h = absurd (omega arith)
less_one_of (suc m) h = (m, refl)

-- A member's id and its software signer
pub record Member (K : Type 0) : Type 0 where
  pub id : ℕ
  pub signer : SoftwareSigner K

module _ {K : Type 0} (keys : Keys K) (pset_ops : PsetOps) (p : Pset) where
  own_total_along :
      (signer : SoftwareSigner K) (child : Text → K) (is js : List PsetInput)
      → Pairwise SameInput is js
      → own_total keys signer child js ≡ own_total keys signer child is
  unfolding own_total SameInput mine
  own_total_along signer child _ _ none_left = refl
  own_total_along signer child _ _ (both i j is js e h) = omega (
    arith,
    own_total_along signer child is js h,
    ap (λ (x : PsetInput). length (mine keys signer x)) e,
  )

  -- A signer for which the third-party calls succeed on this PSET, whatever its signatures: child
  -- keys derive, the transaction extracts, each input has an ECDSA message. It has a key path in
  -- some input, and fewer than 2^64 of them in all.
  pub record Able (signer : SoftwareSigner K) : Type 0 where
    pub child : Text → K
    pub derives : (path : Text) → keys.derive_priv signer.master path ≡ ok (child path)
    pub tx : Transaction
    pub extracts : (q : Pset) → Resembles p q → pset_ops.extract_tx q ≡ ok tx
    pub message : ℕ → ℕ
    pub hashes :
        (q : Pset) (idx : ℕ)
        → Resembles p q
        → idx < length q.inputs
        → pset_ops.sighash_msg q idx tx signer.genesis ≡ ok (ecdsa_sighash (message idx))
    pub owns : 0 < own_total keys signer child p.inputs
    pub counts : own_total keys signer child p.inputs < 2 ^ 64

  module _ (ops : ScriptOps) where
    Able-Progress :
        (signer : SoftwareSigner K) (q : Pset)
        → Able signer
        → Resembles p q
        → Progress ops pset_ops.extract_tx (Resembles p) (elements_signer keys pset_ops signer) q
    unfolding Hashes
    Able-Progress signer q a h =
        let total = own_total_along signer a.child p.inputs q.inputs h in
        let (after, done) =
          sign_pset-Signs keys signer a.child a.derives pset_ops a.tx a.message q
            (λ r idx w small. a.hashes r idx (Within-Resembles signer.fingerprint p q r h w) small)
            (a.extracts q h) in
        let (n, positive) = less_one_of (own_total keys signer a.child p.inputs) a.owns in
        record {
          less_one = n;
          signs = ap (λ r. r.0) done.runs ∙ ap ok (omega (arith, total, positive, a.counts));
          ready =
              Within-Resembles signer.fingerprint p q _ h (sign_pset-Within keys signer pset_ops q);
        }

    unfoldable pub turns : List (Member K) → List Turn
    turns [] = []
    turns (m ∷ ms) =
        record { id = m.id; signer = elements_signer keys pset_ops m.signer } ∷ turns ms

    -- The team: different members of the federation, each with a signer that is able to sign.
    pub record Team (f : Federation) (ms : List (Member K)) : Type 0 where
      pub members : All {A = Member K} (λ m. f.contains m.id ≡ true) ms
      pub able : All {A = Member K} (λ m. Able m.signer) ms
      pub distinct : IsDistinct (map (λ m. m.id) ms)

    ids-turns : (ms : List (Member K)) → ids (turns ms) ≡ map (λ m. m.id) ms
    unfolding turns
    ids-turns [] = refl
    ids-turns (m ∷ ms) = ap (◌∷◌ m.id) (ids-turns ms)

    length-turns : (ms : List (Member K)) → length (turns ms) ≡ length ms
    unfolding turns
    length-turns [] = refl
    length-turns (m ∷ ms) = ap suc (length-turns ms)

    turns_all :
        (P : Turn → Type 0) (Q : Member K → Type 0)
        → ((m : Member K)
            → Q m
            → P (record { id = m.id; signer = elements_signer keys pset_ops m.signer }))
        → (ms : List (Member K)) → All Q ms
        → All P (turns ms)
    unfolding turns
    turns_all P Q h [] q = tt
    turns_all P Q h (m ∷ ms) q = (h m q.0, turns_all P Q h ms q.1)

    turns_fresh :
        (ms : List (Member K)) → All {A = Turn} (λ t. any (λ x. x == t.id) [] ≡ false) (turns ms)
    unfolding turns
    turns_fresh [] = tt
    turns_fresh (m ∷ ms) = (refl, turns_fresh ms)

    Team-Waiting :
        (f : Federation) (ms : List (Member K))
        → Team f ms
        → Waiting ops pset_ops.extract_tx
            (Resembles p)
            (turns ms)
            (record { federation = f; pset = p; signed = [] })
    unfolding IsWorking SameInput
    Team-Waiting f ms team = record {
      members =
          turns_all (λ t. f.contains t.id ≡ true) (λ m. f.contains m.id ≡ true) (λ m h. h) ms
            team.members;
      working =
          turns_all (λ t. IsWorking ops pset_ops.extract_tx (Resembles p) t.signer)
            (λ m. Able m.signer) (λ m a q h. Able-Progress m.signer q a h) ms team.able;
      fresh = turns_fresh ms;
      distinct = subst IsDistinct (sym (ids-turns ms)) team.distinct;
      ready = Pairwise-refl SameInput (λ i. refl) p.inputs;
    }

    pub new_lem :
        (f : Federation) (c : Coordinator)
        → new f (record { pset = p }) ≡ ok c
        → record { federation = f; pset = p; signed = [] } ≡ c
    unfolding new
    new_lem f c e = let (_, _, made) = >>=-eq-ok (validate_blinding (record { pset = p })) _ e in cc

    finalizable :
        (q : Pset)
        → All IsScripted p.inputs
        → ((r : Pset)
            → Resembles p r
            → (tx : Transaction) × (pset_ops.extract_tx
                  (record r { inputs = map (finalized ops) r.inputs })
                ≡ ok tx))
        → Resembles p q
        → Finalizable ops pset_ops.extract_tx (Resembles p) q
    finalizable q scripted extracts h = record {
      scripted =
          All-Pairwise SameInput IsScripted SameInput-IsScripted p.inputs q.inputs h scripted;
      transaction = (extracts q h).0;
      extracts = (extracts q h).1;
    }

    -- A coordinator that was made for a PSET, and then asked to sign with each member of a team
    -- in turn, finalizes: if the team is as large as the threshold (and smaller than 2^32), its
    -- members are different members of the federation, each of their software signers owns a key
    -- path in the PSET and gets its third-party calls answered, every input has a witness
    -- script, and the transaction extracts from the finalized PSET. Every call signs, and exactly
    -- the team is counted.
    pub Team-Finishes :
        (f : Federation) (ms : List (Member K)) (c : Coordinator)
        → new f (record { pset = p }) ≡ ok c
        → Team f ms
        → f.threshold ≤ length ms
        → length ms < 2 ^ 32
        → All IsScripted p.inputs
        → ((r : Pset)
            → Resembles p r
            → (tx : Transaction) × (pset_ops.extract_tx
                  (record r { inputs = map (finalized ops) r.inputs })
                ≡ ok tx))
        → Finishes ops pset_ops.extract_tx (Resembles p) (turns ms) c
    Team-Finishes f ms c made team enough small scripted extracts =
        let n = length-turns ms in
        subst (Finishes ops pset_ops.extract_tx (Resembles p) (turns ms)) (new_lem f c made) (
          turns-Finishes ops pset_ops.extract_tx (Resembles p) (turns ms) _ (Team-Waiting f ms team)
            (omega (arith, n)) (omega (arith, n)) (λ q h. finalizable q scripted extracts h))
