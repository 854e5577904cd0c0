-- ===== src/Testkit/Touched/Relation.antt =====
-- A PSET before and after signatures were written in it.
use emvault_elements.Prelude.{
  ℕ, zero, suc, ◌≡◌, ◌≢◌, refl, subst, sym, ap, ◌∙◌, true, some, List, [], ◌∷◌, IsMember, arith,
  get_elem?, set, nat_eqb_iff, Text, Bytes,
}
use emvault_elements.Prelude.Tests.{nat_eq}
use emvault_elements.Prelude.Result.{Result, ok, err, panic}
use emvault_elements.Prelude.Exec.{Exec, continue}
use emvault_elements.Prelude.Pairwise.{Pairwise, Pairwise-refl, Pairwise-trans, set-Pairwise}
use emvault_elements.Prelude.Map
use emvault_elements.Prelude.Map.{Map}
use emvault_elements.Prelude.Map.Laws.{get-insert}
use emvault_elements.Elements.{Pset, PsetInput}
use emvault_elements.Error.{PsetError}
use emvault_elements.Testkit.{insert_sig}

-- The PSET names no path of the signer for the key.
unfoldable pub Foreign : ℕ → Map ℕ (ℕ × Text) → ℕ → Type 0
Foreign fingerprint derivations pk =
    (path : Text) → IsMember (pk, (fingerprint, path)) derivations → ⊥

-- The PSET names a path of the signer for the key.
pub record Own (fingerprint : ℕ) (derivations : Map ℕ (ℕ × Text)) (pk : ℕ) : Type 0 where
  pub path : Text
  pub named : IsMember (pk, (fingerprint, path)) derivations

-- An input before and after: signatures may have been written, for keys of the signer.
pub record Touched (fingerprint : ℕ) (old new : PsetInput) : Type 0 where
  pub same : new ≡ record old { partial_sigs = new.partial_sigs }
  pub kept :
      (pk : ℕ)
      → Map.contains_key pk old.partial_sigs ≡ true
      → Map.contains_key pk new.partial_sigs ≡ true
  pub foreign :
      (pk : ℕ)
      → Foreign fingerprint old.bip32_derivation pk
      → Map.get pk new.partial_sigs ≡ Map.get pk old.partial_sigs

-- A PSET before and after.
pub record Within (fingerprint : ℕ) (old new : Pset) : Type 0 where
  pub inputs : Pairwise (Touched fingerprint) old.inputs new.inputs
  pub same : new ≡ record old { inputs = new.inputs }

Touched-refl : (fp : ℕ) (i : PsetInput) → Touched fp i i
Touched-refl fp i = record { same = refl; kept = λ pk h. h; foreign = λ pk h. refl }

Touched-trans : (fp : ℕ) (a b c : PsetInput) → Touched fp a b → Touched fp b c → Touched fp a c
Touched-trans fp a b c p q = record {
  same =
      q.same
      ∙ ap {A = PsetInput} {B = PsetInput} (λ x. record x { partial_sigs = c.partial_sigs }) p.same;
  kept = λ pk h. q.kept pk (p.kept pk h);
  foreign = λ pk h.
      q.foreign pk
        (subst (λ d. Foreign fp d pk) (sym (ap {A = PsetInput} (λ i. i.bip32_derivation) p.same)) h)
      ∙ p.foreign pk h;
}

pub Within-refl : (fp : ℕ) (p : Pset) → Within fp p p
Within-refl fp p = record {
  inputs = Pairwise-refl (Touched fp) (Touched-refl fp) p.inputs;
  same = refl;
}

pub Within-trans : (fp : ℕ) (a b c : Pset) → Within fp a b → Within fp b c → Within fp a c
Within-trans fp a b c p q = record {
  inputs =
      Pairwise-trans (Touched fp) (Touched-trans fp) a.inputs b.inputs c.inputs p.inputs q.inputs;
  same = q.same ∙ ap {A = Pset} {B = Pset} (λ x. record x { inputs = c.inputs }) p.same;
}

contains_key-insert :
    (k pk : ℕ) (s : Bytes) (m : Map ℕ Bytes)
    → Map.contains_key pk m ≡ true
    → Map.contains_key pk (Map.insert k s m) ≡ true
unfolding Map.contains_key
contains_key-insert k pk s m h = ground (arith, get-insert k pk s m)

pub insert-Touched :
    (fp pk : ℕ) (s : Bytes) (i : PsetInput)
    → Own fp i.bip32_derivation pk
    → Touched fp i (record i { partial_sigs = Map.insert pk s i.partial_sigs })
unfolding Foreign
insert-Touched fp pk s i own = record {
  same = refl;
  kept = λ other h. contains_key-insert pk other s i.partial_sigs h;
  foreign = λ other h.
      let apart : pk ≢ other = λ e.
        h own.path (subst (λ k. IsMember (k, (fp, own.path)) i.bip32_derivation) e own.named) in
      get-insert pk other s i.partial_sigs ∙ ground (arith, nat_eqb_iff pk other, apart);
}

pub insert_sig-Within :
    (fp idx pk : ℕ) (s : Bytes) (p : Pset) (i : PsetInput)
    → get_elem? p.inputs idx ≡ some i
    → Own fp i.bip32_derivation pk
    → Within fp p (insert_sig idx pk s p)
insert_sig-Within fp idx pk s p i found own =
    rw (found, insert_sig)
      (record {
        inputs =
            set-Pairwise (Touched fp) (Touched-refl fp) p.inputs idx i _ found
              (insert-Touched fp pk s i own);
        same = refl;
      })

get_elem?-set :
    (is : List PsetInput) (idx : ℕ) (i j : PsetInput)
    → get_elem? is idx ≡ some i
    → get_elem? (set is idx j) idx ≡ some j
get_elem?-set [] idx i j e = cc
get_elem?-set (x ∷ is) zero i j e = refl
get_elem?-set (x ∷ is) (suc idx) i j e = get_elem?-set is idx i j e

pub get_elem?-insert_sig :
    (idx pk : ℕ) (s : Bytes) (p : Pset) (i : PsetInput)
    → get_elem? p.inputs idx ≡ some i
    → get_elem? (insert_sig idx pk s p).inputs idx
      ≡ some (record i { partial_sigs = Map.insert pk s i.partial_sigs })
get_elem?-insert_sig idx pk s p i found =
    rw (found, insert_sig) (get_elem?-set p.inputs idx i _ found)

pub continue-Within :
    {A B : Type 0} (fp : ℕ) (r : Result PsetError A) (next : A → Exec Pset PsetError B) (p : Pset)
    → ((a : A) → r ≡ ok a → Within fp p (next a p).1)
    → Within fp p (continue r next p).1
continue-Within fp (ok a) next p h = h a refl
continue-Within fp (err e) next p h = Within-refl fp p
continue-Within fp panic next p h = Within-refl fp p
