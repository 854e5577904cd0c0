-- ===== src/Testkit/Touched.antt =====
-- What the software signer may change in a PSET.
pub mod Relation
use emvault_elements.Prelude.{
  ℕ, zero, suc, ◌≡◌, ◌≢◌, refl, subst, sym, ap, ◌∙◌, inl, inr, true, some, List, [], ◌∷◌, All,
  IsMember, arith, get_elem?, set, nat_eqb_iff, ◌==◌, Text, Bytes, length, wrap64, Option-cases,
  Bool-cases, filter, map, ◌+◌,
}
use emvault_elements.Prelude.Tests.{nat_eq}
use emvault_elements.Prelude.Result.{Result, ok, err, panic, map_err}
use emvault_elements.Prelude.Exec.{Exec, continue}
use emvault_elements.Prelude.Pairwise.{Pairwise, Pairwise-refl, Pairwise-trans, set-Pairwise}
use emvault_elements.Prelude.Map
use emvault_elements.Prelude.Map.{Map}
use emvault_elements.Prelude.Map.Laws.{get-insert}
use emvault_elements.Elements.{Pset, PsetInput, Transaction}
use emvault_elements.Error.{PsetError, elements, signer_backend}
use emvault_elements.Testkit.{
  Keys, PsetOps, SoftwareSigner, PsbtSighashMsg, ecdsa_sighash, tap_sighash, mine, sign_keys,
  sign_message, sign_input, sign_from, sign_pset, insert_sig, serialized,
}
unfoldable pub use Relation.*

module _ {K : Type 0} (keys : Keys K) (signer : SoftwareSigner K) where
  abbrev fp : ℕ
  fp = signer.fingerprint

  filter-Own :
      (ds whole : Map ℕ (ℕ × Text))
      → ((d : ℕ × (ℕ × Text)) → IsMember d ds → IsMember d whole)
      → All {A = ℕ × Text}
          (λ k. Own fp whole k.0)
          (map (λ d. (d.0, d.1.1)) (filter (λ d. d.1.0 == fp) ds))
  filter-Own [] whole sub = tt
  filter-Own ((pk, (f, path)) ∷ ds) whole sub =
      let rest = filter-Own ds whole (λ d h. sub d (inr h)) in
      elim (Bool-cases (f == fp)) [
        | inr other ↦ rw (other, All, map, filter) rest
        | inl ours ↦
            rw (ours, All, map, filter)
              (
                record {
                  path = path;
                  named =
                      subst (λ g. IsMember (pk, (g, path)) whole) ((nat_eqb_iff f fp).0 ours)
                        (sub (pk, (f, path)) (inl refl));
                },
                rest,
              )
      ]

  mine-Own :
      (i : PsetInput) → All {A = ℕ × Text} (λ k. Own fp i.bip32_derivation k.0) (mine keys signer i)
  unfolding mine
  mine-Own i = filter-Own i.bip32_derivation i.bip32_derivation (λ d h. h)

  sign_keys-Within :
      (idx message : ℕ) (ds : Map ℕ (ℕ × Text)) (ks : List (ℕ × Text)) (signed : ℕ) (p : Pset)
      (i : PsetInput)
      → get_elem? p.inputs idx ≡ some i
      → i.bip32_derivation ≡ ds
      → All {A = ℕ × Text} (λ k. Own fp ds k.0) ks
      → Within fp p (sign_keys keys signer idx message ks signed p).1
  unfolding sign_keys
  sign_keys-Within idx message ds [] signed p i found same own = Within-refl fp p
  sign_keys-Within idx message ds ((pk, path) ∷ ks) signed p i found same (own, owns) =
      continue-Within fp (map_err signer_backend (keys.derive_priv signer.master path))
        (λ child p'.
          sign_keys keys signer idx message ks (wrap64 (signed + 1))
            (insert_sig idx pk (serialized keys message child) p'))
        p
        λ child e.
          let s = serialized keys message child in
          Within-trans fp p (insert_sig idx pk s p) _
            (insert_sig-Within fp idx pk s p i found (subst (λ d. Own fp d pk) (sym same) own))
            (sign_keys-Within idx message ds ks (wrap64 (signed + 1)) (insert_sig idx pk s p)
              (record i { partial_sigs = Map.insert pk s i.partial_sigs })
              (get_elem?-insert_sig idx pk s p i found) same owns)

  module _ (ops : PsetOps) where
    sign_message-Within :
        (idx signed : ℕ) (m : PsbtSighashMsg) (p : Pset)
        → Within fp p (sign_message keys ops signer idx signed m p).1
    unfolding sign_message
    sign_message-Within idx signed (ecdsa_sighash message) p =
        elim (Option-cases (get_elem? p.inputs idx)) [
          | inl beyond ↦ rw beyond (Within-refl fp p)
          | inr (i, found) ↦ rw found (
              sign_keys-Within idx message i.bip32_derivation (mine keys signer i) signed p i found
                refl (mine-Own i))
        ]
    sign_message-Within idx signed (tap_sighash message) p = Within-refl fp p

    pub sign_input-Within :
        (tx : Transaction) (idx signed : ℕ) (p : Pset)
        → Within fp p (sign_input keys ops signer tx idx signed p).1
    unfolding sign_input
    sign_input-Within tx idx signed p =
        continue-Within fp (map_err elements (ops.sighash_msg p idx tx signer.genesis))
          (sign_message keys ops signer idx signed) p λ m e. sign_message-Within idx signed m p

    sign_from-Within :
        (tx : Transaction) (n idx signed : ℕ) (p : Pset)
        → Within fp p (sign_from keys ops signer tx n idx signed p).1
    unfolding sign_from
    sign_from-Within tx zero idx signed p = Within-refl fp p
    sign_from-Within tx (suc n) idx signed p =
        let q = (sign_input keys ops signer tx idx signed p).1 in
        Within-trans fp p q _ (sign_input-Within tx idx signed p) (
          continue-Within fp (sign_input keys ops signer tx idx signed p).0
            (λ signed' p'. sign_from keys ops signer tx n (suc idx) signed' p') q
            (λ signed' e. sign_from-Within tx n (suc idx) signed' q))

    -- Whatever the third-party calls return, and however the call ends, `sign_pset` changes
    -- nothing in the PSET but the signatures of its inputs; no key loses its signature, and a key
    -- for which the input names no path of the signer keeps its signature or has none, as before.
    pub sign_pset-Within : (p : Pset) → Within fp p (sign_pset keys ops signer p).1
    unfolding sign_pset
    sign_pset-Within p =
        continue-Within fp (map_err elements (ops.extract_tx p))
          (λ tx p'. sign_from keys ops signer tx (length p'.inputs) 0 0 p') p
          λ tx e. sign_from-Within tx (length p.inputs) 0 0 p
