-- ===== src/Testkit/Signing.antt =====
-- What the software signer writes where every third-party call succeeds.
use emvault_elements.Prelude.{
  ℕ, suc, ◌+◌, ◌<◌, ◌≡◌, refl, subst, sym, ap, ◌∙◌, some, List, [], ◌∷◌, ◌++◌, arith, get_elem?,
  Text, Bytes, length, wrap64, length-append, get_elem?-append_here, set-append_here, append_assoc,
}
use emvault_elements.Prelude.Tests.{nat_eq}
use emvault_elements.Prelude.Result.{Result, ok}
use emvault_elements.Prelude.Exec.{continue}
use emvault_elements.Prelude.Map
use emvault_elements.Prelude.Map.{Map}
use emvault_elements.Elements.{Pset, PsetOutput, PsetInput, Transaction}
use emvault_elements.Error.{PsetError}
use emvault_elements.Testkit.{
  Keys, PsetOps, SoftwareSigner, ecdsa_sighash, mine, sign_keys, sign_message, sign_input,
  sign_from, sign_pset, insert_sig, serialized,
}
use emvault_elements.Testkit.Written.{
  written, signed_input, signed_inputs, own_total, Complete, written_all, get_elem?-signed_inputs,
}
use emvault_elements.Testkit.Touched.{Within, sign_input-Within, Within-refl, Within-trans}

-- The PSET with an input between others
abbrev around : List PsetInput → PsetInput → List PsetInput → List PsetOutput → Pset
around before i after outs = record { inputs = before ++ i ∷ after; outputs = outs }

insert_sig-here :
    (pk : ℕ) (s : Bytes) (before : List PsetInput) (i : PsetInput) (after : List PsetInput)
    (outs : List PsetOutput)
    → insert_sig (length before) pk s (around before i after outs)
      ≡ around before (record i { partial_sigs = Map.insert pk s i.partial_sigs }) after outs
insert_sig-here pk s before i after outs =
    rw (insert_sig, get_elem?-append_here before after i)
      (ap (λ is. record { inputs = is; outputs = outs }) (set-append_here before after i _))

wrap_step : (signed n : ℕ) → wrap64 (wrap64 (signed + 1) + n) ≡ wrap64 (signed + suc n)
wrap_step signed n = omega arith

wrap_sum : (a b c : ℕ) → wrap64 (wrap64 (a + b) + c) ≡ wrap64 (a + (b + c))
wrap_sum a b c = omega arith

wrap_again : (n : ℕ) → wrap64 (wrap64 n) ≡ wrap64 n
wrap_again n = omega arith

-- A count and a PSET with given outputs
counted_with :
    (outs : List PsetOutput) {a b : ℕ} {is js : List PsetInput}
    → a ≡ b
    → is ≡ js
    → ◌≡◌ {A = Result PsetError ℕ × Pset}
        (ok a, record { inputs = is; outputs = outs })
        (ok b, record { inputs = js; outputs = outs })
counted_with outs {b = b} {is = is} e h =
    ap (λ n. (ok n, record { inputs = is; outputs = outs })) e
    ∙ ap (λ (js : List PsetInput). (ok b, record { inputs = js; outputs = outs })) h

module _ {K : Type 0} (keys : Keys K) (signer : SoftwareSigner K) (child : Text → K) where
  module _ (derives : (path : Text) → keys.derive_priv signer.master path ≡ ok (child path)) where
    sign_keys_lem :
        (message : ℕ) (ks : List (ℕ × Text)) (signed : ℕ) (before : List PsetInput) (i : PsetInput)
        (after : List PsetInput) (outs : List PsetOutput)
        → wrap64 signed ≡ signed
        → sign_keys keys signer (length before) message ks signed (around before i after outs) ≡ (
          ok (wrap64 (signed + length ks)),
          around before
              (record i { partial_sigs = written keys signer child message ks i.partial_sigs })
              after
              outs,
        )
    unfolding sign_keys written
    sign_keys_lem message [] signed before i after outs w =
        ap (λ n. (ok n, around before i after outs)) (omega arith)
    sign_keys_lem message ((pk, path) ∷ ks) signed before i after outs w =
        let s = serialized keys message (child path) in
        let i' : PsetInput = record i { partial_sigs = Map.insert pk s i.partial_sigs } in
        rw (derives path) (
          ap (sign_keys keys signer (length before) message ks (wrap64 (signed + 1)))
            (insert_sig-here pk s before i after outs)
          ∙ sign_keys_lem message ks (wrap64 (signed + 1)) before i' after outs
              (wrap_again (signed + 1))
          ∙ ap
              (λ n. (
                ok n,
                around before
                    (record i {
                      partial_sigs = written keys signer child message ks i'.partial_sigs;
                    })
                    after outs,
              ))
              (wrap_step signed (length ks)))

    module _ (ops : PsetOps) (tx : Transaction) (message : ℕ → ℕ) (p : Pset) where
      -- The message of an input does not depend on the signatures that were written so far.
      unfoldable pub Hashes : Type 0
      Hashes =
          (q : Pset) (idx : ℕ)
          → Within signer.fingerprint p q
          → idx < length q.inputs
          → ops.sighash_msg q idx tx signer.genesis ≡ ok (ecdsa_sighash (message idx))

      module _ (hashes : Hashes) where
        sign_input_lem :
            (signed : ℕ) (before : List PsetInput) (i : PsetInput) (after : List PsetInput)
            (outs : List PsetOutput)
            → Within signer.fingerprint p (around before i after outs)
            → wrap64 signed ≡ signed
            → sign_input keys ops signer tx (length before) signed (around before i after outs) ≡ (
              ok (wrap64 (signed + length (mine keys signer i))),
              around before (signed_input keys signer child (message (length before)) i) after outs,
            )
        unfolding sign_input sign_message signed_input Hashes
        sign_input_lem signed before i after outs w small =
            rw
              (
                hashes (around before i after outs) (length before) w
                    (omega (arith, length-append before (i ∷ after))),
                get_elem?-append_here before after i,
              )
              (sign_keys_lem (message (length before)) (mine keys signer i) signed before i after
                outs small)

        round_lem :
            (before : List PsetInput) (i : PsetInput) (todo is : List PsetInput)
            (outs : List PsetOutput) (idx signed : ℕ)
            → is ≡ before ++ i ∷ todo
            → idx ≡ length before
            → Within signer.fingerprint p (record { inputs = is; outputs = outs })
            → wrap64 signed ≡ signed
            → sign_input keys ops signer tx idx signed (record { inputs = is; outputs = outs }) ≡ (
              ok (wrap64 (signed + length (mine keys signer i))),
              around before (signed_input keys signer child (message idx) i) todo outs,
            )
        round_lem before i todo is outs idx signed e k w small =
            rw (e, k)
              (sign_input_lem signed before i todo outs
                (subst
                  (λ (x : List PsetInput).
                    Within signer.fingerprint p (record { inputs = x; outputs = outs }))
                  e w)
                small)

        sign_from_lem :
            (todo before is : List PsetInput) (outs : List PsetOutput) (idx signed : ℕ)
            → is ≡ before ++ todo
            → idx ≡ length before
            → Within signer.fingerprint p (record { inputs = is; outputs = outs })
            → wrap64 signed ≡ signed
            → sign_from keys ops signer tx
                (length todo)
                idx
                signed
                (record { inputs = is; outputs = outs })
              ≡ (
                ok (wrap64 (signed + own_total keys signer child todo)),
                record {
                  inputs = before ++ signed_inputs keys signer child message idx todo;
                  outputs = outs;
                },
              )
        unfolding sign_from signed_inputs own_total
        sign_from_lem [] before is outs idx signed e k w small =
            counted_with outs (omega (arith, small)) e
        sign_from_lem (i ∷ todo) before is outs idx signed e k w small =
            let now : Pset = record { inputs = is; outputs = outs } in
            let next = signed_input keys signer child (message idx) i in
            let counted = wrap64 (signed + length (mine keys signer i)) in
            let round : sign_input keys ops signer tx idx signed now
                ≡ (ok counted, around before next todo outs) =
              round_lem before i todo is outs idx signed e k w small in
            ap
              (λ (r : Result PsetError ℕ × Pset).
                continue r.0 (λ n. sign_from keys ops signer tx (length todo) (suc idx) n) r.1)
              round
            ∙ sign_from_lem todo (before ++ next ∷ []) (before ++ next ∷ todo) outs (suc idx)
                counted (sym (append_assoc before (next ∷ []) todo))
                (omega (arith, k, length-append before (next ∷ [])))
                (subst (λ (r : Result PsetError ℕ × Pset). Within signer.fingerprint p r.1) round
                  (Within-trans signer.fingerprint p now _ w
                    (sign_input-Within keys signer ops tx idx signed now)))
                (wrap_again (signed + length (mine keys signer i)))
            ∙ counted_with outs
                (wrap_sum signed (length (mine keys signer i)) (own_total keys signer child todo))
                (append_assoc before (next ∷ [])
                  (signed_inputs keys signer child message (suc idx) todo))

        -- The end of a run: the PSET, and at each place the signatures of that input.
        pub record Signs (after : Pset) : Type 0 where
          pub runs :
              sign_pset keys ops signer p
              ≡ (ok (wrap64 (own_total keys signer child p.inputs)), after)
          pub each :
              (idx : ℕ) (i : PsetInput)
              → get_elem? p.inputs idx ≡ some i
              → (j : PsetInput) × (get_elem? after.inputs idx ≡ some j)
                × Complete keys signer child (message idx) i j

        -- If a child key derives at every path, the transaction extracts, and each input has an
        -- ECDSA message, which does not depend on the signatures that the signer writes, then
        -- `sign_pset` succeeds. It returns the number of key paths of the signer in the inputs
        -- (modulo 2^64, not the number of inputs), and afterwards each key of such a path has, in
        -- its input, a signature of that input's message by the child key at one of its paths.
        pub sign_pset-Signs : ops.extract_tx p ≡ ok tx → (after : Pset) × Signs after
        unfolding sign_pset signed_input
        sign_pset-Signs extracts = (
          record p { inputs = signed_inputs keys signer child message 0 p.inputs },
          record {
            runs = rw extracts (
                sign_from_lem p.inputs [] p.inputs p.outputs 0 0 refl refl
                  (Within-refl signer.fingerprint p) refl
                ∙ counted_with p.outputs (ap wrap64 (omega arith)) refl);
            each = λ idx i found. (
              signed_input keys signer child (message idx) i,
              get_elem?-signed_inputs keys signer child message p.inputs 0 idx i found
                  ∙ ap (λ n. some (signed_input keys signer child (message n) i)) (omega arith),
              record {
                signatures =
                    written_all keys signer child (message idx) (mine keys signer i)
                      (mine keys signer i) i.partial_sigs (λ k m. m);
              },
            );
          },
        )
