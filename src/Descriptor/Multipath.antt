-- ===== src/Descriptor/Multipath.antt =====
-- `to_multipath_string` on the text that the builder writes.
use emvault_elements.Prelude.{
  ℕ, ◌≡◌, refl, subst, sym, ap, ◌∙◌, false, List, [], ◌∷◌, ◌++◌, All, map, append_assoc, arith,
  nat_eqb_iff, codes, decimal, Text,
}
use emvault_elements.Prelude.Tests.{nat_eq}
use emvault_elements.Prelude.Map.{values}
use emvault_elements.Descriptor.Hex.{encode}
use emvault_elements.Descriptor.{
  KeyEntry, CtKeyMode, CtDescriptorBuilder, join, format_origin, format_key, descriptor_text,
  before_checksum, starts_with, replace_from, to_multipath_string,
}
use emvault_elements.Descriptor.Plain.{
  Lacks, Special, star, hash, append-Lacks, decimal-Lacks, literal-Lacks, encode-Lacks,
  format_origin-Lacks, join-Lacks,
}

before_checksum_lem : (t rest : Text) → Lacks b'#' t → before_checksum (t ++ b'#' ∷ rest) ≡ t
unfolding before_checksum
before_checksum_lem [] rest h = refl
before_checksum_lem (x ∷ t) rest h = ground (arith, before_checksum_lem t rest)

-- No match of "/0/*" that starts before the text ends in it.
record Apart (s : Text) : Type 0 where
  three : starts_with (codes "0/*") s ≡ false
  two : starts_with (codes "/*") s ≡ false
  one : starts_with (codes "*") s ≡ false

no_match :
    (c : ℕ) (p s : Text)
    → Lacks b'*' (c ∷ p)
    → Apart s
    → starts_with (codes "/0/*") ((c ∷ p) ++ s) ≡ false
no_match c [] s h a = ground (arith, a.three)
no_match c (d ∷ []) s h a = ground (arith, a.two)
no_match c (d ∷ e ∷ []) s h a = ground (arith, a.one)
no_match c (d ∷ e ∷ f ∷ p) s h a = ground (arith, nat_eqb_iff f b'*', nat_eqb_iff b'*' f)

replace_from-append :
    (p s : Text) → Lacks b'*' p → Apart s → replace_from 0 (p ++ s) ≡ p ++ replace_from 0 s
unfolding replace_from
replace_from-append [] s h a = refl
replace_from-append (c ∷ p) s h a =
    rw (no_match c p s h a) (ap (◌∷◌ c) (replace_from-append p s (ground arith) a))

-- The part of a key before its wildcard
body : KeyEntry → Text
body e = codes "[" ++ (format_origin e.fingerprint e.derivation_path ++ (codes "]" ++ e.xpub))

-- A key with both chains, as BIP 389 writes it
pub multipath_key : KeyEntry → Text
multipath_key e = body e ++ codes "/<0;1>/*"

pub multipath_text : CtDescriptorBuilder → Text
multipath_text b =
    codes "ct(slip77("
    ++ (encode b.master_blinding_key
        ++ (codes "),elwsh(sortedmulti("
            ++ (decimal b.threshold
                ++ (codes ","
                    ++ (join (codes ",") (map multipath_key (values b.entries)) ++ codes ")))")))))

-- What a fingerprint and an extended key print has neither '*' nor '#'.
unfoldable pub IsPlain : KeyEntry → Type 0
IsPlain e = (c : ℕ) → Special c → Lacks c e.fingerprint × Lacks c e.xpub

body-Lacks : (c : ℕ) (e : KeyEntry) → Special c → IsPlain e → Lacks c (body e)
unfolding IsPlain body
body-Lacks c e sp h = append-Lacks c (codes "[") _ (literal-Lacks c (codes "[") sp refl refl) (
    append-Lacks c (format_origin e.fingerprint e.derivation_path) _
      (format_origin-Lacks c e.fingerprint e.derivation_path sp (h c sp).0)
      (append-Lacks c (codes "]") e.xpub (literal-Lacks c (codes "]") sp refl refl) (h c sp).1))

format_key_lem : (e : KeyEntry) → format_key CtKeyMode.ranged e ≡ body e ++ codes "/0/*"
unfolding format_key format_origin body
format_key_lem e = ap (◌∷◌ b'[') (
    sym (
      append_assoc (format_origin e.fingerprint e.derivation_path) (codes "]" ++ e.xpub)
        (codes "/0/*")))

replace_from-key :
    (e : KeyEntry) (t : Text)
    → IsPlain e
    → replace_from 0 (format_key CtKeyMode.ranged e ++ t) ≡ multipath_key e ++ replace_from 0 t
unfolding multipath_key replace_from
replace_from-key e t h =
    ap (λ k. replace_from 0 (k ++ t)) (format_key_lem e)
    ∙ ap (replace_from 0) (append_assoc (body e) (codes "/0/*") t)
    ∙ replace_from-append (body e) (codes "/0/*" ++ t) (body-Lacks b'*' e star h)
        (record { three = refl; two = refl; one = refl })
    ∙ sym (append_assoc (body e) (codes "/<0;1>/*") (replace_from 0 t))

replace_from-comma : (t : Text) → replace_from 0 (codes "," ++ t) ≡ b',' ∷ replace_from 0 t
unfolding replace_from
replace_from-comma t = refl

replace_from-keys :
    (es : List KeyEntry) (t : Text)
    → All IsPlain es
    → replace_from 0 (join (codes ",") (map (format_key CtKeyMode.ranged) es) ++ t)
      ≡ join (codes ",") (map multipath_key es) ++ replace_from 0 t
unfolding join
replace_from-keys [] t h = refl
replace_from-keys (e ∷ []) t h = replace_from-key e t h.0
replace_from-keys (e ∷ f ∷ es) t h =
    let keys = λ (g : KeyEntry → Text). join (codes ",") (map g (f ∷ es)) in
    ap (replace_from 0) (
      append_assoc (format_key CtKeyMode.ranged e) (codes "," ++ keys (format_key CtKeyMode.ranged))
        t)
    ∙ replace_from-key e (codes "," ++ (keys (format_key CtKeyMode.ranged) ++ t)) h.0
    ∙ ap (λ r. multipath_key e ++ r)
        (replace_from-comma (keys (format_key CtKeyMode.ranged) ++ t)
          ∙ ap (◌∷◌ b',') (replace_from-keys (f ∷ es) t h.1))
    ∙ sym (append_assoc (multipath_key e) (codes "," ++ keys multipath_key) (replace_from 0 t))

-- What stands before the keys
front : CtDescriptorBuilder → Text
front b =
    codes "ct(slip77("
    ++ (encode b.master_blinding_key
        ++ (codes "),elwsh(sortedmulti(" ++ (decimal b.threshold ++ codes ",")))

front-append :
    (b : CtDescriptorBuilder) (t : Text)
    → codes "ct(slip77("
        ++ (encode b.master_blinding_key
            ++ (codes "),elwsh(sortedmulti(" ++ (decimal b.threshold ++ (codes "," ++ t))))
      ≡ front b ++ t
unfolding front
front-append b t =
    let key = encode b.master_blinding_key in
    let middle = codes "),elwsh(sortedmulti(" in
    let threshold = decimal b.threshold in
    ap (λ r. codes "ct(slip77(" ++ r)
      (ap (λ r. key ++ (middle ++ r)) (sym (append_assoc threshold (codes ",") t))
        ∙ sym (append_assoc key (middle ++ (threshold ++ codes ",")) t))

front-Lacks : (c : ℕ) (b : CtDescriptorBuilder) → Special c → Lacks c (front b)
unfolding front
front-Lacks c b sp =
    let plain = λ (t : Text). literal-Lacks c t sp in
    append-Lacks c (codes "ct(slip77(") _ (plain (codes "ct(slip77(") refl refl) (
      append-Lacks c (encode b.master_blinding_key) _ (encode-Lacks c b.master_blinding_key sp) (
        append-Lacks c (codes "),elwsh(sortedmulti(") _
          (plain (codes "),elwsh(sortedmulti(") refl refl)
          (append-Lacks c (decimal b.threshold) (codes ",") (decimal-Lacks c b.threshold sp)
            (plain (codes ",") refl refl))))

-- The text of a builder in ranged mode, with what a key becomes given
ranged_text : (KeyEntry → Text) → CtDescriptorBuilder → Text
ranged_text key b = front b ++ (join (codes ",") (map key (values b.entries)) ++ codes ")))")

descriptor_text_lem :
    (b : CtDescriptorBuilder)
    → b.mode ≡ CtKeyMode.ranged
    → descriptor_text b ≡ ranged_text (format_key CtKeyMode.ranged) b
unfolding descriptor_text ranged_text front
descriptor_text_lem b e = rw e (
    front-append b
      (join (codes ",") (map (format_key CtKeyMode.ranged) (values b.entries)) ++ codes ")))"))

keys-Lacks :
    (es : List KeyEntry) → All IsPlain es → All (Lacks b'#') (map (format_key CtKeyMode.ranged) es)
keys-Lacks [] h = tt
keys-Lacks (e ∷ es) h = (
  subst (Lacks b'#') (sym (format_key_lem e))
      (append-Lacks b'#' (body e) (codes "/0/*") (body-Lacks b'#' e hash h.0) refl),
  keys-Lacks es h.1,
)

ranged_text-Lacks :
    (b : CtDescriptorBuilder)
    → All IsPlain (values b.entries)
    → Lacks b'#' (ranged_text (format_key CtKeyMode.ranged) b)
unfolding ranged_text
ranged_text-Lacks b h = append-Lacks b'#' (front b) _ (front-Lacks b'#' b hash) (
    append-Lacks b'#' (join (codes ",") (map (format_key CtKeyMode.ranged) (values b.entries)))
      (codes ")))") (join-Lacks b'#' (codes ",") _ refl (keys-Lacks (values b.entries) h)) refl)

keys-Apart :
    (es : List KeyEntry)
    → Apart (join (codes ",") (map (format_key CtKeyMode.ranged) es) ++ codes ")))")
unfolding join format_key
keys-Apart [] = record { three = refl; two = refl; one = refl }
keys-Apart (e ∷ []) = record { three = refl; two = refl; one = refl }
keys-Apart (e ∷ f ∷ es) = record { three = refl; two = refl; one = refl }

-- If the fingerprints and extended keys of a builder print without '*' and '#', then
-- `to_multipath_string` turns the text that the builder writes in ranged mode, with any checksum
-- behind it, into the same text with both chains in each key and without the checksum: no key is
-- missed, and nothing else is replaced.
pub to_multipath_string_lem :
    (b : CtDescriptorBuilder) (checksum : Text)
    → b.mode ≡ CtKeyMode.ranged
    → All IsPlain (values b.entries)
    → to_multipath_string (descriptor_text b ++ b'#' ∷ checksum) ≡ multipath_text b
unfolding to_multipath_string ranged_text replace_from multipath_text
to_multipath_string_lem b checksum e h =
    let es = values b.entries in
    ap (λ t. replace_from 0 (before_checksum (t ++ b'#' ∷ checksum))) (descriptor_text_lem b e)
    ∙ ap (replace_from 0) (
        before_checksum_lem (ranged_text (format_key CtKeyMode.ranged) b) checksum
          (ranged_text-Lacks b h))
    ∙ replace_from-append (front b) _ (front-Lacks b'*' b star) (keys-Apart es)
    ∙ ap (λ t. front b ++ t) (replace_from-keys es (codes ")))") h)
    ∙ sym (front-append b (join (codes ",") (map multipath_key es) ++ codes ")))"))
