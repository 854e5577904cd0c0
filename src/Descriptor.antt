-- ===== src/Descriptor.antt =====
-- descriptor.rs: the text of a confidential descriptor.
pub mod Hex
pub mod Order
pub mod Plain
pub mod Multipath
use Prim.Native.Nat.{compare, Ordering}
use emvault_elements.Prelude.{
  ℕ, zero, suc, Bool, true, false, Option, none, some, List, [], ◌∷◌, ◌++◌, map, length, is_empty,
  ltb, if◌then◌else◌, ◌==◌, codes, decimal, Text, Bytes,
}
use emvault_elements.Prelude.Tests.{nat_eq}
use emvault_elements.Prelude.Result.{Result, ok, err, map_err}
use emvault_elements.Prelude.Exec.{Exec}
use emvault_elements.Prelude.Map.{Map, values}
use emvault_elements.Error.{CtDescriptorError, bad_blinding_key_length, duplicate_key, no_signers}
use Hex.{encode}

pub data CtKeyMode : Type 0 where
  fixed ranged : CtKeyMode

-- bitcoin::bip32::ChildNumber
pub data ChildNumber : Type 0 where
  normal : ℕ → ChildNumber
  hardened : ℕ → ChildNumber

-- Fingerprints and keys are what they print as.
pub record KeyEntry : Type 0 where
  pub fingerprint : Text
  pub derivation_path : List ChildNumber
  pub public_key : Text
  pub xpub : Text

-- emvault_core::signer::Signer, by the methods that are called
pub record Signer : Type 0 where
  pub id : ℕ
  pub id_text : Text
  pub entry : KeyEntry

pub record CtDescriptorBuilder : Type 0 where
  pub threshold : ℕ
  pub mode : CtKeyMode
  pub master_blinding_key : Bytes
  pub entries : Map ℕ KeyEntry

unfoldable pub new : ℕ → Bytes → Result CtDescriptorError CtDescriptorBuilder
new threshold mbk =
    if length mbk == 32
    then ok (record {
      threshold = threshold;
      mode = CtKeyMode.fixed;
      master_blinding_key = mbk;
      entries = [];
    })
    else err (bad_blinding_key_length (length mbk))

unfoldable pub key_mode : CtKeyMode → CtDescriptorBuilder → CtDescriptorBuilder
key_mode mode b = record b { mode = mode }

-- `BTreeMap::insert`, in the order of the keys: the new map, and whether the key was there.
unfoldable pub btree_insert : ℕ → KeyEntry → Map ℕ KeyEntry → Map ℕ KeyEntry × Bool
btree_insert k v [] = ((k, v) ∷ [], false)
btree_insert k v ((j, w) ∷ m) =
    let (m', found) = btree_insert k v m in
    elim (compare k j) [
      | Ordering.lt ↦ ((k, v) ∷ (j, w) ∷ m, false)
      | Ordering.eq ↦ ((k, v) ∷ m, true)
      | Ordering.gt ↦ ((j, w) ∷ m', found)
    ]

-- The entry is replaced before a duplicate is reported.
unfoldable pub add_signer : Signer → Exec CtDescriptorBuilder CtDescriptorError (Unit {0})
unfolding btree_insert
add_signer signer b =
    let (entries, found) = btree_insert signer.id signer.entry b.entries in
    (if found then err (duplicate_key signer.id_text) else ok tt, record b { entries = entries })

unfoldable pub join : Text → List Text → Text
join sep [] = []
join sep (t ∷ []) = t
join sep (t ∷ u ∷ ts) = t ++ (sep ++ join sep (u ∷ ts))

unfoldable pub segment : ChildNumber → Text
segment (normal i) = decimal i
segment (hardened i) = decimal i ++ codes "h"

unfoldable pub format_origin : Text → List ChildNumber → Text
unfolding join segment
format_origin fp path =
    if is_empty path then fp else fp ++ (codes "/" ++ join (codes "/") (map segment path))

unfoldable pub format_key : CtKeyMode → KeyEntry → Text
unfolding format_origin
format_key CtKeyMode.fixed e =
    codes "[" ++ (format_origin e.fingerprint e.derivation_path ++ (codes "]" ++ e.public_key))
format_key CtKeyMode.ranged e =
    codes "["
    ++ (format_origin e.fingerprint e.derivation_path ++ (codes "]" ++ (e.xpub ++ codes "/0/*")))

unfoldable pub descriptor_text : CtDescriptorBuilder → Text
unfolding format_key join encode
descriptor_text b =
    codes "ct(slip77("
    ++ (encode b.master_blinding_key
        ++ (codes "),elwsh(sortedmulti("
            ++ (decimal b.threshold
                ++ (codes ","
                    ++ (join (codes ",") (map (format_key b.mode) (values b.entries))
                        ++ codes ")))")))))

-- `parse` is `ConfidentialDescriptor::from_str`.
unfoldable pub build :
    {D : Type 0} → (Text → Result Text D) → CtDescriptorBuilder → Result CtDescriptorError D
unfolding descriptor_text
build parse b =
    if is_empty b.entries
    then err no_signers
    else map_err CtDescriptorError.descriptor (parse (descriptor_text b))

-- `s.split_once('#')`, the part before it; all of `s` if there is none
unfoldable pub before_checksum : Text → Text
before_checksum [] = []
before_checksum (c ∷ s) = let rest = before_checksum s in if c == b'#' then [] else c ∷ rest

abbrev pub starts_with : Text → Text → Bool
starts_with [] t = true
starts_with (p ∷ ps) [] = false
starts_with (p ∷ ps) (x ∷ t) = if p == x then starts_with ps t else false

-- `body.replace("/0/*", "/<0;1>/*")`; the scan goes on behind a match, `skip` characters of which are left.
unfoldable pub replace_from : ℕ → Text → Text
replace_from skip [] = []
replace_from (suc skip) (c ∷ s) = replace_from skip s
replace_from zero (c ∷ s) =
    let hit = replace_from 3 s in
    let miss = replace_from zero s in
    if starts_with (codes "/0/*") (c ∷ s) then codes "/<0;1>/*" ++ hit else c ∷ miss

-- The argument is the text of the descriptor.
unfoldable pub to_multipath_string : Text → Text
unfolding before_checksum replace_from
to_multipath_string s = replace_from zero (before_checksum s)
