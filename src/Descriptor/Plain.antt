-- ===== src/Descriptor/Plain.antt =====
-- The characters that the parts of a descriptor text do not have.
use emvault_elements.Prelude.{
  ℕ, zero, suc, ◌/◌, ◌%◌, ◌≡◌, refl, false, none, some, List, [], ◌∷◌, ◌++◌, All, any, map, arith,
  get_elem?, ◌==◌, codes, decimal, any-decimal, Text, Bytes,
}
use emvault_elements.Prelude.Tests.{nat_eq}
use emvault_elements.Descriptor.Hex.{encode, hex_encode_byte, digits}
use emvault_elements.Descriptor.{ChildNumber, normal, hardened, join, segment, format_origin}

-- The character does not occur in the text.
abbrev pub Lacks : ℕ → Text → Type 0
Lacks c t = any (λ x. x == c) t ≡ false

-- The characters that `to_multipath_string` looks for at the end of a match and of the body
pub data Special : ℕ → Type 0 where
  star : Special b'*'
  hash : Special b'#'

pub append-Lacks : (c : ℕ) (s t : Text) → Lacks c s → Lacks c t → Lacks c (s ++ t)
append-Lacks c [] t h k = k
append-Lacks c (x ∷ s) t h k = ground (arith, append-Lacks c s t, h, k)

pub decimal-Lacks : (c n : ℕ) → Special c → Lacks c (decimal n)
decimal-Lacks _ n star = any-decimal b'*' n (omega arith)
decimal-Lacks _ n hash = any-decimal b'#' n (omega arith)

pub literal-Lacks : (c : ℕ) (t : Text) → Special c → Lacks b'*' t → Lacks b'#' t → Lacks c t
literal-Lacks _ t star h k = h
literal-Lacks _ t hash h k = k

digit-Lacks :
    (c : ℕ) (ds : Text) (i : ℕ)
    → Special c
    → Lacks c ds
    → (elim (get_elem? ds i) [ none ↦ 0 | some d ↦ d ] == c) ≡ false
digit-Lacks _ [] i star h = refl
digit-Lacks _ [] i hash h = refl
digit-Lacks c (d ∷ ds) zero sp h = ground arith
digit-Lacks c (d ∷ ds) (suc i) sp h = digit-Lacks c ds i sp (ground arith)

pub encode-Lacks : (c : ℕ) (bs : Bytes) → Special c → Lacks c (encode bs)
unfolding encode hex_encode_byte
encode-Lacks c [] sp = refl
encode-Lacks c (b ∷ bs) sp =
    let plain = literal-Lacks c digits sp refl refl in
    let high = digit-Lacks c digits (b / 16) sp plain in
    let low = digit-Lacks c digits (b % 16) sp plain in rw (high, low) (encode-Lacks c bs sp)

segment-Lacks : (c : ℕ) (n : ChildNumber) → Special c → Lacks c (segment n)
unfolding segment
segment-Lacks c (normal i) sp = decimal-Lacks c i sp
segment-Lacks c (hardened i) sp =
    append-Lacks c (decimal i) (codes "h") (decimal-Lacks c i sp)
      (literal-Lacks c (codes "h") sp refl refl)

pub join-Lacks :
    (c : ℕ) (sep : Text) (ts : List Text) → Lacks c sep → All (Lacks c) ts → Lacks c (join sep ts)
unfolding join
join-Lacks c sep [] h hs = refl
join-Lacks c sep (t ∷ []) h hs = hs.0
join-Lacks c sep (t ∷ u ∷ ts) h hs =
    append-Lacks c t _ hs.0 (append-Lacks c sep _ h (join-Lacks c sep (u ∷ ts) h hs.1))

segments_all : (c : ℕ) (path : List ChildNumber) → Special c → All (Lacks c) (map segment path)
segments_all c [] sp = tt
segments_all c (n ∷ path) sp = (segment-Lacks c n sp, segments_all c path sp)

pub format_origin-Lacks :
    (c : ℕ) (fp : Text) (path : List ChildNumber)
    → Special c
    → Lacks c fp
    → Lacks c (format_origin fp path)
unfolding format_origin
format_origin-Lacks c fp [] sp h = h
format_origin-Lacks c fp (n ∷ path) sp h = append-Lacks c fp _ h (
    append-Lacks c (codes "/") _ (literal-Lacks c (codes "/") sp refl refl) (
      join-Lacks c (codes "/") (map segment (n ∷ path)) (literal-Lacks c (codes "/") sp refl refl)
        (segments_all c (n ∷ path) sp)))
