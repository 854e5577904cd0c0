-- ===== src/Prelude/Chars.antt =====
-- Text as a list of code points, `u8` to hexadecimal, and the decimal form of a number.
use Prim.Native.Char.{code}
use Prim.Native.Nat.{ℕ, zero, suc, ◌+◌, ◌/◌, ◌%◌, ◌^◌, ◌<◌}
use mathlib.Core.Path.{◌≡◌, refl}
use mathlib.Core.Bool.{false}
use native.Mathlib.Omega.{arith}
use Prim.Native.String.{String}
use mathlib.Core.List.{List, [], ◌∷◌}
use emvault_elements.Prelude.Tests.{ltb, nat_eqb, nat_eqb_iff, if◌then◌else◌}
use emvault_elements.Prelude.Lists.{any}

abbrev pub Text : Type 0
Text = List ℕ

abbrev pub Bytes : Type 0
Bytes = List ℕ

-- The code points of a literal.
abbrev pub codes : String → Text
codes String.[] = []
codes (String.◌∷◌ c s) = code c ∷ codes s

emit : ℕ → ℕ → Text → Text
emit zero n out = out
emit (suc fuel) n out =
    let rest = emit fuel (n / 10) ((b'0' + n % 10) ∷ out) in
    if ltb n 10 then (b'0' + n) ∷ out else rest

-- `format!("{n}")`; a number has at most as many digits as its value plus one.
unfoldable pub decimal : ℕ → Text
unfolding emit
decimal n = emit (suc n) n []

-- Arithmetic of `u32` and `usize` in a release build.
abbrev pub wrap32 : ℕ → ℕ
wrap32 n = n % 2 ^ 32

abbrev pub wrap64 : ℕ → ℕ
wrap64 n = n % 2 ^ 64

any-emit :
    (c fuel n : ℕ) (out : Text)
    → c < b'0'
    → any (λ x. nat_eqb x c) out ≡ false
    → any (λ x. nat_eqb x c) (emit fuel n out) ≡ false
unfolding emit
any-emit c zero n out low h = h
any-emit c (suc fuel) n out low h = ground (
  arith,
  any-emit c fuel (n / 10) ((b'0' + n % 10) ∷ out) low
      (ground (arith, nat_eqb_iff (b'0' + n % 10) c)),
  nat_eqb_iff (b'0' + n) c,
)

-- The decimal form has no character below the digits.
pub any-decimal : (c n : ℕ) → c < b'0' → any (λ x. nat_eqb x c) (decimal n) ≡ false
unfolding decimal
any-decimal c n low = any-emit c (suc n) n [] low refl
