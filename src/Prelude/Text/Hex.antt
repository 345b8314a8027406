-- ===== src/Prelude/Text/Hex.antt =====
-- What the conversions in base 16 give on a text of digits.
use Prim.Native.Nat.{ℕ, zero, suc, ◌+◌, ◌*◌, ◌^◌, ◌≤◌, ◌<◌}
use mathlib.Core.Path.{◌≡◌, refl, ap, ◌∙◌}
use mathlib.Core.Bool.{true}
use mathlib.Core.List.{[], ◌∷◌, ◌++◌}
use mathlib.Core.Option.{Option, none, some}
use native.Mathlib.Nat.{pow-suc, pow-le-pow_right, mul-le-mul_right, lt_of_lt_of_le}
use mathlib.Core.Option
use native.Mathlib.Omega.{arith}
use luminousminer.Prelude.Lists.{length, replicate}
use luminousminer.Prelude.Text.{
  Text, hex_digit, read_hex, starts_hex, skip_spaces, strip_0x, read_unsigned, read_signed,
  saturate, strtoull,
}

-- Every byte is a digit.
abbrev pub IsHex : Text → Type 0
IsHex [] = Unit {0}
IsHex (c ∷ cs) = ((d : ℕ) × (hex_digit c ≡ some d)) × IsHex cs

hex_digit-lt : (c d : ℕ) → hex_digit c ≡ some d → d < 16
unfolding hex_digit
hex_digit-lt c d h = ground arith

pub read_hex-append :
    (acc : ℕ) (s t : Text) → IsHex s → read_hex acc (s ++ t) ≡ read_hex (read_hex acc s) t
unfolding read_hex
read_hex-append acc [] t h = refl
read_hex-append acc (c ∷ s) t ((d, e), h) = rw (e, read_hex) (read_hex-append (acc * 16 + d) s t h)

pub read_hex-lt : (acc : ℕ) (s : Text) → IsHex s → read_hex acc s < (acc + 1) * 16 ^ length s
unfolding read_hex
read_hex-lt acc [] h = omega arith
read_hex-lt acc (c ∷ s) ((d, e), h) =
    rw (e, read_hex)
      (lt_of_lt_of_le (read_hex-lt (acc * 16 + d) s h) (
        omega (
          arith,
          ap (λ (t : ℕ). (acc + 1) * t) (pow-suc 16 (length s)),
          mul-le-mul_right {m = acc * 16 + d + 1} {n = (acc + 1) * 16} (16 ^ length s)
              (omega (arith, hex_digit-lt c d e)),
        )))

pub read_hex-zeros : (acc k : ℕ) → read_hex acc (replicate k b'0') ≡ acc * 16 ^ k
unfolding read_hex hex_digit
read_hex-zeros acc zero = omega arith
read_hex-zeros acc (suc k) =
    omega (arith, read_hex-zeros (acc * 16 + 0) k, ap (λ (t : ℕ). acc * t) (pow-suc 16 k))

pub read_hex-fs : (acc k : ℕ) → read_hex acc (replicate k b'f') + 1 ≡ (acc + 1) * 16 ^ k
unfolding read_hex hex_digit
read_hex-fs acc zero = omega arith
read_hex-fs acc (suc k) =
    omega (arith, read_hex-fs (acc * 16 + 15) k, ap (λ (t : ℕ). (acc + 1) * t) (pow-suc 16 k))

no_space : (c d : ℕ) (s : Text) → hex_digit c ≡ some d → skip_spaces (c ∷ s) ≡ c ∷ s
unfolding skip_spaces hex_digit
no_space c d s e = ground arith

no_prefix : (s : Text) → IsHex s → strip_0x s ≡ s
unfolding strip_0x hex_digit
no_prefix [] h = refl
no_prefix (c ∷ []) h = refl
no_prefix (c ∷ x ∷ s) (hc, ((d, e), h)) = ground arith

no_sign :
    (c d : ℕ) (s : Text)
    → hex_digit c ≡ some d
    → read_signed (c ∷ s) ≡ Option.map saturate (read_unsigned (c ∷ s))
unfolding read_signed hex_digit
no_sign c d s e = ground arith

pow-le-16 : (n : ℕ) → n ≤ 16 → 16 ^ n ≤ 2 ^ 64
pow-le-16 n h = pow-le-pow_right {n = 16} (omega arith) {i = n} {j = 16} h

strtoull_steps : (s : Text) → strtoull s ≡ Option.get_or (read_signed (skip_spaces s)) 0
unfolding strtoull
strtoull_steps s = refl

starts_hex-digit : (c d : ℕ) (s : Text) → hex_digit c ≡ some d → starts_hex (c ∷ s) ≡ true
unfolding starts_hex
starts_hex-digit c d s e = rw (e, starts_hex)

read_unsigned-hex :
    (c : ℕ) (s : Text) → IsHex (c ∷ s) → read_unsigned (c ∷ s) ≡ some (read_hex 0 (c ∷ s))
unfolding read_unsigned
read_unsigned-hex c s ((d, e), h) = rw (no_prefix (c ∷ s) ((d, e), h), starts_hex-digit c d s e)

saturate_small : (v : ℕ) → v < 2 ^ 64 → saturate v ≡ v
unfolding saturate
saturate_small v h = ground arith

-- A text of 1 to 16 digits is read as its value.
pub strtoull-hex :
    (c : ℕ) (s : Text) → IsHex (c ∷ s) → length (c ∷ s) ≤ 16 → strtoull (c ∷ s) ≡ read_hex 0 (c ∷ s)
strtoull-hex c s ((d, e), h) fits =
    let small = read_hex-lt 0 (c ∷ s) ((d, e), h) in
    let bound = pow-le-16 (length (c ∷ s)) fits in
    strtoull_steps (c ∷ s)
    ∙ rw (no_space c d s e, no_sign c d s e, read_unsigned-hex c s ((d, e), h))
        (saturate_small (read_hex 0 (c ∷ s)) (omega arith))
