-- ===== src/Algo/HashUtils/BigEndian.antt =====
-- `toUINT64` of hash_utils.cpp reads the first 8 bytes of a hash, most significant first.
use luminousminer.Prelude.{
  ℕ, ◌+◌, ◌*◌, ◌/◌, ◌%◌, ◌<◌, ◌≡◌, refl, ap, ◌∙◌, List, [], ◌∷◌, some, arith,
}
use luminousminer.Prelude.Text.{Text, read_hex, hex_digit}
use luminousminer.Prelude.Text.Hex.{IsHex, strtoull-hex}
use luminousminer.Algo.HashUtils.{digit_char, to_hex, to_uint64}

abbrev pub AreBytes : List ℕ → Type 0
AreBytes [] = Unit {0}
AreBytes (b ∷ bs) = (b < 256) × AreBytes bs

-- The number whose digits in base 256 are the bytes.
abbrev pub big_endian : ℕ → List ℕ → ℕ
big_endian acc [] = acc
big_endian acc (b ∷ bs) = big_endian (acc * 256 + b) bs

hex_digit-digit_char : (d : ℕ) → d < 16 → hex_digit (digit_char d) ≡ some d
unfolding hex_digit digit_char
hex_digit-digit_char d h = ground arith

to_hex-IsHex : (bs : List ℕ) → AreBytes bs → IsHex (to_hex bs)
unfolding to_hex
to_hex-IsHex [] h = tt
to_hex-IsHex (b ∷ bs) h = (
  (b / 16, hex_digit-digit_char (b / 16) (omega (arith, h.0))),
  ((b % 16, hex_digit-digit_char (b % 16) (omega arith)), to_hex-IsHex bs h.1),
)

read_hex-digit :
    (acc d : ℕ) (s : Text) → d < 16 → read_hex acc (digit_char d ∷ s) ≡ read_hex (acc * 16 + d) s
unfolding read_hex
read_hex-digit acc d s h = rw (hex_digit-digit_char d h, read_hex)

read_hex-to_hex :
    (acc : ℕ) (bs : List ℕ) → AreBytes bs → read_hex acc (to_hex bs) ≡ big_endian acc bs
unfolding to_hex
read_hex-to_hex acc [] h = unfold read_hex in refl
read_hex-to_hex acc (b ∷ bs) h =
    let value : (acc * 16 + b / 16) * 16 + b % 16 ≡ acc * 256 + b = omega arith in
    read_hex-digit acc (b / 16) (digit_char (b % 16) ∷ to_hex bs) (omega (arith, h.0))
    ∙ read_hex-digit (acc * 16 + b / 16) (b % 16) (to_hex bs) (omega arith)
    ∙ ap (λ (t : ℕ). read_hex t (to_hex bs)) value
    ∙ read_hex-to_hex (acc * 256 + b) bs h.1

-- The 64-bit value of a hash that starts with 8 bytes is the number that these spell, in big-endian
-- order.
pub to_uint64-big_endian :
    (b0 b1 b2 b3 b4 b5 b6 b7 : ℕ) (rest : List ℕ)
    → AreBytes (b0 ∷ b1 ∷ b2 ∷ b3 ∷ b4 ∷ b5 ∷ b6 ∷ b7 ∷ [])
    → to_uint64 (b0 ∷ b1 ∷ b2 ∷ b3 ∷ b4 ∷ b5 ∷ b6 ∷ b7 ∷ rest)
      ≡ big_endian 0 (b0 ∷ b1 ∷ b2 ∷ b3 ∷ b4 ∷ b5 ∷ b6 ∷ b7 ∷ [])
unfolding to_uint64 to_hex
to_uint64-big_endian b0 b1 b2 b3 b4 b5 b6 b7 rest h =
    let bytes : List ℕ = b0 ∷ b1 ∷ b2 ∷ b3 ∷ b4 ∷ b5 ∷ b6 ∷ b7 ∷ [] in
    strtoull-hex (digit_char (b0 / 16))
      (digit_char (b0 % 16) ∷ to_hex (b1 ∷ b2 ∷ b3 ∷ b4 ∷ b5 ∷ b6 ∷ b7 ∷ [])) (to_hex-IsHex bytes h)
      (omega arith)
    ∙ read_hex-to_hex 0 bytes h
