-- ===== src/Prelude/Text.antt =====
-- Texts of the program, std::string, as their bytes, and the conversions of the C library that it
-- calls: std::strtoull and std::stoul in base 16.
pub mod Hex
use Prim.Native.Char.{code}
use Prim.Native.String
use Prim.Native.String.{String}
use Prim.Native.Nat.{ℕ, zero, suc, ◌+◌, ◌-◌, ◌*◌, ◌%◌, ◌^◌, compare, Ordering}
use mathlib.Core.Bool.{Bool, true, false, ◌&&◌, ◌||◌}
use mathlib.Core.List.{List, [], ◌∷◌}
use mathlib.Core.Option.{Option, none, some}
use mathlib.Core.Option
use luminousminer.Prelude.Tests.{leb, ltb, ◌==◌, if◌then◌else◌}

abbrev pub Text : Type 0
Text = List ℕ

-- The bytes of a literal, which is ASCII throughout the program.
abbrev pub codes : String → Text
codes String.[] = []
codes (String.◌∷◌ c s) = code c ∷ codes s

abbrev pub text_eq : Text → Text → Bool
text_eq [] [] = true
text_eq [] (d ∷ ds) = false
text_eq (c ∷ cs) [] = false
text_eq (c ∷ cs) (d ∷ ds) = c == d && text_eq cs ds

abbrev pub is_empty : Text → Bool
is_empty [] = true
is_empty (c ∷ cs) = false

-- `s.c_str()` read as a C string ends at the first zero byte.
abbrev pub c_str : Text → Text
c_str [] = []
c_str (c ∷ cs) = let rest = c_str cs in if c == 0 then [] else c ∷ rest

-- The value of a digit in base 16.
unfoldable pub hex_digit : ℕ → Option ℕ
hex_digit c =
    if leb b'0' c && leb c b'9'
    then some (c - b'0')
    else if leb b'a' c && leb c b'f'
    then some (c - b'a' + 10)
    else if leb b'A' c && leb c b'F'
    then some (c - b'A' + 10)
    else none

-- The digits up to the first byte that is none.
unfoldable pub read_hex : ℕ → Text → ℕ
read_hex acc [] = acc
read_hex acc (c ∷ cs) = elim (hex_digit c) [ none ↦ acc | some d ↦ read_hex (acc * 16 + d) cs ]

unfoldable pub starts_hex : Text → Bool
starts_hex [] = false
starts_hex (c ∷ cs) = elim (hex_digit c) [ none ↦ false | some d ↦ true ]

unfoldable pub skip_spaces : Text → Text
skip_spaces [] = []
skip_spaces (c ∷ cs) =
    let rest = skip_spaces cs in if c == 32 || (leb 9 c && leb c 13) then rest else c ∷ cs

-- An optional `0x` counts only before a digit.
unfoldable pub strip_0x : Text → Text
strip_0x [] = []
strip_0x (c ∷ []) = c ∷ []
strip_0x (c ∷ x ∷ rest) =
    if c == b'0' && (x == b'x' || x == b'X') && starts_hex rest then rest else c ∷ x ∷ rest

unfoldable pub read_unsigned : Text → Option ℕ
read_unsigned s = let body = strip_0x s in if starts_hex body then some (read_hex 0 body) else none

-- A value out of range becomes ULLONG_MAX; a minus negates a value in range modulo 2 ^ 64.
unfoldable pub saturate : ℕ → ℕ
saturate v = if ltb v (2 ^ 64) then v else 2 ^ 64 - 1

unfoldable pub negate : ℕ → ℕ
negate v = if ltb v (2 ^ 64) then (2 ^ 64 - v) % 2 ^ 64 else 2 ^ 64 - 1

unfoldable pub read_signed : Text → Option ℕ
read_signed [] = none
read_signed (c ∷ cs) =
    if c == b'+'
    then Option.map saturate (read_unsigned cs)
    else if c == b'-'
    then Option.map negate (read_unsigned cs)
    else Option.map saturate (read_unsigned (c ∷ cs))

-- `none` where no digit can be read: std::stoul throws there.
unfoldable pub stoul : Text → Option ℕ
unfolding read_signed read_unsigned strip_0x starts_hex read_hex hex_digit skip_spaces saturate
    negate
stoul s = read_signed (skip_spaces s)

-- `std::strtoull(s, nullptr, 16)` is 0 where no digit can be read.
unfoldable pub strtoull : Text → ℕ
unfolding stoul
strtoull s = Option.get_or (stoul s) 0

-- The decimal digits up to the first byte that is none.
unfoldable pub read_decimal : ℕ → Text → ℕ
read_decimal acc [] = acc
read_decimal acc (c ∷ cs) =
    let rest = read_decimal (acc * 10 + (c - b'0')) cs in
    if leb b'0' c && leb c b'9' then rest else acc

unfoldable pub starts_decimal : Text → Bool
starts_decimal [] = false
starts_decimal (c ∷ cs) = leb b'0' c && leb c b'9'

-- std::stoull throws where no digit can be read and where the value does not fit; a minus negates
-- modulo 2 ^ 64.
unfoldable pub unsigned_decimal : Bool → Text → Option ℕ
unsigned_decimal minus s =
    let v = read_decimal 0 s in
    if starts_decimal s && ltb v (2 ^ 64)
    then some (if minus then (2 ^ 64 - v) % 2 ^ 64 else v)
    else none

unfoldable pub signed_decimal : Text → Option ℕ
signed_decimal [] = none
signed_decimal (c ∷ cs) =
    if c == b'+'
    then unsigned_decimal false cs
    else if c == b'-'
    then unsigned_decimal true cs
    else unsigned_decimal false (c ∷ cs)

-- `std::stoull(s)`.
unfoldable pub stoull : Text → Option ℕ
unfolding skip_spaces read_decimal starts_decimal unsigned_decimal signed_decimal
stoull s = signed_decimal (skip_spaces s)
