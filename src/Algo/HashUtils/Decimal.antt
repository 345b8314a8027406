-- ===== src/Algo/HashUtils/Decimal.antt =====
-- `decimalToHash` and `toLittleEndian` of sources/algo/hash_utils.hpp, at `hash512`.
use mathlib.Core.List.{reverse}
use luminousminer.Prelude.{
  ℕ, zero, suc, ◌+◌, ◌-◌, ◌*◌, ◌/◌, ◌%◌, Bool, true, false, ◌&&◌, List, [], ◌∷◌, ◌++◌, map, ltb,
  leb, if◌then◌else◌, get_or, set, take, replicate,
}
use luminousminer.Prelude.Word.{u8, u32}
use luminousminer.Prelude.Text.{Text}

abbrev pub all_digits : Text → Bool
all_digits [] = true
all_digits (c ∷ cs) = leb b'0' c && leb c b'9' && all_digits cs

-- `LIMBS` for a `hash512`, and the limbs that the loops run over.
abbrev pub limbs : ℕ
limbs = 74

abbrev pub limb_at : List ℕ → ℕ → ℕ
limb_at xs i = get_or xs i 0

-- The `do` loop from limb `ip` on: the first round is made whatever the limb.
unfoldable pub carry : ℕ → ℕ → List ℕ → List ℕ
carry zero ip xs = xs
carry (suc fuel) ip xs = elim (leb limbs (ip + 1)) [
  | true ↦ xs
  | false ↦
      let rem = limb_at xs ip / 16 in
      let cut = set xs ip (limb_at xs ip % 16) in
      let next = set cut (ip + 1) (u32 (limb_at cut (ip + 1) + rem)) in
      elim (leb 16 (limb_at next (ip + 1))) [ true ↦ carry fuel (ip + 1) next | false ↦ next ]
]

-- `accs[j] += ts[j] * digit` with its carries, for `left` limbs from j on.
unfoldable pub add_digit : ℕ → ℕ → ℕ → List ℕ → List ℕ → List ℕ
unfolding carry
add_digit zero j digit ts accs = accs
add_digit (suc left) j digit ts accs =
    add_digit left (j + 1) digit ts
      (carry limbs j (set accs j (u32 (limb_at accs j + u32 (limb_at ts j * digit)))))

unfoldable pub times_ten : ℕ → ℕ → List ℕ → List ℕ
times_ten zero j ts = ts
times_ten (suc left) j ts = times_ten left (j + 1) (set ts j (u32 (limb_at ts j * 10)))

unfoldable pub carry_all : ℕ → ℕ → List ℕ → List ℕ
unfolding carry
carry_all zero j ts = ts
carry_all (suc left) j ts = carry_all left (j + 1) (carry limbs j ts)

-- The digits from the last one on.
unfoldable pub add_digits : List ℕ → List ℕ → List ℕ → List ℕ
unfolding add_digit times_ten carry_all
add_digits [] ts accs = accs
add_digits (d ∷ ds) ts accs =
    add_digits ds (carry_all 64 0 (times_ten 64 0 ts)) (add_digit 64 0 d ts accs)

abbrev pub limb_char : ℕ → ℕ
limb_char v = if ltb v 10 then v + b'0' else u8 (v + b'A' - 10)

-- `decimalToHash<hash512>`: the text in base 16, its digits as characters, the highest first.
unfoldable pub decimal_to_hash : Text → List ℕ
unfolding add_digits
decimal_to_hash input =
    if all_digits input
    then (let digits = map (λ c. c - b'0') (reverse input) in
        let accs = add_digits digits (set (replicate 74 0) 0 1) (replicate 74 0) in
        reverse (map limb_char (take 64 accs)))
    else replicate 64 0

-- The value of a character that is a digit in base 16; a byte 0 gives 0 too.
abbrev pub char_limb : ℕ → ℕ
char_limb c = if leb b'A' c then (c - b'A' + 10) % 16 else (c + 256 - b'0') % 16

-- Two characters for each byte, from the last one on.
unfoldable pub pair_up : List ℕ → List ℕ
pair_up [] = []
pair_up (a ∷ []) = char_limb a ∷ []
pair_up (a ∷ b ∷ rest) = (char_limb a + 16 * char_limb b) ∷ pair_up rest

-- `toLittleEndian<hash512>`, which fills the first half.
unfoldable pub to_little_endian : List ℕ → List ℕ
unfolding pair_up
to_little_endian input = pair_up (reverse input) ++ replicate 32 0
