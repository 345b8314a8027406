-- ===== src/Algo/HashUtils.antt =====
-- sources/algo/hash_utils.hpp and hash_utils.cpp: hashes as lists of bytes, and their texts. Not
-- modelled: the hashes of a difficulty, which rest on boost::multiprecision.
pub mod BigEndian
pub mod Width
pub mod Decimal
use luminousminer.Prelude.{
  ℕ, zero, suc, ◌+◌, ◌-◌, ◌*◌, ◌/◌, ◌%◌, Bool, true, false, ◌&&◌, ◌||◌, List, [], ◌∷◌, ◌++◌, Option,
  none, some, ltb, leb, ◌==◌, if◌then◌else◌, length, set, take, drop, replicate,
}
use luminousminer.Prelude.Word.{u8}
use luminousminer.Prelude.Text.{Text, stoul, strtoull}

-- `base[d]` for the digits "0123456789abcdef".
unfoldable pub digit_char : ℕ → ℕ
digit_char d = if ltb d 10 then b'0' + d else b'a' + (d - 10)

unfoldable pub to_hex : List ℕ → Text
unfolding digit_char
to_hex [] = []
to_hex (b ∷ bs) = digit_char (b / 16) ∷ digit_char (b % 16) ∷ to_hex bs

unfoldable pub is_hash_empty : List ℕ → Bool
is_hash_empty [] = true
is_hash_empty (b ∷ bs) = let rest = is_hash_empty bs in if b == 0 then rest else false

unfoldable pub is_equal : List ℕ → List ℕ → Bool
is_equal [] [] = true
is_equal [] (c ∷ cs) = false
is_equal (b ∷ bs) [] = false
is_equal (b ∷ bs) (c ∷ cs) = let rest = is_equal bs cs in if b == c then rest else false

-- The number that the first 16 digits of the hash spell.
unfoldable pub to_uint64 : List ℕ → ℕ
to_uint64 hash = strtoull (take 16 (to_hex hash))

-- The loops from the last two digits and the last byte: `left` is `pos + 1`, or `pos` where the
-- loop stops at `pos > 0`. `none` is the exception of std::stoul.
unfoldable pub fill_bytes : Text → ℕ → ℕ → ℕ → List ℕ → Option (List ℕ)
fill_bytes hex low zero index hash = some hash
fill_bytes hex low (suc left) index hash =
    if ltb index 2 then some hash else elim (stoul (take 2 (drop (index - 2) hex))) [
      | none ↦ none
      | some bits ↦ fill_bytes hex low left (index - 2) (set hash (low + left) (u8 bits))
    ]

abbrev pub even_text : Text → Text
even_text hex = if length hex % 2 == 0 then hex else hex ++ b'0' ∷ []

abbrev pub drop_0x : Text → Text
drop_0x [] = []
drop_0x (c ∷ []) = c ∷ []
drop_0x (c ∷ x ∷ rest) = if c == b'0' && (x == b'x' || x == b'X') then rest else c ∷ x ∷ rest

-- `toHash256(std::string const&)`.
unfoldable pub to_hash256 : Text → Option (List ℕ)
unfolding fill_bytes stoul
to_hash256 str =
    let hex = even_text (drop_0x str) in fill_bytes hex 0 32 (length hex) (replicate 32 0)

-- `toHash1024(std::string const&)`: the loop stops before byte 0.
unfoldable pub to_hash1024 : Text → Option (List ℕ)
unfolding fill_bytes stoul
to_hash1024 str = let hex = even_text str in fill_bytes hex 1 127 (length hex) (replicate 128 0)

-- `toHash<T>(str, HASH_SHIFT::NOTHING)` for a T of `width` bytes.
unfoldable pub to_hash : ℕ → Text → Option (List ℕ)
unfolding fill_bytes stoul
to_hash width str =
    let hex = even_text str in fill_bytes hex 0 width (length hex) (replicate width 0)

-- `toHash<T>(str, HASH_SHIFT::LEFT)`: zeros are added behind the text, up to the width.
unfoldable pub to_hash_left : ℕ → Text → Option (List ℕ)
unfolding to_hash
to_hash_left width str = to_hash width (str ++ replicate (2 * width - length str) b'0')
