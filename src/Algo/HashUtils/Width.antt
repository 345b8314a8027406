-- ===== src/Algo/HashUtils/Width.antt =====
-- The hashes that hash_utils.hpp reads from a text: their width, and the byte that one of the loops
-- never writes.
use luminousminer.Prelude.{
  ℕ, zero, suc, ◌+◌, ◌-◌, ◌<◌, ◌≡◌, ap, ◌∙◌, inl, inr, ◌⊎◌, List, some, arith, ltb, length, set,
  replicate, length-set, take, drop, get_elem?, get_elem?-set_ne, Bool-cases, Option-cases,
}
use luminousminer.Prelude.Word.{u8}
use luminousminer.Prelude.Text.{Text, stoul}
use luminousminer.Algo.HashUtils.{fill_bytes, to_hash256, to_hash1024, even_text, drop_0x}

-- The two digits that a round reads.
abbrev chunk : Text → ℕ → Text
chunk hex index = take 2 (drop (index - 2) hex)

-- A round of the loop: it ends, or writes one byte and goes on.
fill_step :
    (hex : Text) (low left index : ℕ) (hash out : List ℕ)
    → fill_bytes hex low (suc left) index hash ≡ some out
    → (out ≡ hash)
      ⊎ ((bits : ℕ) × (fill_bytes hex low left (index - 2) (set hash (low + left) (u8 bits))
            ≡ some out))
unfolding fill_bytes
fill_step hex low left index hash out e = elim (Option-cases (stoul (chunk hex index))) [
  | inl bad ↦ inl (ground arith)
  | inr (bits, good) ↦ elim (Bool-cases (ltb index 2)) [
    | inl stop ↦ inl (ground arith)
    | inr more ↦ inr (bits, ground arith)
  ]
]

length-fill_bytes :
    (hex : Text) (low left index : ℕ) (hash out : List ℕ)
    → fill_bytes hex low left index hash ≡ some out
    → length out ≡ length hash
length-fill_bytes hex low zero index hash out e = unfold fill_bytes in ground arith
length-fill_bytes hex low (suc left) index hash out e =
    elim (fill_step hex low left index hash out e) [
      | inl same ↦ ap length same
      | inr (bits, rest) ↦
          length-fill_bytes hex low left (index - 2) (set hash (low + left) (u8 bits)) out rest
          ∙ length-set hash (low + left) (u8 bits)
    ]

byte-fill_bytes :
    (hex : Text) (low left index i : ℕ) (hash out : List ℕ)
    → i < low
    → fill_bytes hex low left index hash ≡ some out
    → get_elem? out i ≡ get_elem? hash i
byte-fill_bytes hex low zero index i hash out below e = unfold fill_bytes in ground arith
byte-fill_bytes hex low (suc left) index i hash out below e =
    elim (fill_step hex low left index hash out e) [
      | inl same ↦ ap (λ (l : List ℕ). get_elem? l i) same
      | inr (bits, rest) ↦
          byte-fill_bytes hex low left (index - 2) i (set hash (low + left) (u8 bits)) out below
            rest
          ∙ get_elem?-set_ne hash {i = low + left} {j = i} (u8 bits) (λ p. absurd (omega arith))
    ]

-- Where `toHash256` reads a hash from a text, whatever the text, the hash has 32 bytes.
pub length-to_hash256 : (str : Text) (out : List ℕ) → to_hash256 str ≡ some out → length out ≡ 32
unfolding to_hash256
length-to_hash256 str out e =
    let hex : Text = even_text (drop_0x str) in
    length-fill_bytes hex 0 32 (length hex) (replicate 32 0) out e

-- Where `toHash1024` reads a hash from a text, whatever the text, the hash has 128 bytes and the
-- first of them is zero.
pub to_hash1024_first_byte :
    (str : Text) (out : List ℕ)
    → to_hash1024 str ≡ some out
    → (length out ≡ 128) × (get_elem? out 0 ≡ some 0)
unfolding to_hash1024
to_hash1024_first_byte str out e =
    let hex : Text = even_text str in
    (
      length-fill_bytes hex 1 127 (length hex) (replicate 128 0) out e,
      byte-fill_bytes hex 1 127 (length hex) 0 (replicate 128 0) out (omega arith) e,
    )
