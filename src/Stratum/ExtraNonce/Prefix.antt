-- ===== src/Stratum/ExtraNonce/Prefix.antt =====
-- The extra nonce of stratum.cpp is the prefix of every nonce from the start nonce up to the gap.
use mathlib.Core.List.{append-nil, append_assoc}
use native.Mathlib.Nat.{pow-suc, zero-add, mul-le-mul_right}
use luminousminer.Prelude.{
  ℕ, zero, suc, ◌+◌, ◌-◌, ◌*◌, ◌/◌, ◌^◌, ◌≤◌, ◌<◌, ◌≡◌, refl, sym, ap, ◌∙◌, [], ◌∷◌, ◌++◌, arith,
  length, length-append, length-replicate, replicate,
}
use luminousminer.Prelude.Arith.{quotient_digit}
use luminousminer.Prelude.Text.{Text, strtoull, read_hex, hex_digit}
use luminousminer.Prelude.Text.Hex.{
  IsHex, read_hex-append, read_hex-zeros, read_hex-fs, read_hex-lt, strtoull-hex,
}
use luminousminer.Stratum.JobInfo.{JobInfo}
use luminousminer.Stratum.ExtraNonce.{append_times, cap_extra_nonce, set_extra_nonce}

append_times-replicate : (n c : ℕ) (text : Text) → append_times n c text ≡ text ++ replicate n c
unfolding append_times
append_times-replicate zero c text = sym (append-nil text)
append_times-replicate (suc n) c text =
    append_times-replicate n c (text ++ c ∷ []) ∙ append_assoc text (c ∷ []) (replicate n c)

IsHex-append : (s t : Text) → IsHex s → IsHex t → IsHex (s ++ t)
IsHex-append [] t h k = k
IsHex-append (c ∷ s) t h k = (h.0, IsHex-append s t h.1 k)

IsHex-zeros : (n : ℕ) → IsHex (replicate n b'0')
unfolding hex_digit
IsHex-zeros zero = tt
IsHex-zeros (suc n) = ((0, refl), IsHex-zeros n)

IsHex-fs : (n : ℕ) → IsHex (replicate n b'f')
unfolding hex_digit
IsHex-fs zero = tt
IsHex-fs (suc n) = ((15, refl), IsHex-fs n)

gap_value : (n : ℕ) → n ≤ 16 → strtoull (replicate n b'f') + 1 ≡ 16 ^ n
gap_value zero h = unfold strtoull in refl
gap_value (suc n) h = omega (
  arith,
  strtoull-hex b'f' (replicate n b'f') (IsHex-fs (suc n))
      (omega (arith, length-replicate {A = ℕ} n b'f')),
  read_hex-fs 0 (suc n),
)

pow16-add : (n m k : ℕ) → n + m ≡ k → 16 ^ n * 16 ^ m ≡ 16 ^ k
pow16-add zero m k e = rw (← e) (omega (arith, ap (λ (t : ℕ). 16 ^ t) (zero-add m)))
pow16-add (suc n) m zero e = absurd (omega arith)
pow16-add (suc n) m (suc k) e =
    omega (
      arith,
      ap (λ (t : ℕ). t * 16 ^ m) (pow-suc 16 n),
      pow-suc 16 k,
      pow16-add n m k (omega arith),
    )

module _ (c : ℕ) (s : Text) (hex : IsHex (c ∷ s)) (fits : length (c ∷ s) ≤ 16) (job : JobInfo) where
  abbrev room : ℕ
  room = 16 ^ (16 - length (c ∷ s))

  abbrev after_set : JobInfo
  after_set = set_extra_nonce (c ∷ s) job

  uncut : cap_extra_nonce (c ∷ s) ≡ c ∷ s
  unfolding cap_extra_nonce
  uncut = ground arith

  start_value :
      strtoull ((c ∷ s) ++ replicate (16 - length (c ∷ s)) b'0') ≡ read_hex 0 (c ∷ s) * room
  start_value =
      let n : ℕ = 16 - length (c ∷ s) in
      strtoull-hex c (s ++ replicate n b'0') (IsHex-append (c ∷ s) _ hex (IsHex-zeros n))
        (omega (arith, length-append s (replicate n b'0'), length-replicate {A = ℕ} n b'0'))
      ∙ read_hex-append 0 (c ∷ s) (replicate n b'0') hex
      ∙ read_hex-zeros (read_hex 0 (c ∷ s)) n

  -- A pool's extra nonce of 1 to 16 hexadecimal digits becomes the extra nonce; the start nonce is
  -- it followed by zeros up to 16 digits, and the gap is the largest number of the digits left.
  pub set_extra_nonce-prefix :
      (after_set.extra_nonce ≡ read_hex 0 (c ∷ s))
      × (after_set.start_nonce ≡ after_set.extra_nonce * room)
      × (after_set.gap_nonce + 1 ≡ room)
      × (after_set.nonce ≡ after_set.start_nonce)
      × (after_set.extra_nonce_size ≡ length (c ∷ s))
  unfolding set_extra_nonce
  set_extra_nonce-prefix =
      let whole = strtoull-hex c s hex fits in
      rw
        (
          uncut,
          append_times-replicate (16 - length (c ∷ s)) b'0' (c ∷ s),
          append_times-replicate (16 - length (c ∷ s)) b'f' [],
        )
        (
          whole,
          start_value ∙ ap (λ (t : ℕ). t * room) (sym whole),
          gap_value _ (omega arith),
          refl,
          refl,
        )

  -- For an extra nonce of 1 to 16 hexadecimal digits: every nonce from the start nonce up to the gap is
  -- a 64-bit number that begins with the extra nonce, so that it cannot leave the share of the search
  -- space that the pool gave to this miner.
  pub nonce-in-share :
      (k : ℕ)
      → k ≤ after_set.gap_nonce
      → ((after_set.start_nonce + k) / room ≡ after_set.extra_nonce)
        × (after_set.start_nonce + k < 2 ^ 64)
  nonce-in-share k h =
      let facts = set_extra_nonce-prefix in
      let small = read_hex-lt 0 (c ∷ s) hex in
      let whole = pow16-add (length (c ∷ s)) (16 - length (c ∷ s)) 16 (omega arith) in
      let below : k < room = omega arith in
      (
        rw facts.1 (quotient_digit after_set.extra_nonce room k below),
        omega (
          arith,
          mul-le-mul_right {m = after_set.extra_nonce + 1} {n = 16 ^ length (c ∷ s)} room
              (omega arith),
        ),
      )
