-- ===== src/Resolver/Blake3/Scan.antt =====
-- sources/resolver/cpu/blake3.cpp: what a scanned batch holds.
use mathlib.Core.List.{
  filter_map, filter_map-cons-none, filter_map-cons-some, append_assoc, append-nil,
}
use native.Mathlib.Omega.{arith}
use luminousminer.Prelude.{
  ℕ, zero, suc, ◌+◌, ◌≤◌, ◌<◌, ◌≡◌, refl, sym, ap, ◌∙◌, Bool-cases, inl, inr, Option, none, some,
  List, [], ◌∷◌, ◌++◌, ltb, ltb→lt, if◌then◌else◌, set, take, length, length-set, length-take,
}
use luminousminer.Prelude.Word.{u64}
use luminousminer.Stratum.JobInfo.{Hash}
use luminousminer.Resolver.Blake3.{Result, Batch, max_result, store_hit, is_winner, try_nonce, scan}

-- A result as `prepareBatch` and the appends leave it.
pub record IsResult (r : Result) : Type 0 where
  pub size : length r.nonces ≡ max_result
  pub few : r.count ≤ max_result
  pub flagged : r.found ≡ ltb 0 r.count

-- The nonces that a result holds.
unfoldable pub stored : Result → List ℕ
stored r = take r.count r.nonces

unfoldable pub store_all : List ℕ → Result → Result
store_all [] r = r
store_all (x ∷ xs) r = store_all xs (store_hit x r)

take_next :
    (n : ℕ) (xs : List ℕ) (x : ℕ) → n < length xs → take (suc n) (set xs n x) ≡ take n xs ++ x ∷ []
take_next n [] x h = elim h [ ]
take_next zero (y ∷ ys) x h = refl
take_next (suc n) (y ∷ ys) x h = ap (λ r. y ∷ r) (take_next n ys x (omega arith))

take-set :
    (n : ℕ) (xs : List ℕ) (x : ℕ) → n < length xs → take (n + 1) (set xs n x) ≡ take n xs ++ x ∷ []
take-set n xs x h =
    let next : n + 1 ≡ suc n = omega arith in
    ap (λ k. take k (set xs n x)) next ∙ take_next n xs x h

take_full : (n : ℕ) (xs ys : List ℕ) → length xs ≡ n → take n (xs ++ ys) ≡ xs
take_full zero [] ys h = refl
take_full zero (x ∷ xs) ys h = absurd (omega (arith, h))
take_full (suc n) [] ys h = absurd (omega (arith, h))
take_full (suc n) (x ∷ xs) ys h = ap (λ r. x ∷ r) (take_full n xs ys (omega (arith, h)))

take_all : (n : ℕ) (xs : List ℕ) → length xs ≤ n → take n xs ≡ xs
take_all zero [] h = refl
take_all zero (x ∷ xs) h = absurd (omega (arith, h))
take_all (suc n) [] h = refl
take_all (suc n) (x ∷ xs) h = ap (λ r. x ∷ r) (take_all n xs (omega (arith, h)))

store_hit-IsResult : (x : ℕ) (r : Result) → IsResult r → IsResult (store_hit x r)
unfolding store_hit
store_hit-IsResult x r ok = elim (Bool-cases (ltb r.count max_result)) [
  | inl room ↦
      let less = ltb→lt _ _ room in
      rw room (record {
        size = length-set r.nonces r.count x ∙ ok.size;
        few = omega (arith, less);
        flagged = ground arith;
      })
  | inr full ↦ rw full ok
]

-- A further hit is appended while there is room, and dropped after that.
store_hit-stored :
    (x : ℕ) (r : Result) (rest : List ℕ)
    → IsResult r
    → take max_result (stored (store_hit x r) ++ rest) ≡ take max_result (stored r ++ x ∷ rest)
unfolding store_hit stored
store_hit-stored x r rest ok = elim (Bool-cases (ltb r.count max_result)) [
  | inl room ↦
      let less = ltb→lt _ _ room in
      rw (room, take-set r.count r.nonces x (omega (arith, less, ok.size)))
        (ap (take max_result) (append_assoc (take r.count r.nonces) (x ∷ []) rest))
  | inr full ↦
      let all : length (take r.count r.nonces) ≡ max_result =
        length-take r.count r.nonces ∙ ground (arith, full, ok.few, ok.size) in
      rw full (
        take_full max_result (take r.count r.nonces) rest all
        ∙ sym (take_full max_result (take r.count r.nonces) (x ∷ rest) all))
]

stored-le : (r : Result) → IsResult r → length (stored r) ≤ max_result
unfolding stored
stored-le r ok = omega (arith, length-take r.count r.nonces, ok.few)

pub store_all_lem :
    (xs : List ℕ) (r : Result)
    → IsResult r
    → IsResult (store_all xs r) × (stored (store_all xs r) ≡ take max_result (stored r ++ xs))
unfolding store_all
store_all_lem [] r ok = (
  ok,
  sym (
      ap (take max_result) (append-nil (stored r))
      ∙ take_all max_result (stored r) (stored-le r ok)),
)
store_all_lem (x ∷ xs) r ok =
    let (later, same) = store_all_lem xs (store_hit x r) (store_hit-IsResult x r ok) in
    (later, same ∙ store_hit-stored x r xs ok)

module _ (hash : Hash → ℕ → Hash) where
  -- The nonce at a place of the batch, if its hash does not exceed the target.
  unfoldable pub hit : Batch → ℕ → Option ℕ
  hit b i = if is_winner hash b (u64 (b.base + i)) then some (u64 (b.base + i)) else none

  same_hits : (b : Batch) (r : Result) → hit (record b { result = r }) ≡ hit b
  unfolding hit is_winner
  same_hits b r = refl

  pub scan_lem :
      (order : List ℕ) (b : Batch)
      → scan hash order b ≡ record b { result = store_all (filter_map (hit b) order) b.result }
  unfolding scan store_all
  scan_lem [] b = unfold filter_map in refl
  scan_lem (i ∷ is) b = elim (Bool-cases (is_winner hash b (u64 (b.base + i)))) [
    | inl wins ↦
        let c = u64 (b.base + i) in
        let found : hit b i ≡ some c = unfold hit in rw wins refl in
        let more = filter_map-cons-some (hit b) i is found in
        let tried : try_nonce hash b i ≡ record b { result = store_hit c b.result } =
          unfold try_nonce in rw wins refl in
        ap (scan hash is) tried
        ∙ scan_lem is (record b { result = store_hit c b.result })
        ∙ ap (λ f. record b { result = store_all (filter_map f is) (store_hit c b.result) })
            (same_hits b (store_hit c b.result))
        ∙ ap (λ hs. record b { result = store_all hs b.result }) (sym more)
    | inr loses ↦
        let found : hit b i ≡ none = unfold hit in rw loses refl in
        let less = filter_map-cons-none (hit b) i is found in
        let tried : try_nonce hash b i ≡ b = unfold try_nonce in rw loses refl in
        ap (scan hash is) tried
        ∙ scan_lem is b
        ∙ ap (λ hs. record b { result = store_all hs b.result }) (sym less)
  ]
