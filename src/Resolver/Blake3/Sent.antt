-- ===== src/Resolver/Blake3/Sent.antt =====
-- sources/resolver/cpu/blake3.cpp: what is submitted of the nonces that a resolver holds.
use native.Mathlib.Omega.{arith}
use luminousminer.Prelude.{
  ℕ, zero, suc, ◌≤◌, ◌≡◌, refl, sym, ap, subst, Bool, true, false, Bool-cases, inl, inr, List, [],
  ◌∷◌, map, leb, ◌==◌, if◌then◌else◌, take, length,
}
use luminousminer.Prelude.Text.{Text, text_eq}
use luminousminer.Stratum.JobInfo.{JobInfo}
use luminousminer.Resolver.Base.{is_stale}
use luminousminer.Resolver.Blake3.{
  Batch, ResultShare, ResolverBlake3, Share, max_result, current_batch, put_batch, copy_nonces,
  harvest, hex_fixed, fill_nonce, share_of, shares_of, submit,
}
use luminousminer.Resolver.Blake3.Scan.{IsResult, stored}

-- A nonce as a share of a job.
unfoldable pub label : JobInfo → ℕ → Share
label job nonce = record {
  job_id = job.job_id_str;
  from_group = job.from_group;
  to_group = job.to_group;
  nonce = fill_nonce (hex_fixed 16 nonce);
}

text_eq_refl : (s : Text) → text_eq s s ≡ true
text_eq_refl [] = refl
text_eq_refl (c ∷ cs) = let same : (c == c) ≡ true = ground arith in rw (same, text_eq_refl cs) refl

shares_of-copy :
    (f : ℕ → Share) (n : ℕ) (from to : List ℕ)
    → n ≤ length from
    → n ≤ length to
    → shares_of f n (copy_nonces n from to) ≡ map f (take n from)
unfolding shares_of copy_nonces
shares_of-copy f zero from to h k = refl
shares_of-copy f (suc n) [] to h k = elim h [ ]
shares_of-copy f (suc n) (x ∷ from) [] h k = elim k [ ]
shares_of-copy f (suc n) (x ∷ from) (y ∷ to) h k =
    ap (λ r. f x ∷ r) (shares_of-copy f n from to (omega (arith, h)) (omega (arith, k)))

-- The shares that `submit` sends of a result that is not stale.
unfoldable pub sent : ResultShare → List Share
sent share = if share.found then shares_of (share_of share) share.count share.nonces else []

pub harvest-sent :
    (b : Batch) (job : JobInfo) (share : ResultShare)
    → IsResult b.result
    → share.found ≡ false
    → length share.nonces ≡ max_result
    → sent (harvest b job share).1 ≡ map (label job) (stored b.result)
unfolding sent harvest share_of label stored
harvest-sent b job share ok unsent size = elim (Bool-cases b.result.found) [
  | inl found ↦
      let few : leb b.result.count max_result ≡ true = ground (arith, ok.few) in
      rw (found, few)
        (shares_of-copy (label job) b.result.count b.result.nonces share.nonces
          (omega (arith, ok.few, ok.size)) (omega (arith, ok.few, size)))
  | inr missing ↦
      let none_held : b.result.count ≡ 0 = ground (arith, ok.flagged, missing) in
      rw (missing, unsent, none_held) refl
]

pub current-put : (b : Batch) (r : ResolverBlake3) → current_batch (put_batch b r) ≡ b
current-put b r = elim (Bool-cases (r.resolver.current_index_stream == 0)) [
  | inl first ↦ rw first (rw first refl)
  | inr second ↦ rw second (rw second refl)
]

pub put-share : (b : Batch) (r : ResolverBlake3) → (put_batch b r).result_share ≡ r.result_share
put-share b r = elim (Bool-cases (r.resolver.current_index_stream == 0)) [
  | inl first ↦ rw first refl
  | inr second ↦ rw second refl
]

pub put-resolver : (b : Batch) (r : ResolverBlake3) → (put_batch b r).resolver ≡ r.resolver
put-resolver b r = elim (Bool-cases (r.resolver.current_index_stream == 0)) [
  | inl first ↦ rw first refl
  | inr second ↦ rw second refl
]

-- A share of the job that the resolver has is not stale.
pub submit-sent :
    (stale : Bool) (r : ResolverBlake3)
    → (r.result_share.found ≡ true → r.result_share.job_id ≡ r.resolver.job_id)
    → (submit stale r).0 ≡ sent r.result_share
unfolding submit sent is_stale
submit-sent stale r same = elim (Bool-cases r.result_share.found) [
  | inl found ↦
      let equal : text_eq r.resolver.job_id r.result_share.job_id ≡ true =
        subst (λ t. text_eq r.resolver.job_id t ≡ true) (sym (same found))
          (text_eq_refl r.resolver.job_id) in
      elim (Bool-cases stale) [
        | inl on ↦ rw (found, on) refl
        | inr off ↦ rw (found, off, equal) refl
      ]
  | inr missing ↦ rw missing refl
]

pub harvest-label :
    (b : Batch) (job : JobInfo) (share : ResultShare)
    → share.found ≡ false
    → (harvest b job share).1.found ≡ true
    → (harvest b job share).1.job_id ≡ job.job_id_str
unfolding harvest
harvest-label b job share unsent = elim (Bool-cases b.result.found) [
  | inl found ↦ rw found (λ h. refl)
  | inr missing ↦ rw missing (λ h. cc)
]
