-- ===== src/Stratum/ExtraNonce.antt =====
-- `Stratum::setExtraNonce` of sources/stratum/stratum.cpp: how the extra nonce that a pool sends
-- bounds the nonces of the miner.
pub mod Prefix
use luminousminer.Prelude.{
  ◌≡◌, refl, ℕ, zero, suc, ◌-◌, List, [], ◌∷◌, ◌++◌, ltb, if◌then◌else◌, length, take,
}
use luminousminer.Prelude.Text.{Text, strtoull}
use luminousminer.Stratum.JobInfo.{JobInfo}

-- `for (size_t i{ 0 }; i < fill; ++i) text += c;`
pub append_times : ℕ → ℕ → Text → Text
append_times zero c text = text
append_times (suc fill) c text = append_times fill c (text ++ c ∷ [])

-- `substr(0u, 16u)` of a longer text.
pub cap_extra_nonce : Text → Text
cap_extra_nonce text = if ltb 16 (length text) then take 16 text else text

-- Each fill loop runs `16 - size` times; the size is at most 16 after the cap.
pub set_extra_nonce : Text → JobInfo → JobInfo
set_extra_nonce param job =
    let extra = cap_extra_nonce param in
    let fill = 16 - length extra in
    let start = strtoull (append_times fill b'0' extra) in
    record job {
      extra_nonce_size = length extra;
      extra_nonce = strtoull extra;
      gap_nonce = strtoull (append_times fill b'f' []);
      start_nonce = start;
      nonce = start;
    }

-- The overload with the size of the second extra nonce.
pub set_extra_nonce2 : Text → ℕ → JobInfo → JobInfo
unfolding set_extra_nonce
set_extra_nonce2 param size job = record (set_extra_nonce param job) { extra_nonce2_size = size }

pub set_extra_nonce-boundary :
    (extra : Text) (job : JobInfo) → (set_extra_nonce extra job).boundary ≡ job.boundary
unfolding set_extra_nonce
set_extra_nonce-boundary extra job = refl
