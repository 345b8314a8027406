-- ===== src/Stratum/Protocol/ProgPow/Notify.antt =====
-- sources/stratum/progpow.cpp: `onMiningNotify`.
use luminousminer.Prelude.{
  ℕ, zero, suc, ◌+◌, ◌/◌, ◌%◌, List, [], ◌∷◌, ◌++◌, some, ltb, if◌then◌else◌, get_elem?,
}
use luminousminer.Prelude.Int.{negsuc, int_eq}
use luminousminer.Prelude.Text.{Text, codes, c_str, strtoull}
use luminousminer.Prelude.Word.{u32}
use luminousminer.Algo.HashUtils.{to_hash256, to_uint64}
use luminousminer.Stratum.JobInfo.{JobInfo}
use luminousminer.Stratum.ExtraNonce.{set_extra_nonce}
use luminousminer.Stratum.Host.{Host}
use luminousminer.Stratum.Session.{
  StratumType, ethereum_v1, ethereum_v2, ethproxy, M, cases, ◌>>=◌, ◌>>◌, done, get, session,
  modify, modify_job,
}
use luminousminer.Stratum.Base.{update_job, array_at, text_of, bool_of, number_of}
use luminousminer.Stratum.Protocol.ProgPow.Epoch.{Variant, derive_epoch}

-- `if (boundaryU64 < targetBits) boundaryU64 = targetBits`.
abbrev pub raise_boundary : JobInfo → JobInfo
raise_boundary job = record job {
  boundary_u64 = if ltb job.boundary_u64 job.target_bits then job.target_bits else job.boundary_u64;
}

abbrev pub upper_digit : ℕ → ℕ
upper_digit d = if ltb d 10 then b'0' + d else b'A' + (d % 10)

-- `std::hex << std::uppercase << std::setw(n) << std::setfill('0')` of a number that fits.
unfoldable pub upper_hex : ℕ → ℕ → Text
upper_hex zero v = []
upper_hex (suc n) v = upper_hex n (v / 16) ++ upper_digit (v % 16) ∷ []

module _ (H : Host) (variant : Variant) where
  open H use {Value, find, as_string, as_bool, as_object}
  open variant use {max_period}

  -- `boostGetString` of an array: the empty text behind its end.
  unfoldable pub string_at : List Value → ℕ → M Value Text
  string_at params i =
      cases (get_elem? params i) (get (some [])) λ v. do t ← get (as_string v); get (some (c_str t))

  -- `dis(gen)`, a number from 100000 to 999999.
  unfoldable pub next_draw : M Value ℕ
  next_draw = do
    s ← session
    modify (λ t. record t { draws = λ n. s.draws (n + 1) })
    get (some (100000 + s.draws 0 % 900000))

  unfoldable pub update_epoch : M Value (Unit {0})
  update_epoch = do
    e ← derive_epoch H variant
    if int_eq e (negsuc 0) then done else modify_job (λ job. record job { epoch = e })

  unfoldable pub notify_v1 : Value → M Value (Unit {0})
  unfolding update_epoch
  notify_v1 root = do
    params ← array_at H root (codes "params")
    job_id ← text_of H params 0
    header_text ← text_of H params 1
    header ← get (to_hash256 header_text)
    modify_job (λ job. record job { header_hash = header })
    seed_text ← text_of H params 2
    seed ← get (to_hash256 seed_text)
    modify_job (λ job. record job { seed_hash = seed })
    boundary_text ← text_of H params 3
    boundary ← get (to_hash256 boundary_text)
    modify_job (λ job. record job { boundary = boundary })
    clean ← bool_of H params 4
    modify_job (λ job. record job { clean_job = clean })
    block ← number_of H 64 params 5
    modify_job (λ job. record job { block_number = block })
    bits ← text_of H params 6
    modify_job (λ job. record job {
      target_bits = u32 (strtoull bits);
      boundary_u64 = to_uint64 job.boundary;
    })
    id ← get (to_hash256 job_id)
    modify_job (λ job.
        raise_boundary
          (record job { job_id = id; job_id_str = job_id; period = job.block_number / max_period }))
    update_epoch

  unfoldable pub notify_v2 : Value → M Value (Unit {0})
  notify_v2 root = do
    params ← array_at H root (codes "params")
    job_id ← text_of H params 0
    height ← text_of H params 1
    header_text ← text_of H params 2
    header ← get (to_hash256 header_text)
    modify_job (λ job. record job { header_hash = header })
    id ← get (to_hash256 job_id)
    modify_job (λ job. record job {
      job_id = id;
      job_id_str = job_id;
      block_number = strtoull height;
      period = strtoull height / max_period;
    })

  unfoldable pub notify_ethproxy : Value → M Value (Unit {0})
  unfolding string_at next_draw update_epoch upper_hex
  notify_ethproxy root = do
    params ← array_at H root (codes "result")
    job_id ← string_at params 0
    header_text ← string_at params 0
    header ← get (to_hash256 header_text)
    modify_job (λ job. record job { header_hash = header })
    seed_text ← string_at params 1
    seed ← get (to_hash256 seed_text)
    modify_job (λ job. record job { seed_hash = seed })
    boundary_text ← string_at params 2
    boundary ← get (to_hash256 boundary_text)
    modify_job (λ job. record job { boundary = boundary })
    block ← string_at params 3
    id ← get (to_hash256 job_id)
    modify_job (λ job. record job {
      job_id = id;
      job_id_str = job_id;
      boundary_u64 = to_uint64 job.boundary;
      block_number = strtoull block;
      period = strtoull block / max_period;
    })
    nonce ← next_draw
    modify_job (set_extra_nonce (upper_hex 6 nonce))
    update_epoch

  unfoldable pub notify_by : StratumType → Value → M Value (Unit {0})
  unfolding notify_v1 notify_v2 notify_ethproxy
  notify_by ethereum_v1 root = notify_v1 root
  notify_by ethereum_v2 root = notify_v2 root
  notify_by ethproxy root = notify_ethproxy root

  unfoldable pub on_mining_notify : Value → M Value (Unit {0})
  unfolding notify_by
  on_mining_notify root = do s ← session; notify_by s.stratum_type root; update_job
