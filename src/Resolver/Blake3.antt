-- ===== src/Resolver/Blake3.antt =====
-- sources/resolver/cpu/blake3.cpp. A batch is scanned by the workers of the pool, who take turns at its
-- result under its mutex: what counts is the order in which they come to the nonces, which is an
-- argument. The batch is not read before its `wait`, so its scan is placed there. The hash of a header
-- and a nonce, over a vendored library, is a parameter. Configuration, and the destructor's `wait`, are not
-- modelled.
pub mod Scan
pub mod Found
pub mod Sent
pub mod Label
use luminousminer.Prelude.{
  ℕ, zero, suc, ◌+◌, ◌-◌, ◌*◌, ◌/◌, ◌%◌, ◌^◌, Bool, true, false, not, ◌&&◌, Option, none, some,
  List, [], ◌∷◌, ◌++◌, ltb, leb, ◌==◌, if◌then◌else◌, set, take, drop, replicate, length, numbers,
}
use luminousminer.Prelude.Word.{u64}
use luminousminer.Prelude.Text.{Text}
use luminousminer.Algo.HashUtils.{digit_char}
use luminousminer.Stratum.JobInfo.{Hash, JobInfo}
use luminousminer.Resolver.Base.{Resolver, swap_index_stream, is_stale}

abbrev pub max_result : ℕ
max_result = 4

-- `algo::blake3::Result`.
pub record Result : Type 0 where
  pub found : Bool
  pub count : ℕ
  pub nonces : List ℕ

pub record Batch : Type 0 where
  pub header : Hash
  pub target : Hash
  pub base : ℕ
  pub result : Result

pub record ResultShare : Type 0 where
  pub job_id : Text
  pub to_group : ℕ
  pub from_group : ℕ
  pub found : Bool
  pub extra_nonce_size : ℕ
  pub count : ℕ
  pub nonces : List ℕ

pub record ResolverBlake3 : Type 0 where
  pub resolver : Resolver
  pub result_share : ResultShare
  -- `batch[0]` and `batch[1]`.
  pub batch0 : Batch
  pub batch1 : Batch
  pub in_flight : Bool

-- The parameters of a submitted share.
pub record Share : Type 0 where
  pub job_id : Text
  pub from_group : ℕ
  pub to_group : ℕ
  pub nonce : Text

-- `std::memcmp(a, b, n) <= 0`.
unfoldable pub bytes_le : List ℕ → List ℕ → Bool
bytes_le [] ys = true
bytes_le (x ∷ xs) [] = true
bytes_le (x ∷ xs) (y ∷ ys) =
    let rest = bytes_le xs ys in if ltb x y then true else if x == y then rest else false

abbrev pub current_batch : ResolverBlake3 → Batch
current_batch r = if r.resolver.current_index_stream == 0 then r.batch0 else r.batch1

abbrev pub put_batch : Batch → ResolverBlake3 → ResolverBlake3
put_batch b r =
    if r.resolver.current_index_stream == 0
    then record r { batch0 = b }
    else record r { batch1 = b }

unfoldable pub prepare_batch : Batch → JobInfo → Batch
prepare_batch b job = record b {
  header = job.header_blob;
  target = job.target_blob;
  base = job.nonce;
  result = record b.result { found = false; count = 0 };
}

-- The append under `hitMutex`.
unfoldable pub store_hit : ℕ → Result → Result
store_hit candidate r =
    if ltb r.count max_result
    then record { found = true; count = r.count + 1; nonces = set r.nonces r.count candidate }
    else r

module _ (hash : Hash → ℕ → Hash) where
  unfoldable pub is_winner : Batch → ℕ → Bool
  unfolding bytes_le
  is_winner b candidate = bytes_le (hash b.header candidate) b.target

  -- The body of the loop of `hashChunk`.
  unfoldable pub try_nonce : Batch → ℕ → Batch
  unfolding is_winner store_hit
  try_nonce b i =
      let candidate = u64 (b.base + i) in
      if is_winner b candidate then record b { result = store_hit candidate b.result } else b

  -- The nonces in the order in which the workers come to them.
  unfoldable pub scan : List ℕ → Batch → Batch
  scan [] b = b
  scan (i ∷ is) b = scan is (try_nonce b i)

  unfoldable pub hash_chunk : ℕ → ℕ → Batch → Batch
  hash_chunk lo hi b = scan (numbers lo (hi - lo)) b

-- `for (i < n) to[i] = from[i]`.
unfoldable pub copy_nonces : ℕ → List ℕ → List ℕ → List ℕ
copy_nonces zero from to = to
copy_nonces (suc n) [] to = to
copy_nonces (suc n) (x ∷ from) [] = []
copy_nonces (suc n) (x ∷ from) (y ∷ to) = x ∷ copy_nonces n from to

-- The batch that is drained, and the shares.
unfoldable pub harvest : Batch → JobInfo → ResultShare → Batch × ResultShare
unfolding copy_nonces
harvest b job share =
    let found = if leb b.result.count max_result then b.result.count else max_result in
    if b.result.found
    then (
      record b { result = record b.result { found = false; count = 0 } },
      record {
        job_id = job.job_id_str;
        to_group = job.to_group;
        from_group = job.from_group;
        found = true;
        extra_nonce_size = job.extra_nonce_size;
        count = found;
        nonces = copy_nonces found b.result.nonces share.nonces;
      },
    )
    else (b, share)

-- `harvest(batch[currentIndexStream], jobInfo)`.
abbrev pub harvest_current : JobInfo → ResolverBlake3 → ResolverBlake3
harvest_current job r =
    let drained = harvest (current_batch r) job r.result_share in
    record (put_batch drained.0 r) { result_share = drained.1 }

-- The number of nonces of a batch.
abbrev pub batch_count : ResolverBlake3 → ℕ
batch_count r = u64 (r.resolver.blocks * r.resolver.threads)

-- What `executeAsync` does from the swap of the buffers on.
unfoldable pub launch : JobInfo → ResolverBlake3 → ResolverBlake3
launch job r =
    let swapped = record r { resolver = swap_index_stream r.resolver } in
    record (put_batch (prepare_batch (current_batch swapped) job) swapped) { in_flight = true }

module _ (hash : Hash → ℕ → Hash) where
  -- `threadPool.wait()` for the batch in flight.
  abbrev pub wait_batch : List ℕ → ResolverBlake3 → ResolverBlake3
  wait_batch order r = record (put_batch (scan hash order (current_batch r)) r) {
    in_flight = false;
  }

  -- The orders are those of the batch in flight, if there is one, and of the new one.
  unfoldable pub execute_sync : List ℕ → List ℕ → JobInfo → ResolverBlake3 → ResolverBlake3
  execute_sync flying order job r0 =
      let r = if r0.in_flight then wait_batch flying r0 else r0 in
      let scanned = scan hash order (prepare_batch (current_batch r) job) in
      harvest_current job (put_batch scanned r)

  -- What `executeAsync` does before it swaps the buffers.
  unfoldable pub collect : List ℕ → JobInfo → ResolverBlake3 → ResolverBlake3
  collect flying job r = if r.in_flight then harvest_current job (wait_batch flying r) else r

  unfoldable pub execute_async : List ℕ → JobInfo → ResolverBlake3 → ResolverBlake3
  unfolding collect launch
  execute_async flying job r = launch job (collect flying job r)

-- A number below 2 ^ 64 through `std::setw(16) << std::setfill('0') << std::hex`.
unfoldable pub hex_fixed : ℕ → ℕ → Text
unfolding digit_char
hex_fixed zero v = []
hex_fixed (suc n) v = hex_fixed n (v / 16) ++ digit_char (v % 16) ∷ []

-- `while (nonceStr.size() < FULL_NONCE_HEX_LENGTH) nonceStr += "0"`.
abbrev pub fill_nonce : Text → Text
fill_nonce text = text ++ replicate (48 - length text) b'0'

unfoldable pub share_of : ResultShare → ℕ → Share
unfolding hex_fixed
share_of share nonce = record {
  job_id = share.job_id;
  from_group = share.from_group;
  to_group = share.to_group;
  nonce = fill_nonce (hex_fixed 16 nonce);
}

-- The shares of the first nonces.
unfoldable pub shares_of : (ℕ → Share) → ℕ → List ℕ → List Share
shares_of f zero nonces = []
shares_of f (suc n) [] = []
shares_of f (suc n) (x ∷ nonces) = f x ∷ shares_of f n nonces

-- `resultShare.nonces[i] = 0` for each nonce that was sent.
unfoldable pub clear_nonces : ℕ → List ℕ → List ℕ
clear_nonces zero nonces = nonces
clear_nonces (suc n) [] = []
clear_nonces (suc n) (x ∷ nonces) = 0 ∷ clear_nonces n nonces

-- What `submit` leaves of the share.
unfoldable pub submitted : Bool → ResultShare → ResultShare
unfolding clear_nonces
submitted sends share = record share {
  nonces = if sends then clear_nonces share.count share.nonces else share.nonces;
  count = 0;
  found = false;
}

-- `submit(Stratum*)`: the calls of `miningSubmit`, in their order.
unfoldable pub submit : Bool → ResolverBlake3 → List Share × ResolverBlake3
unfolding is_stale share_of shares_of submitted
submit stale r =
    let share = r.result_share in
    let sends = if share.found then not (is_stale stale share.job_id r.resolver) else false in
    (
      if sends then shares_of (share_of share) share.count share.nonces else [],
      record r { result_share = submitted sends share },
    )

-- The nonce without the digits of the extra nonce.
unfoldable pub smart_share_of : ResultShare → ℕ → Share
unfolding hex_fixed
smart_share_of share nonce = record {
  job_id = share.job_id;
  from_group = share.from_group;
  to_group = share.to_group;
  nonce = drop share.extra_nonce_size (hex_fixed 16 nonce);
}

-- `submit(StratumSmartMining*)`: `substr` throws where it would start behind the 16 digits.
unfoldable pub submit_smart_mining : Bool → ResolverBlake3 → Option (List Share × ResolverBlake3)
unfolding is_stale smart_share_of shares_of submitted
submit_smart_mining stale r =
    let share = r.result_share in
    let sends = if share.found then not (is_stale stale share.job_id r.resolver) else false in
    if sends && ltb 0 share.count && ltb 16 share.extra_nonce_size
    then none
    else some (
      if sends then shares_of (smart_share_of share) share.count share.nonces else [],
      record r { result_share = submitted sends share },
    )
