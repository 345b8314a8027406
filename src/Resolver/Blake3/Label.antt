-- ===== src/Resolver/Blake3/Label.antt =====
-- sources/resolver/cpu/blake3.cpp: under which job the nonces of a batch are submitted.
use mathlib.Core.List.{filter_map}
use luminousminer.Prelude.{
  ℕ, ◌≡◌, refl, sym, ap, subst, ◌∙◌, Bool, true, false, Bool-cases, inl, inr, List, [], ◌++◌, map,
  ◌==◌, if◌then◌else◌, take, length,
}
use luminousminer.Stratum.JobInfo.{Hash, JobInfo}
use luminousminer.Resolver.Base.{swap_index_stream, update_job_id}
use luminousminer.Resolver.Blake3.{
  Batch, ResolverBlake3, max_result, current_batch, prepare_batch, harvest, harvest_current,
  wait_batch, scan, is_winner, collect, launch, execute_async, submit,
}
use luminousminer.Resolver.Blake3.Scan.{IsResult, stored, store_all_lem, hit, scan_lem}
use luminousminer.Resolver.Blake3.Found.{prepared-IsResult, prepared_empty}
use luminousminer.Resolver.Blake3.Sent.{
  label, sent, harvest-sent, current-put, put-share, put-resolver, submit-sent, harvest-label,
}

launch-share : (job : JobInfo) (r : ResolverBlake3) → (launch job r).result_share ≡ r.result_share
unfolding launch
launch-share job r = put-share _ _

launch-job_id :
    (job : JobInfo) (r : ResolverBlake3) → (launch job r).resolver.job_id ≡ r.resolver.job_id
unfolding launch swap_index_stream
launch-job_id job r = ap (λ x. x.job_id) (put-resolver _ _)

launch-in_flight : (job : JobInfo) (r : ResolverBlake3) → (launch job r).in_flight ≡ true
unfolding launch
launch-in_flight job r = refl

-- The resolver after the swap of the two batches.
abbrev swapped : ResolverBlake3 → ResolverBlake3
swapped r = record r { resolver = swap_index_stream r.resolver }

launch-current :
    (job : JobInfo) (r : ResolverBlake3)
    → current_batch (launch job r) ≡ prepare_batch (current_batch (swapped r)) job
unfolding launch
launch-current job r = current-put (prepare_batch (current_batch (swapped r)) job) (swapped r)

module _ (hash : Hash → ℕ → Hash) where
  current-wait :
      (order : List ℕ) (r : ResolverBlake3)
      → current_batch (wait_batch hash order r) ≡ scan hash order (current_batch r)
  current-wait order r = current-put (scan hash order (current_batch r)) r

  collected :
      (order : List ℕ) (job : JobInfo) (r : ResolverBlake3)
      → r.in_flight ≡ true
      → (collect hash order job r).result_share
        ≡ (harvest (scan hash order (current_batch r)) job r.result_share).1
  unfolding collect
  collected order job r flying =
      let waited = wait_batch hash order r in
      ap (λ t. (if t then harvest_current job waited else r).result_share) flying
      ∙ ap (λ b. (harvest b job waited.result_share).1) (current-wait order r)
      ∙ ap (λ s. (harvest (scan hash order (current_batch r)) job s).1)
          (put-share (scan hash order (current_batch r)) r)

  collected-resolver :
      (order : List ℕ) (job : JobInfo) (r : ResolverBlake3)
      → r.in_flight ≡ true
      → (collect hash order job r).resolver ≡ r.resolver
  unfolding collect
  collected-resolver order job r flying =
      let waited = wait_batch hash order r in
      ap (λ t. (if t then harvest_current job waited else r).resolver) flying
      ∙ put-resolver (harvest (current_batch waited) job waited.result_share).0 waited
      ∙ put-resolver (scan hash order (current_batch r)) r

  scanned-IsResult :
      (order : List ℕ) (b : Batch) → IsResult b.result → IsResult (scan hash order b).result
  scanned-IsResult order b ok =
      subst (λ s. IsResult s.result) (sym (scan_lem hash order b))
        (store_all_lem (filter_map (hit hash b) order) b.result ok).0

  -- What is submitted after a launch that collected a batch in flight.
  collected-submit :
      (stale : Bool) (order : List ℕ) (job : JobInfo) (r : ResolverBlake3)
      → r.in_flight ≡ true
      → r.resolver.job_id ≡ job.job_id_str
      → r.result_share.found ≡ false
      → length r.result_share.nonces ≡ max_result
      → IsResult (current_batch r).result
      → (submit stale (execute_async hash order job r)).0
        ≡ map (label job) (stored (scan hash order (current_batch r)).result)
  unfolding execute_async
  collected-submit stale order job r flying current unsent size ok =
      let kept = collect hash order job r in
      let last = scan hash order (current_batch r) in
      let share = launch-share job kept ∙ collected order job r flying in
      let named =
        launch-job_id job kept
        ∙ ap (λ x. x.job_id) (collected-resolver order job r flying)
        ∙ current in
      submit-sent stale (launch job kept) (λ found.
        ap (λ s. s.job_id) share
        ∙ harvest-label last job r.result_share unsent (sym (ap (λ s. s.found) share) ∙ found)
        ∙ sym named)
      ∙ ap sent share
      ∙ harvest-sent last job r.result_share (scanned-IsResult order (current_batch r) ok) unsent
          size

-- `Device::loopDoWork` when a new job comes: the resolver is given its id, and launches it after that.
unfoldable pub change_job : (Hash → ℕ → Hash) → List ℕ → JobInfo → ResolverBlake3 → ResolverBlake3
unfolding execute_async update_job_id
change_job hash order job r =
    execute_async hash order job (record r { resolver = update_job_id job.job_id_str r.resolver })

launched_submit :
    (hash : Hash → ℕ → Hash) (stale : Bool) (order : List ℕ) (first second : JobInfo)
    (r : ResolverBlake3)
    → r.result_share.found ≡ false
    → length r.result_share.nonces ≡ max_result
    → length (current_batch (swapped r)).result.nonces ≡ max_result
    → (submit stale (change_job hash order second (launch first r))).0
      ≡ map (label second) (
          take max_result
            (filter_map (hit hash (prepare_batch (current_batch (swapped r)) first)) order))
unfolding change_job update_job_id
launched_submit hash stale order first second r unsent size room =
    let l = launch first r in
    let updated = record l { resolver = update_job_id second.job_id_str l.resolver } in
    let batch = current_batch (swapped r) in
    let here : current_batch updated ≡ prepare_batch batch first = launch-current first r in
    let ok = prepared-IsResult batch first room in
    collected-submit hash stale order second updated (launch-in_flight first r) refl
      (ap (λ s. s.found) (launch-share first r) ∙ unsent)
      (ap (λ s. length s.nonces) (launch-share first r) ∙ size)
      (subst (λ b. IsResult b.result) (sym here) ok)
    ∙ ap (λ b. map (label second) (stored (scan hash order b).result)) here
    ∙ ap (λ b. map (label second) (stored b.result))
        (scan_lem hash order (prepare_batch batch first))
    ∙ ap (map (label second)) (
        (store_all_lem (filter_map (hit hash (prepare_batch batch first)) order) _ ok).1
        ∙ ap (λ s. take max_result (s ++ filter_map (hit hash (prepare_batch batch first)) order))
            (prepared_empty batch first))

collect_idle :
    (hash : Hash → ℕ → Hash) (order : List ℕ) (job : JobInfo) (r : ResolverBlake3)
    → r.in_flight ≡ false
    → collect hash order job r ≡ r
unfolding collect
collect_idle hash order job r idle =
    ap (λ t. if t then harvest_current job (wait_batch hash order r) else r) idle

swapped_room :
    (r : ResolverBlake3)
    → length r.batch0.result.nonces ≡ max_result
    → length r.batch1.result.nonces ≡ max_result
    → length (current_batch (swapped r)).result.nonces ≡ max_result
swapped_room r size0 size1 = elim (Bool-cases ((swapped r).resolver.current_index_stream == 0)) [
  | inl a ↦ ap (λ t. length (if t then r.batch0 else r.batch1).result.nonces) a ∙ size0
  | inr b ↦ ap (λ t. length (if t then r.batch0 else r.batch1).result.nonces) b ∙ size1
]

-- For a resolver with no batch in flight and nothing to submit, whose lists of nonces have four places: when
-- it has launched a first job and is then given a second one, as `Device::loopDoWork` does, the nonces that
-- were found for the header of the first job, the first four of them, are all submitted as shares of the
-- second job, and none of them counts as stale, whatever the setting for stale shares.
pub collected_under_next_job :
    (hash : Hash → ℕ → Hash) (stale : Bool) (order : List ℕ) (first second : JobInfo)
    (r : ResolverBlake3)
    → r.in_flight ≡ false
    → r.result_share.found ≡ false
    → length r.result_share.nonces ≡ max_result
    → length r.batch0.result.nonces ≡ max_result
    → length r.batch1.result.nonces ≡ max_result
    → (submit stale (change_job hash order second (execute_async hash [] first r))).0
      ≡ map
          (label second)
          (take max_result (filter_map (hit hash (prepare_batch r.batch0 first)) order))
unfolding execute_async prepare_batch hit is_winner
collected_under_next_job hash stale order first second r idle unsent size size0 size1 =
    ap (λ x. (submit stale (change_job hash order second (launch first x))).0)
      (collect_idle hash [] first r idle)
    ∙ launched_submit hash stale order first second r unsent size (swapped_room r size0 size1)
