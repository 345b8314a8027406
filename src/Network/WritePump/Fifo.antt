-- ===== src/Network/WritePump/Fifo.antt =====
-- The pump of write_pump.cpp as a history of writes: one at a time, in the order of `enqueue`.
use mathlib.Core.List.{append-nil, append_assoc, Sublist, nil-sublist}
use mathlib.Core.List.Sublist
use luminousminer.Prelude.{
  ℕ, ◌+◌, ◌≤◌, ◌≡◌, refl, sym, subst, ap, ◌∙◌, ◌⊎◌, inl, true, false, List, [], ◌∷◌, ◌++◌, arith,
  length, length-append,
}
use luminousminer.Network.WritePump.{
  WritePump, empty_pump, pop_if_any, step, run, to_list, Event, sends, completes,
}

module _ {ℓ} {A : Type ℓ} where
  -- A write is in flight exactly while the queue holds something; the head is that write.
  abbrev pub IsPump : WritePump A → Type ℓ
  IsPump p =
      ((p.queue ≡ []) × (p.write_in_flight ≡ false))
      ⊎ ((x : A) × (xs : List A) × (p.queue ≡ x ∷ xs) × (p.write_in_flight ≡ true))

  -- The owner's obligation: the end of a write is reported only while one is in flight.
  abbrev pub Allowed : WritePump A → List (Event A) → Type 0
  Allowed p [] = Unit {0}
  Allowed p (sends x ∷ es) = Allowed (step p (sends x)).0 es
  Allowed p (completes b ∷ es) = (p.write_in_flight ≡ true) × Allowed (step p (completes b)).0 es

  -- The payloads that a history enqueues, and the number of writes that it reports as ended.
  abbrev pub enqueued : List (Event A) → List A
  enqueued [] = []
  enqueued (sends x ∷ es) = x ∷ enqueued es
  enqueued (completes b ∷ es) = enqueued es

  abbrev pub ended : List (Event A) → ℕ
  ended [] = 0
  ended (sends x ∷ es) = ended es
  ended (completes b ∷ es) = 1 + ended es

  abbrev pub AllSucceed : List (Event A) → Type 0
  AllSucceed [] = Unit {0}
  AllSucceed (sends x ∷ es) = AllSucceed es
  AllSucceed (completes b ∷ es) = (b ≡ true) × AllSucceed es

  abbrev pub in_flight : WritePump A → ℕ
  in_flight p = elim p.write_in_flight [ true ↦ 1 | false ↦ 0 ]

  -- Every call keeps the flag and the queue in step.
  pub step-IsPump : (p : WritePump A) (e : Event A) → IsPump p → IsPump (step p e).0
  unfolding step
  step-IsPump p (sends x) v = ground arith
  step-IsPump p (completes b) v = ground arith

  enqueued_by : Event A → List A
  enqueued_by (sends x) = x ∷ []
  enqueued_by (completes b) = []

  Succeeds : Event A → Type 0
  Succeeds (sends x) = Unit {0}
  Succeeds (completes b) = b ≡ true

  -- What is handed over, with what still waits behind it, is what waited and what came.
  step-fifo :
      (p : WritePump A) (e : Event A)
      → IsPump p
      → Succeeds e
      → to_list (step p e).1 ++ pop_if_any (step p e).0.queue ≡ pop_if_any p.queue ++ enqueued_by e
  unfolding step enqueued_by Succeeds
  step-fifo p (sends x) v h = ground arith
  step-fifo p (completes b) v h = ground (arith, append-nil (pop_if_any p.queue))

  -- Nothing is handed over that was not enqueued, also when a failure empties the queue.
  step-sublist :
      (p : WritePump A) (e : Event A)
      → IsPump p
      → Sublist
          (to_list (step p e).1 ++ pop_if_any (step p e).0.queue)
          (pop_if_any p.queue ++ enqueued_by e)
  unfolding step enqueued_by Succeeds
  step-sublist p (sends x) v =
      subst (λ l. Sublist l (pop_if_any p.queue ++ x ∷ [])) (sym (step-fifo p (sends x) v tt))
        (Sublist.refl _)
  step-sublist p (completes true) v =
      subst (λ l. Sublist l (pop_if_any p.queue ++ [])) (sym (step-fifo p (completes true) v refl))
        (Sublist.refl _)
  step-sublist p (completes false) v = nil-sublist _

  in_flight-step :
      (p : WritePump A) (e : Event A)
      → IsPump p
      → Allowed p (e ∷ [])
      → length (to_list (step p e).1) + in_flight p ≡ ended (e ∷ []) + in_flight (step p e).0
  unfolding step
  in_flight-step p (sends x) v h = ground arith
  in_flight-step p (completes b) v h = ground arith

  run-IsPump : (p : WritePump A) (es : List (Event A)) → IsPump p → IsPump (run p es).0
  unfolding run
  run-IsPump p [] v = v
  run-IsPump p (e ∷ es) v = run-IsPump (step p e).0 es (step-IsPump p e v)

  run_counted :
      (p : WritePump A) (es : List (Event A))
      → IsPump p
      → Allowed p es
      → length (run p es).1 + in_flight p ≡ ended es + in_flight (run p es).0
  unfolding run
  run_counted p [] v h = refl
  run_counted p (sends x ∷ es) v h = omega (
    arith,
    length-append (to_list (step p (sends x)).1) (run (step p (sends x)).0 es).1,
    in_flight-step p (sends x) v tt,
    run_counted (step p (sends x)).0 es (step-IsPump p (sends x) v) h,
  )
  run_counted p (completes b ∷ es) v h = omega (
    arith,
    length-append (to_list (step p (completes b)).1) (run (step p (completes b)).0 es).1,
    in_flight-step p (completes b) v (h.0, tt),
    run_counted (step p (completes b)).0 es (step-IsPump p (completes b) v) h.1,
  )

  -- Over any history that reports the end of a write only while one is in flight, the writes handed
  -- to `transmit` are those reported as ended and at most one more: the one in flight.
  pub run_single_writer :
      (es : List (Event A))
      → Allowed empty_pump es
      → (length (run empty_pump es).1 ≡ ended es + in_flight (run empty_pump es).0)
        × (in_flight (run empty_pump es).0 ≤ 1)
  run_single_writer es h =
      let counted = run_counted empty_pump es (inl (refl, refl)) h in (omega arith, ground arith)

  splice :
      (sent later tail waiting before new rest : List A)
      → sent ++ waiting ≡ before ++ new
      → later ++ tail ≡ waiting ++ rest
      → (sent ++ later) ++ tail ≡ before ++ (new ++ rest)
  splice sent later tail waiting before new rest one ih =
      append_assoc sent later tail
      ∙ ap (λ l. sent ++ l) ih
      ∙ sym (append_assoc sent waiting rest)
      ∙ ap (λ l. l ++ rest) one
      ∙ append_assoc before new rest

  splice-sublist :
      (sent later tail waiting before new rest : List A)
      → Sublist (sent ++ waiting) (before ++ new)
      → Sublist (later ++ tail) (waiting ++ rest)
      → Sublist ((sent ++ later) ++ tail) (before ++ (new ++ rest))
  splice-sublist sent later tail waiting before new rest one ih =
      rw (append_assoc sent later tail, ← append_assoc before new rest)
        (Sublist.trans (Sublist.append (Sublist.refl sent) ih)
          (rw (append_assoc sent waiting rest) at (Sublist.append one (Sublist.refl rest))))

  run_fifo_from :
      (p : WritePump A) (es : List (Event A))
      → IsPump p
      → AllSucceed es
      → (run p es).1 ++ pop_if_any (run p es).0.queue ≡ pop_if_any p.queue ++ enqueued es
  unfolding run enqueued_by Succeeds
  run_fifo_from p [] v h = sym (append-nil _)
  run_fifo_from p (sends x ∷ es) v h =
      splice (to_list (step p (sends x)).1) (run (step p (sends x)).0 es).1
        (pop_if_any (run (step p (sends x)).0 es).0.queue) (pop_if_any (step p (sends x)).0.queue)
        (pop_if_any p.queue) (enqueued_by (sends x)) (enqueued es) (step-fifo p (sends x) v tt)
        (run_fifo_from (step p (sends x)).0 es (step-IsPump p (sends x) v) h)
  run_fifo_from p (completes b ∷ es) v h =
      splice (to_list (step p (completes b)).1) (run (step p (completes b)).0 es).1
        (pop_if_any (run (step p (completes b)).0 es).0.queue)
        (pop_if_any (step p (completes b)).0.queue) (pop_if_any p.queue) (enqueued_by (completes b))
        (enqueued es) (step-fifo p (completes b) v h.0)
        (run_fifo_from (step p (completes b)).0 es (step-IsPump p (completes b) v) h.1)

  -- While every write succeeds, the writes handed over and those that wait behind the one in flight
  -- are, in order, the payloads that were enqueued.
  pub run_fifo :
      (es : List (Event A))
      → AllSucceed es
      → (run empty_pump es).1 ++ pop_if_any (run empty_pump es).0.queue ≡ enqueued es
  run_fifo es h = run_fifo_from empty_pump es (inl (refl, refl)) h

  run_sublist_from :
      (p : WritePump A) (es : List (Event A))
      → IsPump p
      → Sublist ((run p es).1 ++ pop_if_any (run p es).0.queue) (pop_if_any p.queue ++ enqueued es)
  unfolding run enqueued_by
  run_sublist_from p [] v = rw append-nil (Sublist.refl _)
  run_sublist_from p (sends x ∷ es) v =
      splice-sublist (to_list (step p (sends x)).1) (run (step p (sends x)).0 es).1
        (pop_if_any (run (step p (sends x)).0 es).0.queue) (pop_if_any (step p (sends x)).0.queue)
        (pop_if_any p.queue) (enqueued_by (sends x)) (enqueued es) (step-sublist p (sends x) v)
        (run_sublist_from (step p (sends x)).0 es (step-IsPump p (sends x) v))
  run_sublist_from p (completes b ∷ es) v =
      splice-sublist (to_list (step p (completes b)).1) (run (step p (completes b)).0 es).1
        (pop_if_any (run (step p (completes b)).0 es).0.queue)
        (pop_if_any (step p (completes b)).0.queue) (pop_if_any p.queue) (enqueued_by (completes b))
        (enqueued es) (step-sublist p (completes b) v)
        (run_sublist_from (step p (completes b)).0 es (step-IsPump p (completes b) v))

  -- Over any history, failures included, the writes handed over are payloads that were enqueued, in
  -- their order and none twice.
  pub run_in_order :
      (es : List (Event A))
      → Sublist ((run empty_pump es).1 ++ pop_if_any (run empty_pump es).0.queue) (enqueued es)
  run_in_order es = run_sublist_from empty_pump es (inl (refl, refl))
