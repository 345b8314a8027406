-- ===== src/Tests/Network.antt =====
-- sources/network/write_pump.cpp at concrete inputs.
use mathlib.Core.List.{Sublist}
use luminousminer.Prelude.{ℕ, ◌+◌, ◌≤◌, ◌≡◌, refl, true, false, List, [], ◌∷◌, ◌++◌, inl, length}
use luminousminer.Network.WritePump.{
  Event, sends, completes, empty_pump, pop_if_any, enqueue, go_on, on_complete, step, run,
}
use luminousminer.Network.WritePump.Fifo.{
  IsPump, enqueued, ended, in_flight, step-IsPump, run_single_writer, run_in_order,
}

abbrev two_writes : List (Event ℕ)
two_writes = sends 5 ∷ sends 6 ∷ completes true ∷ sends 7 ∷ completes true ∷ []

abbrev one_fails : List (Event ℕ)
one_fails = sends 5 ∷ sends 6 ∷ completes false ∷ sends 7 ∷ []

step-IsPump_example : IsPump {A = ℕ} (step empty_pump (sends 5)).0
step-IsPump_example = step-IsPump empty_pump (sends 5) (inl (refl, refl))

run_single_writer_example :
    (length (run empty_pump two_writes).1
      ≡ ended two_writes + in_flight (run empty_pump two_writes).0)
    × (in_flight (run empty_pump two_writes).0 ≤ 1)
run_single_writer_example =
    run_single_writer two_writes (unfold step enqueue on_complete go_on in (refl, (refl, tt)))

run_in_order_example :
    Sublist
      ((run empty_pump one_fails).1 ++ pop_if_any (run empty_pump one_fails).0.queue)
      (enqueued one_fails)
run_in_order_example = run_in_order one_fails
