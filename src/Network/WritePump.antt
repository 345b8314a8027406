-- ===== src/Network/WritePump.antt =====
-- sources/network/write_pump.hpp and write_pump.cpp. A method runs its critical section and then
-- calls `transmit` at most once, outside of the lock: it returns the new state and the payload that
-- is handed to `transmit`, if any.
pub mod Fifo
use luminousminer.Prelude.{
  Bool, true, false, List, [], ◌∷◌, ◌++◌, Option, none, some, if◌then◌else◌,
}

pub record WritePump {ℓ} (A : Type ℓ) : Type ℓ where
  pub queue : List A
  pub write_in_flight : Bool

module _ {ℓ} {A : Type ℓ} where
  abbrev pub empty_pump : WritePump A
  empty_pump = record { queue = []; write_in_flight = false }

  -- `queue.front()`, undefined in C++ on the empty queue: `none`.
  abbrev pub front : List A → Option A
  front [] = none
  front (x ∷ xs) = some x

  -- `if (false == queue.empty()) queue.pop();`
  abbrev pub pop_if_any : List A → List A
  pop_if_any [] = []
  pop_if_any (x ∷ xs) = xs

  unfoldable pub enqueue : WritePump A → A → WritePump A × Option A
  enqueue p x =
      let queue = p.queue ++ x ∷ [] in
      if p.write_in_flight
      then (record p { queue = queue }, none)
      else (record { queue = queue; write_in_flight = true }, front queue)

  -- What `onComplete` leaves in the queue: a failure drops everything.
  abbrev pub left_after : Bool → List A → List A
  left_after success queue = if success then pop_if_any queue else []

  unfoldable pub go_on : List A → Bool → WritePump A × Option A
  go_on [] in_flight = (record { queue = []; write_in_flight = false }, none)
  go_on (x ∷ xs) in_flight = (record { queue = x ∷ xs; write_in_flight = in_flight }, some x)

  unfoldable pub on_complete : WritePump A → Bool → WritePump A × Option A
  unfolding go_on
  on_complete p success = go_on (left_after success p.queue) p.write_in_flight

-- What the owner of the pump does: it sends, or reports the end of the write in flight.
pub data Event {ℓ} (A : Type ℓ) : Type ℓ where
  sends : A → Event A
  completes : Bool → Event A

module _ {ℓ} {A : Type ℓ} where
  unfoldable pub step : WritePump A → Event A → WritePump A × Option A
  unfolding enqueue on_complete
  step p (sends x) = enqueue p x
  step p (completes success) = on_complete p success

  -- A run of events: the final pump and what was handed to `transmit`, oldest first.
  abbrev pub to_list : Option A → List A
  to_list none = []
  to_list (some x) = x ∷ []

  pub run : WritePump A → List (Event A) → WritePump A × List A
  unfolding step
  run p [] = (p, [])
  run p (e ∷ es) =
      let (q, sent) = step p e in let (r, later) = run q es in (r, to_list sent ++ later)
