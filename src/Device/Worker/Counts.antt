-- ===== src/Device/Worker/Counts.antt =====
-- sources/common/atomic_counter.hpp, as `Device::AtomicSynchronizer` of sources/device/device.hpp
-- uses it: what was counted and what was taken over.
use native.Mathlib.Omega.{arith}
use luminousminer.Prelude.{
  ℕ, ◌+◌, ◌^◌, ◌≤◌, ◌<◌, ◌≡◌, refl, sym, Bool, true, false, not, ◌&&◌, ◌||◌,
}
use luminousminer.Device.AtomicCounter
use luminousminer.Device.AtomicCounter.{AtomicCounter}
use luminousminer.Device.Worker.{add_if}

-- A counter that was raised at most `n` times, and is behind by what is not yet taken over.
unfoldable pub IsCount : ℕ → AtomicCounter → Type 0
IsCount n c = (c.last ≤ c.current) × (c.current ≤ n)

pub IsCount-weaken : (n : ℕ) (c : AtomicCounter) → IsCount n c → IsCount (n + 1) c
unfolding IsCount
IsCount-weaken n c (a, b) = (a, omega arith)

pub IsCount-update :
    (n : ℕ) (c : AtomicCounter) → IsCount n c → IsCount n (AtomicCounter.update c.current c)
unfolding IsCount AtomicCounter.update
IsCount-update n c (a, b) = (omega arith, b)

pub IsCount-seen :
    (n seen : ℕ) (c : AtomicCounter)
    → seen ≤ c.current
    → IsCount n c
    → IsCount n (AtomicCounter.update seen c)
unfolding IsCount AtomicCounter.update
IsCount-seen n seen c h (a, b) = (h, b)

pub IsCount-add :
    (n : ℕ) (c : AtomicCounter)
    → n + 1 < 2 ^ 64
    → IsCount n c
    → IsCount (n + 1) (AtomicCounter.add 1 c)
unfolding IsCount AtomicCounter.add
IsCount-add n c h (a, b) = (omega arith, omega arith)

pub add-pending :
    (n : ℕ) (c : AtomicCounter)
    → n + 1 < 2 ^ 64
    → IsCount n c
    → AtomicCounter.is_equal (AtomicCounter.add 1 c) ≡ false
unfolding IsCount AtomicCounter.add AtomicCounter.is_equal
add-pending n c h (a, b) = ground arith

pub IsCount-add_if :
    (n : ℕ) (b : Bool) (c : AtomicCounter)
    → n + 1 < 2 ^ 64
    → IsCount n c
    → IsCount (n + 1) (add_if b c)
IsCount-add_if n true c h k = IsCount-add n c h k
IsCount-add_if n false c h k = IsCount-weaken n c k

pub update-is_equal :
    (c : AtomicCounter) → AtomicCounter.is_equal (AtomicCounter.update c.current c) ≡ true
unfolding AtomicCounter.update AtomicCounter.is_equal
update-is_equal c = ground arith

pub add_if-pending :
    (n : ℕ) (memory constants : Bool) (c m : AtomicCounter)
    → (memory || constants) ≡ true
    → n + 1 < 2 ^ 64
    → IsCount n c
    → IsCount n m
    → (AtomicCounter.is_equal (add_if constants c) && AtomicCounter.is_equal (add_if memory m))
      ≡ false
add_if-pending n memory true c m hit h k l = rw (add-pending n c h k) refl
add_if-pending n true false c m hit h k l = rw (add-pending n m h l) ground arith
add_if-pending n false false c m hit h k l = ground (arith, hit)

pub not_pending :
    (job constant memory : Bool)
    → (not (not job) || not (not constant) && not (not memory)) ≡ true
    → ((job ≡ false) → (constant && memory) ≡ false)
    → job ≡ true
not_pending true constant memory h pending = refl
not_pending false true true h pending = sym (pending refl)
not_pending false true false h pending = h
not_pending false false memory h pending = h

pub all_pending :
    (job constant memory : Bool)
    → job ≡ false
    → (constant && memory) ≡ false
    → (not (not job) || not (not constant) && not (not memory)) ≡ false
all_pending true constant memory h k = h
all_pending false true true h k = k
all_pending false true false h k = refl
all_pending false false memory h k = refl
