-- ===== src/Algo/Ethash/Shares.antt =====
-- `build` and `free` of sources/algo/ethash/ethash.cpp: the users of a shared context.
use native.Mathlib.Omega.{arith}
use luminousminer.Prelude.{
  ℕ_discrete, ℕ, suc, ◌+◌, ◌^◌, ◌<◌, ◌≡◌, refl, true, false, none, some, ◌==◌, replicate,
}
use luminousminer.Prelude.Int.{negsuc}
use luminousminer.Prelude.Word.{u32, sub32}
use luminousminer.Algo.Ethash.{DagContext, DagContextShare, DagSettings, build, finish_build, free}

-- A share that no call has touched.
abbrev pub empty_share : DagContextShare
empty_share = record {
  count = 0;
  context = record {
    light_cache = none;
    epoch = negsuc 0;
    light_items = 0;
    light_size = 0;
    dag_items = 0;
    dag_size = 0;
    hashed_seed = replicate 64 0;
  };
}

-- The shares that calls of `build` and `free` lead to, with the number of builds that wait for their
-- free.
pub data Uses : ℕ → DagContextShare → Type 0 where
  fresh : Uses 0 empty_share
  built :
      {n : ℕ} {s next : DagContextShare} (settings : DagSettings) (mine c : DagContext) (epoch : ℕ)
      → Uses n s
      → suc n < 2 ^ 32
      → build settings mine epoch s ≡ some (c, next)
      → Uses (suc n) next
  freed : {n : ℕ} {s : DagContextShare} → Uses (suc n) s → Uses n (free s)

finish_build-count :
    (settings : DagSettings) (mine c : DagContext) (l d : ℕ) (share next : DagContextShare)
    → finish_build settings mine l d share ≡ some (c, next)
    → next.count ≡ share.count
unfolding finish_build
finish_build-count settings mine c l d share next h = ground (arith, h)

build-count :
    (settings : DagSettings) (mine c : DagContext) (epoch : ℕ) (share next : DagContextShare)
    → build settings mine epoch share ≡ some (c, next)
    → next.count ≡ u32 (share.count + 1)
unfolding build
build-count settings mine c epoch share next h = grind (arith, finish_build-count, h)

pub record IsShared (users : ℕ) (share : DagContextShare) : Type 0 where
  pub counted : share.count ≡ users
  pub released : users ≡ 0 → (share.context.light_cache ≡ none) × (share.context.epoch ≡ negsuc 0)

sub_one : (n : ℕ) → suc n < 2 ^ 32 → sub32 (suc n) 1 ≡ n
sub_one n h = omega arith

free-IsShared :
    (n : ℕ) (s : DagContextShare) → suc n < 2 ^ 32 → s.count ≡ suc n → IsShared n (free s)
unfolding free
free-IsShared n s few h = elim (ℕ_discrete n 0) [
  | yes last ↦
      let test : (sub32 s.count 1 == 0) ≡ true = ground (arith, h, last) in
      rw test (record { counted = omega (arith, h, few); released = λ e. (refl, refl) })
  | no more ↦
      let test : (sub32 s.count 1 == 0) ≡ false = ground (arith, h, more, few) in
      rw test (record { counted = omega (arith, h, few); released = λ e. absurd (more e) })
]

Uses-bound : {n : ℕ} {s : DagContextShare} → Uses n s → n < 2 ^ 32
Uses-bound fresh = omega arith
Uses-bound (built settings mine c epoch u few h) = few
Uses-bound (freed u) = let b = Uses-bound u in omega (arith, b)

shared : {n : ℕ} {s : DagContextShare} → Uses n s → IsShared n s
shared fresh = record { counted = refl; released = λ e. (refl, refl) }
shared (built {n} {s} settings mine c epoch u few h) =
    let before = (shared u).counted in
    let after = build-count settings mine c epoch s _ h in
    record {
      counted = omega (arith, before, after, few);
      released = λ e. absurd (omega (arith, e));
    }
shared (freed {n} {s} u) = free-IsShared n s (Uses-bound u) (shared u).counted

kept :
    {n : ℕ} (s : DagContextShare) → s.count ≡ n → n < 2 ^ 32 → 1 < n → (free s).context ≡ s.context
unfolding free
kept s h few more =
    let test : (sub32 s.count 1 == 0) ≡ false = ground (arith, h, more, few) in rw test refl

-- Whatever builds and frees happened, with no free but for a build and fewer than 2 ^ 32 users: the count
-- is the number of builds that wait for their free, and when there is none, the cache is deleted and the
-- epoch forgotten. While another user is left, a free leaves the context as it is.
pub Uses-IsShared :
    {n : ℕ} {s : DagContextShare} → Uses n s → IsShared n s × (1 < n → (free s).context ≡ s.context)
Uses-IsShared u = (shared u, kept _ (shared u).counted (Uses-bound u))
