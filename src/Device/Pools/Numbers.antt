-- ===== src/Device/Pools/Numbers.antt =====
-- sources/device/device_manager.cpp: the numbers of the strata, under which the manager keeps the jobs
-- and by which it finds the devices of a pool.
use native.Mathlib.Numerals.{add-one}
use native.Mathlib.Omega.{arith}
use luminousminer.Prelude.{
  ℕ, ◌+◌, ◌≤◌, ◌<◌, ◌≡◌, refl, sym, ap, subst, ◌∙◌, inl, inr, true, false, Bool-cases, none, some,
  Option-cases, List, [], ◌∷◌, ◌==◌, ==_iff, length,
}
use luminousminer.Algo.AlgoType.{Algorithm}
use luminousminer.Stratum.Session.{Stratum}
use luminousminer.Stratum.NewStratum.{new_stratum}
use luminousminer.Device.Pools.{
  Settings, lookup, Pools, contain_stratum, next_count, configure, pool_of, initialize_stratum,
}

-- Each stratum has the number of the strata that were there before it.
unfoldable pub Numbered : List (ℕ × Stratum) → Type 0
Numbered [] = Unit
Numbered ((k, s) ∷ rest) = (s.uuid ≡ length rest) × Numbered rest

pub lookup-head :
    (m k : ℕ) (u s : Stratum) (rest : List (ℕ × Stratum))
    → (m == k) ≡ true
    → lookup k ((m, u) ∷ rest) ≡ some s
    → u.uuid ≡ s.uuid
unfolding lookup
lookup-head m k u s rest hit h =
    let e : some u ≡ some s = rw hit at (h) in
    let found : u ≡ s = ground (arith, e) in ap (λ x. x.uuid) found

pub lookup-tail :
    (m k : ℕ) (u : Stratum) (rest : List (ℕ × Stratum))
    → (m == k) ≡ false
    → lookup k ((m, u) ∷ rest) ≡ lookup k rest
unfolding lookup
lookup-tail m k u rest miss = rw miss refl

pub lookup-below :
    (xs : List (ℕ × Stratum)) (k : ℕ) (s : Stratum)
    → Numbered xs
    → lookup k xs ≡ some s
    → s.uuid < length xs
unfolding Numbered
lookup-below [] k s n h = unfold lookup in ground (arith, h)
lookup-below ((m, u) ∷ rest) k s (at_head, n) h = elim (Bool-cases (m == k)) [
  | inl hit ↦ let same = lookup-head m k u s rest hit h in omega (arith, at_head, same)
  | inr miss ↦
      let below = lookup-below rest k s n (sym (lookup-tail m k u rest miss) ∙ h) in
      omega (arith, below)
]

pub lookup_unique :
    (xs : List (ℕ × Stratum)) (k l : ℕ) (s t : Stratum)
    → Numbered xs
    → lookup k xs ≡ some s
    → lookup l xs ≡ some t
    → s.uuid ≡ t.uuid
    → k ≡ l
unfolding Numbered
lookup_unique [] k l s t n h i same = unfold lookup in ground (arith, h)
lookup_unique ((m, u) ∷ rest) k l s t (at_head, n) h i same = elim (Bool-cases (m == k)) [
  | inl hit ↦ elim (Bool-cases (m == l)) [
    | inl both ↦ sym ((==_iff m k).0 hit) ∙ (==_iff m l).0 both
    | inr miss ↦
        let first = lookup-head m k u s rest hit h in
        let below = lookup-below rest l t n (sym (lookup-tail m l u rest miss) ∙ i) in
        omega (arith, at_head, first, below, same)
  ]
  | inr miss ↦ elim (Bool-cases (m == l)) [
    | inl hit ↦
        let first = lookup-head m l u t rest hit i in
        let below = lookup-below rest k s n (sym (lookup-tail m k u rest miss) ∙ h) in
        omega (arith, at_head, first, below, same)
    | inr neither ↦
        lookup_unique rest k l s t n (sym (lookup-tail m k u rest miss) ∙ h)
          (sym (lookup-tail m l u rest neither) ∙ i) same
  ]
]

-- As long as there is room, the counter is the number of the strata.
unfoldable pub IsPools : Pools → Type 0
unfolding Numbered
IsPools pools =
    Numbered pools.stratums
    × ((length pools.stratums < 100) → pools.stratum_count ≡ length pools.stratums)

-- What is found stays found.
unfoldable pub Extends : Pools → Pools → Type 0
Extends old new =
    (k : ℕ) (s : Stratum) → lookup k old.stratums ≡ some s → lookup k new.stratums ≡ some s

pub next_count-suc : (n : ℕ) → n + 1 < 100 → next_count n ≡ n + 1
unfolding next_count
next_count-suc n h = ground arith

abbrev pub with_pool : ℕ → Stratum → Pools → Pools
with_pool id s pools = record {
  stratum_count = next_count pools.stratum_count;
  stratums = (id, s) ∷ pools.stratums;
}

pub with_pool-Extends :
    (id : ℕ) (s : Stratum) (pools : Pools)
    → lookup id pools.stratums ≡ none
    → Extends pools (with_pool id s pools)
unfolding Extends
with_pool-Extends id s pools new k t found = elim (Bool-cases (id == k)) [
  | inl hit ↦
      let same = (==_iff id k).0 hit in
      let gone : none ≡ some t = sym new ∙ ap (λ x. lookup x pools.stratums) same ∙ found in
      ground (arith, gone)
  | inr miss ↦ lookup-tail id k s pools.stratums miss ∙ found
]

pub with_pool-IsPools :
    (id : ℕ) (s : Stratum) (pools : Pools)
    → s.uuid ≡ pools.stratum_count
    → length pools.stratums < 100
    → IsPools pools
    → IsPools (with_pool id s pools)
unfolding IsPools
with_pool-IsPools id s pools number room (numbered, count) = (
  (number ∙ count room, numbered),
  λ more.
      ap next_count (count room)
      ∙ next_count-suc (length pools.stratums) (omega arith)
      ∙ add-one (length pools.stratums),
)

-- What one more device does to the pools.
unfoldable pub IsNext : Pools → Pools → Type 0
IsNext old new = IsPools new × Extends old new × (length new.stratums ≤ length old.stratums + 1)

pub initialize_stratum-IsNext :
    (config : Settings) (id : ℕ) (algorithm : Algorithm) (old new : Pools)
    → length old.stratums < 100
    → IsPools old
    → initialize_stratum config id algorithm old ≡ some new
    → IsNext old new
unfolding initialize_stratum contain_stratum configure IsNext Extends
initialize_stratum-IsNext config id algorithm old new room p h =
    elim (Option-cases (lookup id old.stratums)) [
      | inr (s, found) ↦
          let e : some old ≡ some new = rw (found, initialize_stratum, contain_stratum) at (h) in
          let same : old ≡ new = ground (arith, e) in
          subst (IsNext old) same (p, λ k t hit. hit, omega arith)
      | inl fresh ↦ elim (Option-cases (new_stratum config.mining.stratum_type algorithm)) [
        | inl failed ↦
            let e = rw (fresh, initialize_stratum, contain_stratum, failed) at (h) in
            ground (arith, e)
        | inr (s, made) ↦
            let pool =
              configure (pool_of config id) algorithm (record s { uuid = old.stratum_count }) in
            let e : some (with_pool id pool old) ≡ some new =
              rw (fresh, initialize_stratum, contain_stratum, made) at (h) in
            let same : with_pool id pool old ≡ new = ground (arith, e) in
            subst (IsNext old) same (
              with_pool-IsPools id pool old refl room p,
              with_pool-Extends id pool old fresh,
              omega arith,
            )
      ]
    ]
