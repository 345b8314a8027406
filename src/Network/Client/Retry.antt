-- ===== src/Network/Client/Retry.antt =====
-- `retryConnect` of sources/network/network.cpp: when it ends, and how.
use luminousminer.Prelude.{
  ℕ, zero, suc, ◌+◌, ◌≤◌, ◌<◌, ◌≡◌, ◌≢◌, ◌⊎◌, refl, Bool, true, false, ◌&&◌, none, some, inl, inr,
  subst, dec_lt, if◌then◌else◌, arith,
}
use luminousminer.Network.Client.{
  passes, Attempt, Config, opened, Client, max_retry_count, disconnect, connect, retry_connect,
  retried,
}
use luminousminer.Network.Client.Login.{
  gets_through, FailsEarly, Succeeds, LoginThrows, at_login, connect_early, connect_through,
  log_in_keeps,
}

-- The client in which a call of `retryConnect` tries again.
abbrev down : Client → Client
down c = disconnect (retried c)

-- The client is connected, with its retries ahead of it, or has given up.
abbrev pub IsConnected : Client → Type 0
IsConnected c = (c.count_retry_connect ≡ 0) × (c.socket ≡ opened)

abbrev pub HasGivenUp : Client → Type 0
HasGivenUp c = (max_retry_count < c.count_retry_connect) × (c.socket ≢ opened)

module _ (config : Config) (world : ℕ → Attempt) where
  abbrev tried : Client → Bool × Client
  tried c = connect config (world c.attempts) (down c)

  retry_over :
      (fuel : ℕ) (c : Client)
      → max_retry_count ≤ c.count_retry_connect
      → retry_connect config world (suc fuel) c ≡ some (down c)
  unfolding retry_connect disconnect
  retry_over fuel c h = ground arith

  retry_tries :
      (fuel : ℕ) (c : Client)
      → c.count_retry_connect < max_retry_count
      → retry_connect config world (suc fuel) c
        ≡ (if (tried c).0 then some (tried c).1 else retry_connect config world fuel (tried c).1)
  unfolding retry_connect disconnect
  retry_tries fuel c h = ground arith

  down_keeps :
      (c : Client)
      → ((down c).count_retry_connect ≡ suc c.count_retry_connect)
        × ((down c).attempts ≡ c.attempts)
        × ((down c).socket ≢ opened)
  unfolding disconnect
  down_keeps c = ground arith

  tried_early :
      (c : Client)
      → FailsEarly config (world c.attempts)
      → ((tried c).0 ≡ false)
        × ((tried c).1.count_retry_connect ≡ suc c.count_retry_connect)
        × ((tried c).1.attempts ≡ suc c.attempts)
  unfolding disconnect
  tried_early c h = grind (arith, connect_early config (world c.attempts) (down c))

  tried_through :
      (c : Client)
      → gets_through config (world c.attempts) ≡ true
      → ((tried c).0 ≡ passes (world c.attempts).login && passes (world c.attempts).listen)
        × IsConnected (tried c).1
        × ((tried c).1.attempts ≡ suc c.attempts)
  unfolding disconnect
  tried_through c h =
      let k = log_in_keeps (world c.attempts) (at_login config (world c.attempts) (down c)) in
      rw (connect_through config (world c.attempts) (down c) h) (k.0, (k.1, k.2), k.3)

  retry_early :
      (fuel : ℕ) (c : Client)
      → c.count_retry_connect < max_retry_count
      → FailsEarly config (world c.attempts)
      → retry_connect config world (suc fuel) c ≡ retry_connect config world fuel (tried c).1
  retry_early fuel c lt h = rw (retry_tries fuel c lt, (tried_early c h).0) refl

  retry_at_once :
      (fuel : ℕ) (c : Client)
      → c.count_retry_connect < max_retry_count
      → Succeeds config (world c.attempts)
      → retry_connect config world (suc fuel) c ≡ some (tried c).1
  retry_at_once fuel c lt h = rw (retry_tries fuel c lt, (tried_through c h.0).0, h.1, h.2) refl

  moved : (P : Attempt → Type 0) (m n : ℕ) → m ≡ n → P (world m) → P (world n)
  moved P m n e = subst (λ i. P (world i)) e

  -- A pool that is away for fewer attempts than are left is come back to: the client then runs on a
  -- new connection, its count is 0, and it has called `connect` once more than the pool was away.
  pub retry_connect_comes_back :
      (k : ℕ) (fuel : ℕ) (c : Client)
      → c.count_retry_connect + k < max_retry_count
      → ((i : ℕ) → i < k → FailsEarly config (world (c.attempts + i)))
      → Succeeds config (world (c.attempts + k))
      → k < fuel
      → (r : Client) × (retry_connect config world fuel c ≡ some r)
        × IsConnected r
        × (r.attempts ≡ c.attempts + suc k)
  retry_connect_comes_back k zero c room early up enough = absurd (omega arith)
  retry_connect_comes_back zero (suc fuel) c room early up enough =
      let now = moved (Succeeds config) (c.attempts + 0) c.attempts (omega arith) up in
      let t = tried_through c now.0 in
      ((tried c).1, retry_at_once fuel c (omega arith) now, t.1, omega (arith, t.2))
  retry_connect_comes_back (suc k) (suc fuel) c room early up enough =
      let first =
        moved (FailsEarly config) (c.attempts + 0) c.attempts (omega arith)
          (early 0 (omega arith)) in
      let t = tried_early c first in
      let (r, ends, here, n) =
        retry_connect_comes_back k fuel (tried c).1 (omega (arith, t.1))
          (λ i lt.
            moved (FailsEarly config) (c.attempts + suc i) _ (omega (arith, t.2))
              (early (suc i) (omega arith)))
          (moved (Succeeds config) (c.attempts + suc k) _ (omega (arith, t.2)) up) (omega arith) in
      (r, rw (retry_early fuel c (omega arith) first) ends, here, omega (arith, t.2, n))

  -- While neither the login of the stratum nor the start of the first read ever throws, `retryConnect`
  -- ends within eleven calls of itself: the client is connected, or it has given up and its socket is
  -- not open.
  pub retry_connect_ends :
      (n : ℕ) (fuel : ℕ) (c : Client)
      → ((i : ℕ) → FailsEarly config (world i) ⊎ Succeeds config (world i))
      → max_retry_count ≤ c.count_retry_connect + n
      → n < fuel
      → (r : Client) × (retry_connect config world fuel c ≡ some r) × (IsConnected r ⊎ HasGivenUp r)
  retry_connect_ends n zero c fates budget enough = absurd (omega arith)
  retry_connect_ends zero (suc fuel) c fates budget enough =
      let d = down_keeps c in
      (down c, retry_over fuel c (omega arith), inr (omega (arith, d.0), d.2))
  retry_connect_ends (suc n) (suc fuel) c fates budget enough =
      elim (dec_lt c.count_retry_connect max_retry_count) [
        | yes lt ↦ elim (fates c.attempts) [
          | inl early ↦
              let t = tried_early c early in
              let (r, ends, fate) =
                retry_connect_ends n fuel (tried c).1 fates (omega (arith, t.1)) (omega arith) in
              (r, rw (retry_early fuel c lt early) ends, fate)
          | inr up ↦ ((tried c).1, retry_at_once fuel c lt up, inl (tried_through c up.0).1)
        ]
        | no over ↦
            let d = down_keeps c in
            (down c, retry_over fuel c (omega arith), inr (omega (arith, d.0), d.2))
      ]

  -- Against a login that throws each time there is no end: the count starts at 0 again before the
  -- login, so the limit on the retries is never met.
  pub retry_connect_endless :
      (fuel : ℕ) (c : Client)
      → c.count_retry_connect < max_retry_count
      → ((i : ℕ) → LoginThrows config (world i))
      → retry_connect config world fuel c ≡ none
  unfolding retry_connect
  retry_connect_endless zero c lt h = refl
  retry_connect_endless (suc fuel) c lt h =
      let up = h c.attempts in
      let t = tried_through c up.0 in
      rw (retry_tries fuel c lt, t.0, up.1)
        (retry_connect_endless fuel (tried c).1 (omega (arith, t.1.0)) h)
