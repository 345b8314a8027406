-- ===== src/Tests/Stratum.antt =====
-- sources/stratum at concrete inputs.
use luminousminer.Prelude.{◌≡◌, refl, List, [], ◌∷◌}
use luminousminer.Prelude.Text.{Text, codes}
use luminousminer.Stratum.Session.{ethproxy, Stratum, World}
use luminousminer.Stratum.Stable.{receive_all}
use luminousminer.Algo.AlgoType.{kawpow}
use luminousminer.Stratum.Handlers.{asks_for_work, handlers_of}
use luminousminer.Stratum.Received.{IsSession}
use luminousminer.Stratum.Pool.{pool_lets_out}
use luminousminer.Algo.HashUtils.{is_hash_empty}
use luminousminer.Stratum.Protocol.Sha256
use luminousminer.Stratum.Protocol.Sha256.NoBoundary.{jobs_of}
use luminousminer.Stratum.Protocol.Sha256.Idle.{sha256_never_dispatches}
use luminousminer.Stratum.Protocol.ProgPow
use luminousminer.Stratum.Protocol.ProgPow.Epoch as Variants
use luminousminer.Tests.Concrete.{Json, small_host, small_stratum, small_world}

abbrev pool_messages : List Text
pool_messages =
    codes "login" ∷ codes "nonce" ∷ codes "target" ∷ codes "notify" ∷ codes "garbage" ∷ []

sha256_never_dispatches_example :
    jobs_of (receive_all small_host (Sha256.handlers small_host) pool_messages small_world).effects
    ≡ jobs_of small_world.effects
sha256_never_dispatches_example =
    sha256_never_dispatches small_host pool_messages small_world (unfold is_hash_empty in refl)

abbrev proxy_stratum : Stratum
proxy_stratum = record small_stratum { stratum_type = ethproxy }

abbrev proxy_world : World Json
proxy_world = record { stratum = proxy_stratum; effects = [] }

proxy-IsSession : IsSession (asks_for_work kawpow) proxy_stratum proxy_world
unfolding IsSession asks_for_work
proxy-IsSession = (refl, tt)

pool_lets_out_example : IsSession (asks_for_work kawpow) proxy_stratum (
    receive_all small_host
      (ProgPow.handlers small_host Variants.kawpow)
      (codes "proxy" ∷ pool_messages)
      proxy_world)
pool_lets_out_example =
    pool_lets_out small_host kawpow (ProgPow.handlers small_host Variants.kawpow) proxy_stratum
      (codes "proxy" ∷ pool_messages) proxy_world (unfold handlers_of in refl) proxy-IsSession
