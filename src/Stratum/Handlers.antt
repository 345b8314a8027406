-- ===== src/Stratum/Handlers.antt =====
-- The class that sources/stratum/stratums.cpp makes for each algorithm, as its table of handlers.
use luminousminer.Prelude.{Bool, true, false, Option, none, some}
use luminousminer.Algo.AlgoType.{
  Algorithm, unknown, sha256, ethash, etchash, progpow, progpowquai, progpowz, kawpow, meowpow,
  firopow, evrprogpow, autolykos_v2, blake3, kheavyhash,
}
use luminousminer.Stratum.Host.{Host}
use luminousminer.Stratum.Base.{Handlers}
use luminousminer.Stratum.Protocol.Ethash
use luminousminer.Stratum.Protocol.KHeavyHash
use luminousminer.Stratum.Protocol.Blake3
use luminousminer.Stratum.Protocol.Sha256
use luminousminer.Stratum.Protocol.Autolykos
use luminousminer.Stratum.Protocol.ProgPow
use luminousminer.Stratum.Protocol.ProgPow.Epoch as Variants

-- Whether the class asks for work and starts the loop of `doLoopTimeout`: ProgPow and its variants do.
unfoldable pub asks_for_work : Algorithm → Bool
asks_for_work progpow = true
asks_for_work progpowquai = true
asks_for_work progpowz = true
asks_for_work kawpow = true
asks_for_work meowpow = true
asks_for_work firopow = true
asks_for_work evrprogpow = true
asks_for_work _ = false

-- No class is made for the unknown algorithm.
unfoldable pub handlers_of : (H : Host) → Algorithm → Option (Handlers H.Value)
handlers_of H sha256 = some (Sha256.handlers H)
handlers_of H ethash = some (Ethash.handlers H)
handlers_of H etchash = some (Ethash.handlers H)
handlers_of H progpow = some (ProgPow.handlers H Variants.progpow)
handlers_of H progpowquai = some (ProgPow.handlers H Variants.progpow_quai)
handlers_of H progpowz = some (ProgPow.handlers H Variants.progpow_z)
handlers_of H kawpow = some (ProgPow.handlers H Variants.kawpow)
handlers_of H meowpow = some (ProgPow.handlers H Variants.meowpow)
handlers_of H firopow = some (ProgPow.handlers H Variants.firopow)
handlers_of H evrprogpow = some (ProgPow.handlers H Variants.evrprogpow)
handlers_of H autolykos_v2 = some (Autolykos.handlers H)
handlers_of H blake3 = some (Blake3.handlers H)
handlers_of H kheavyhash = some (KHeavyHash.handlers H)
handlers_of H unknown = none
