-- ===== src/Stratum/Pool.antt =====
-- What the sessions of all algorithms let out, whatever messages a pool sends.
use luminousminer.Prelude.{◌≡◌, subst, true, false, Option, none, some, List}
use luminousminer.Prelude.Text.{Text}
use luminousminer.Algo.AlgoType.{
  Algorithm, unknown, sha256, ethash, etchash, progpow, progpowquai, progpowz, kawpow, meowpow,
  firopow, evrprogpow, autolykos_v2, blake3, kheavyhash,
}
use luminousminer.Stratum.Host.{Host}
use luminousminer.Stratum.Session.{Stratum, World}
use luminousminer.Stratum.Base.{Handlers}
use luminousminer.Stratum.Stable.{KeepsAll, receive_all, receive_all-keeps}
use luminousminer.Stratum.Received.{IsSession, IsSession-IsStable, IsSession-IsStableMore}
use luminousminer.Stratum.Handlers.{asks_for_work, handlers_of}
use luminousminer.Stratum.Protocol.Ethash.Stable as EthashStable
use luminousminer.Stratum.Protocol.KHeavyHash.Stable as KHeavyHashStable
use luminousminer.Stratum.Protocol.Blake3.Stable as Blake3Stable
use luminousminer.Stratum.Protocol.Sha256.Stable as Sha256Stable
use luminousminer.Stratum.Protocol.Autolykos.Stable as AutolykosStable
use luminousminer.Stratum.Protocol.ProgPow
use luminousminer.Stratum.Protocol.ProgPow.Epoch as Variants
use luminousminer.Stratum.Protocol.ProgPow.Stable as ProgPowStable

module _ (H : Host) (s : Stratum) where
  open H use {Value}

  -- Each handler of the class, if there is one, keeps a session in order.
  abbrev pub IsKept : Algorithm → Option (Handlers Value) → Type 0
  IsKept a none = Unit
  IsKept a (some h) = KeepsAll (IsSession (asks_for_work a) s) h

  progpow-KeepsAll : (v : Variants.Variant) → KeepsAll (IsSession true s) (ProgPow.handlers H v)
  progpow-KeepsAll v =
      ProgPowStable.handlers-KeepsAll H v (IsSession true s) (IsSession-IsStable true s)
        (IsSession-IsStableMore s)

  pub handlers_of-IsKept : (a : Algorithm) → IsKept a (handlers_of H a)
  unfolding handlers_of asks_for_work
  handlers_of-IsKept unknown = tt
  handlers_of-IsKept sha256 =
      Sha256Stable.handlers-KeepsAll H (IsSession false s) (IsSession-IsStable false s)
  handlers_of-IsKept ethash =
      EthashStable.handlers-KeepsAll H (IsSession false s) (IsSession-IsStable false s)
  handlers_of-IsKept etchash =
      EthashStable.handlers-KeepsAll H (IsSession false s) (IsSession-IsStable false s)
  handlers_of-IsKept progpow = progpow-KeepsAll Variants.progpow
  handlers_of-IsKept progpowquai = progpow-KeepsAll Variants.progpow_quai
  handlers_of-IsKept progpowz = progpow-KeepsAll Variants.progpow_z
  handlers_of-IsKept kawpow = progpow-KeepsAll Variants.kawpow
  handlers_of-IsKept meowpow = progpow-KeepsAll Variants.meowpow
  handlers_of-IsKept firopow = progpow-KeepsAll Variants.firopow
  handlers_of-IsKept evrprogpow = progpow-KeepsAll Variants.evrprogpow
  handlers_of-IsKept autolykos_v2 =
      AutolykosStable.handlers-KeepsAll H (IsSession false s) (IsSession-IsStable false s)
  handlers_of-IsKept blake3 =
      Blake3Stable.handlers-KeepsAll H (IsSession false s) (IsSession-IsStable false s)
  handlers_of-IsKept kheavyhash =
      KHeavyHashStable.handlers-KeepsAll H (IsSession false s) (IsSession-IsStable false s)

-- For every algorithm with a class, from a start that is in order, and whatever messages a pool sends: the
-- session lets out its own login, valid jobs and replies to shares only, and for ProgPow and its
-- variants requests for work and the start of the loop, the jobs and replies under its own number and
-- while their callbacks are set, and its identity stays the same.
pub pool_lets_out :
    (H : Host) (a : Algorithm) (h : Handlers H.Value) (s : Stratum) (messages : List Text)
    (w : World H.Value)
    → handlers_of H a ≡ some h
    → IsSession (asks_for_work a) s w
    → IsSession (asks_for_work a) s (receive_all H h messages w)
pool_lets_out H a h s messages w made start =
    receive_all-keeps H (IsSession (asks_for_work a) s) h
      (subst (IsKept H s a) made (handlers_of-IsKept H s a)) messages w start
