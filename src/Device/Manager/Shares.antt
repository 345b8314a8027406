-- ===== src/Device/Manager/Shares.antt =====
-- sources/device/device_manager.cpp: `onShareStatus`. The number of a request is the device's, so the
-- reply of the pool finds the device that sent the share.
use luminousminer.Prelude.{ℕ, ◌≡◌, Option, some, List, get_elem?}
use luminousminer.Device.Statistical.{Doubles}
use luminousminer.Device.Worker.{Device}

module _ (D : Doubles) where
  abbrev pub IsDevice : List (Option (Device D)) → ℕ → Device D → Type 0
  IsDevice ds i d = get_elem? ds i ≡ some (some d)
