-- ===== src/Algo/KHeavyHash.antt =====
-- sources/algo/kheavyhash: the arithmetic of the kHeavyHash jobs.
pub mod Matrix
pub mod StratumMath
