-- ===== src/Algo.antt =====
-- sources/algo: the pure helpers that the stratum, the resolvers and the devices share.
pub mod AlgoType
pub mod FastMod
pub mod HashUtils
pub mod Epoch
pub mod Prime
pub mod Ethash
pub mod Autolykos
pub mod Crypto
pub mod Keccak
pub mod Keccak800
pub mod ProgPow
pub mod KHeavyHash
