-- ===== src/Stratum/Protocol.antt =====
-- The protocols of sources/stratum: each is a table of handlers over the base class.
pub mod Ethash
pub mod KHeavyHash
pub mod ProgPow
pub mod Sha256
pub mod Autolykos
pub mod Blake3
