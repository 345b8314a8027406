-- ===== src/Stratum.antt =====
-- sources/stratum: the jobs of a pool and the protocol that brings them.
pub mod Stable
pub mod Received
pub mod Handlers
pub mod Pool
pub mod JobInfo
pub mod ExtraNonce
pub mod Host
pub mod Session
pub mod Base
pub mod NewStratum
pub mod Protocol
pub mod SmartMining
