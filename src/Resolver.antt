-- ===== src/Resolver.antt =====
-- sources/resolver: how a device's work is spread.
pub mod ThreadPool
pub mod Base
pub mod Blake3
pub mod Nvidia
