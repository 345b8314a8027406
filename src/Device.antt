-- ===== src/Device.antt =====
-- sources/device and sources/statistical: the devices and what the manager hands to them.
pub mod AtomicCounter
pub mod Chrono
pub mod Statistical
pub mod Worker
pub mod Manager
pub mod Pools
