-- ===== src/Tests.antt =====
-- Runs of the definitions, and the theorems at concrete inputs.
mod Client
mod Concrete
mod Algo
mod Network
mod Matrix
mod Sequence
mod SmartMining
mod Stratum
mod Device
mod Nvidia
mod Pools
mod Resolver
mod Kernels
mod Blake3
