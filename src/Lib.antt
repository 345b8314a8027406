-- ===== src/Lib.antt =====
-- luminousminer: a miner that takes jobs from pools, searches nonces on many devices and sends shares.
--
-- The parts and how they interact:
--   * A pool's messages reach `Stratum::onReceive`. A protocol's handlers read them into the job of the
--     session, log in, report the pool's replies to shares and hand valid jobs on.
--   * `DeviceManager::onUpdateJob` shares the gap of a job among the devices and hands it to those of
--     the pool; `onShareStatus` finds the device whose share was answered.
--   * Each device runs a loop on its own thread: it takes the newest job over, launches its kernel and
--     moves its nonce on. The CPU kernel spreads a batch over a thread pool.
--   * Requests leave through the write pump, one write at a time.
--
-- The files:
--   * Prelude: Boolean tests and lists over the native numbers, machine words as remainders, texts as
--     lists of codes with std::stoul and std::strtoull, and their lemmas.
--   * Algo/AlgoType, FastMod, HashUtils, Epoch, KHeavyHash/StratumMath: sources/algo/algo_type.cpp,
--     fast_mod.cpp, hash_utils.cpp and .hpp, `findEpoch` of ethash/ethash.cpp, and
--     kheavyhash/stratum_math.cpp.
--   * Algo/KHeavyHash/Matrix: sources/algo/kheavyhash/matrix.cpp and xoshiro.hpp; the rank is over a parameter
--     for double.
--   * Network/WritePump: sources/network/write_pump.cpp. A call returns the new pump and what it hands to
--     `transmit`; a history is a list of events.
--   * Network/Client and Network/Callback: sources/network/network.cpp and network_callback.cpp, on Linux. What
--     boost::asio answers in one call of `connect` is an attempt; `retryConnect` meets a stream of them.
--     Client/Login says how far an attempt comes.
--   * Stratum/JobInfo, ExtraNonce, Session, Base, NewStratum: sources/stratum/job_info.cpp, stratum.cpp and
--     stratums.cpp. Session has the state of a stratum and a state monad with exceptions and a trace of
--     effects; an exception keeps what was done before it, as `onReceive` does. Stratum/Host is what the
--     code takes from outside: boost::json, double, keccak, and the difficulty over boost::multiprecision.
--   * Stratum/Protocol/Ethash, KHeavyHash, Blake3, ProgPow, Sha256, Autolykos: the files of these names
--     under sources/stratum, ProgPow with those of its variants. Its random numbers are a stream in the
--     session. Virtual functions are the fields of `Handlers`.
--   * Stratum/Handlers: the choice of sources/stratum/stratums.cpp among them; Stratum/Pool: what holds
--     for all of them.
--   * Stratum/SmartMining: sources/stratum/smart_mining.cpp, which makes and holds the stratum of the algorithm
--     that is announced to it; SmartMining/Messages has the handlers.
--   * Stratum/Session/Keeps, Stable and Received: properties of a session that every handler keeps, stated
--     once for each way in which the code changes the session.
--   * Device/AtomicCounter, Chrono, Statistical: sources/common/atomic_counter.hpp, chrono.cpp and
--     sources/statistical/statistical.cpp. Times are arguments, double is a parameter.
--   * Device/Worker: sources/device/device.cpp. The resolver's answers are a parameter; `pass` is one round
--     of the `while` of `loopDoWork`; Worker/Search runs it among the other threads' calls, each as a whole,
--     and Worker/Interleaved has the steps of an `update` and of `updateJob` between each other.
--   * Device/Manager and Device/Pools: sources/device/device_manager.cpp.
--   * Resolver/ThreadPool: sources/resolver/cpu/thread_pool.cpp, as atomic steps of the workers in any order.
--   * Resolver/Base and Resolver/Blake3: sources/resolver/resolver.cpp and sources/resolver/cpu/blake3.cpp.
--     The workers of the pool take turns at the result of a batch under its mutex, so a batch is scanned in
--     an order that is an argument. Blake3/Found puts the slices of the pool and the scan of a batch
--     together; Blake3/Label puts the passes of the device around them.
--   * Resolver/Nvidia, Nvidia/Blake3 and Nvidia/KHeavyHash: sources/resolver/nvidia/nvidia.cpp, blake3.cpp and
--     kheavyhash.cpp. A kernel is a parameter and runs where its stream is synchronized.
--   * Algo/Autolykos and HashUtils/Decimal: sources/algo/autolykos/autolykos.cpp and the conversions of
--     hash_utils.hpp that the boundary of that protocol takes.
--   * Algo/Prime, Crypto, ProgPow: sources/algo/math.cpp, crypto/fnv1.cpp, crypto/kiss99.cpp and
--     progpow/progpow.cpp.
--   * Algo/ProgPow/Writers, Variants, KernelSource: the writers of the random kernels in
--     sources/algo/progpow/kernel_cuda.cpp, kernel_opencl.cpp, kawpow.cpp, firopow.cpp, meowpow.cpp,
--     evrprogpow.cpp and progpow_quai.cpp, as the text that they write. ProgPow/Program has the program on
--     registers that the text spells, apart from any text.
--   * Algo/Keccak, Keccak/Sponge, Keccak800: sources/algo/keccak.hpp, keccak.cpp and rol.hpp.
--     Keccak/Reference has the rounds that both permutations are held against.
--   * Algo/Ethash: the contexts of sources/algo/ethash/ethash.cpp, which devices share. Ethash/Cache has the
--     light cache as the specification of Ethash gives it.
--   * Tests: runs at concrete inputs.
--
-- Bounds and fuel. The loop of `fastMod` runs on fuel above the value, which is enough since each round
-- takes off at least 1. `isOddPrime` and `largestPrime` run on fuel that is shown to suffice.
-- `findEpoch` runs over the epochs up to its maximum. `retryConnect` runs on fuel, and eleven is enough
-- unless the login or the start of the first read throws. All other loops follow a list or a count, or
-- have the length of the input or the number of limbs as fuel. Machine integers are natural numbers with their wrap written out; on an
-- uint64_t the theorems that need it name the bound.
--
-- Not modelled: the kernels of the GPUs and the host code of the other GPU resolvers; ProgPow, Autolykos
-- and kHeavyHash on the CPU; the search for devices by CUDA and OpenCL; the threads of boost::asio; the
-- reading of the configuration, the command line, the log and the dashboard; the benchmark, the profiler
-- and the api, which are tools around the miner; and the copies of a SOCKS5 client and of blake3, which
-- are other projects' code.
pub mod Prelude
pub mod Algo
pub mod Network
pub mod Stratum
pub mod Device
pub mod Resolver
pub mod Tests
