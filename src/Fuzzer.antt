-- ===== src/Fuzzer.antt =====
-- pkg/runner and pkg/options: the command lines and environments of the fuzzers.
pub mod Flags
pub mod LibFuzzer
pub mod Jazzer
pub mod JazzerJs
pub mod LastFlag
pub mod Unique
pub mod EngineArgs
