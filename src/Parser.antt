-- ===== src/Parser.antt =====
-- pkg/parser: the output of a fuzzer, line by line.
pub mod Finding
pub mod Report
pub mod Patterns
pub mod Sanitizer
pub mod ErrorId
pub mod Detect
pub mod Metric
pub mod StackTrace
pub mod PackageNames
pub mod Frames
pub mod Traces
pub mod TraceShape
pub mod State
pub mod Startup
pub mod Machine
pub mod FirstMatch
pub mod Progress
pub mod Logs
pub mod Induction
pub mod Pending
pub mod Accounting
pub mod Ledger
pub mod LedgerLines
pub mod Reported
pub mod SentTraces
pub mod Follows
pub mod Causes
pub mod Failures
