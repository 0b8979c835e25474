-- ===== src/Lib.antt =====
-- Verification of cifuzz, the command line tool that builds and runs fuzz tests (Go).
--
-- The tool runs a fuzzer as a child process: it prepares the environment of that process, reads its
-- output and reports on it. This library models the Go code of that path as functions, and proves
-- what they promise.
--
-- Which file models what (paths from the repository's root):
--   Text, Text/*        Go strings as lists of bytes; what the code uses of Go's strings, strconv,
--                       fmt and bufio packages.
--   Slices, Strings     util/sliceutil, util/stringutil.
--   Env, Env/*          util/envutil: ToMap, LookupEnv, Getenv, Setenv, Copy, AppendToPathList.
--   Runner, Runner/*    pkg/runner/runnerutils.go: sanitizer options, --env flags, library path.
--   Coverage,           pkg/parser/coverage: lcov.go (ParseLCOVFileIntoLCOVReport,
--   Coverage/*          WriteLCOVReportToFile, ParseLCOVReportIntoSummary), summary.go,
--                       and jacoco.go behind the decoding of XML.
--   Regex               util/regexutil, over Go's package regexp for the syntax of the patterns.
--   Parser, Parser/*    the output of a fuzzer, a line at a time. Finding, Report: pkg/finding,
--                       pkg/report. Patterns, Detect, Metric, Sanitizer, ErrorId: how a line becomes
--                       a finding, a metric or an id (pkg/parser/libfuzzer/libfuzzer.go,
--                       pkg/parser/sanitizer, pkg/parser/errorid). State, Startup, Machine: the
--                       parser itself (sendReport, finalizeAndSendPendingFinding, parseLine, Parse).
--                       FirstMatch, Progress, Logs, Pending, Reported, Causes, Failures and the files they
--                       use: proofs.
--                       StackTrace, Frames: pkg/parser/libfuzzer/stacktrace (the patterns,
--                       getJavaSourceFilePath, validateSourceFile, parseStackTrace, Parse); PackageNames,
--                       Traces, TraceShape: proofs. SentTraces: that parser in the output parser.
--   Minijail,           pkg/minijail/output_filter.go: the writer that drops minijail's messages, with
--   Minijail/Writes     the array that its buffer and the printed block may share.
--                       Bindings, Jail: pkg/minijail/minijail.go (Binding.String,
--                       BindingFromString, NewMinijail). BindingTexts, Enclosed: proofs.
--   Handler,            internal/cmd/run/reporthandler/reporthandler.go: Handle and handleFinding on
--   Handler/Findings    the reports of a run; what the user sees is a list of events.
--   Names, Names/*      internal/names: the two tables and GetDeterministicName.
--   Ci, Ci/Detection    pkg/cicheck: CIName as a chain of conditions.
--   Fuzzer, Fuzzer/*    pkg/options (Flags) and the runners of pkg/runner: libfuzzer, jazzer and jazzerjs
--                       (LibFuzzer, Jazzer, JazzerJs: ValidateOptions, the arguments of Run,
--                       FuzzerEnvironment). LastFlag, Unique, EngineArgs: proofs.
--   Store, Store/*      pkg/finding/finding.go: Describe (the descriptions), Details
--                       (EnhanceWithErrorDetails), Save (Save, LoadFinding, Remove), Local
--                       (LocalFindings), CopyInput. RoundTrip, Newest: proofs.
--   Deps, Deps/*        pkg/dependencies: Versions (version.go), Table (definitions.go), Check (deps.go).
--   Bundler, Bundler/*  internal/bundler/opts.go (Validate), internal/cmdutils/validate.go and bazel.go.
--   Tests, Tests/*      runs at concrete inputs, and the theorems at concrete inputs.
--
-- Conventions. A Go slice is a list and a struct a record; a function that may fail returns a
-- Result, and a panic is none. Go's int is an integer with wrap-around at 64 bits (Base/Int). Go
-- does not fix the order in which it visits a map: that order is an argument. Text is bytes,
-- separators are those of Unix. The scanner keeps Go's limit of 64 KiB for one line. Files are
-- reached through a record that says which opens and writes succeed. The output parser takes its
-- environment as a record of functions (Parser.State.World): the colour filter of pterm, the
-- reading of a test input, the writer for the startup output, the cancelling of the context before
-- the n-th report, and the stack trace parser. What goes into the channel of reports is a list.
--
-- Fuel: Strings.chunks_loop takes at least one byte a round, so the length of the text is enough;
-- Text.Decimal.digits_of takes a digit off a round, so a fuel above the number is enough.
--
-- Parser.StackTrace.source_file_in makes a package name shorter in each round, so its length is enough;
-- out of fuel the parser would return the error endless_search, which the program does not have.
-- File systems, JSON, locks, semver and the outputs of commands are records of functions
-- (Minijail.Jail.Machine, Store.Files, Fuzzer.LibFuzzer.Platform, Deps.Versions.Tools).
--
-- Not modelled: building, the writing of bundles, and the container and API clients (processes, network and
-- files), command line parsing, dialogs and logging, and third-party code.
mod Base
pub mod Text
pub mod Slices
pub mod Strings
pub mod Env
pub mod Runner
pub mod Coverage
pub mod Regex
pub mod Parser
pub mod Minijail
pub mod Handler
pub mod Names
pub mod Ci
pub mod Fuzzer
pub mod Store
pub mod Deps
pub mod Bundler
mod Tests
