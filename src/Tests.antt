-- ===== src/Tests.antt =====
-- Tests and instances of the theorems at concrete inputs.
mod EnvTests
mod RunnerTests
mod UtilTests
mod CoverageTests
mod JacocoTests
mod ParserTests
mod TraceTests
mod NamesTests
mod JailTests
mod FuzzerTests
mod StoreTests
mod DepsTests
mod BundlerTests
mod MinijailTests
mod HandlerTests
