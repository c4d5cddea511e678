-- ===== src/Initializer.antt =====
-- initializer: runs the tests of a suite in parallel, each in a Docker network of its own.
pub mod TestParams
pub mod LogWriter
pub mod OutputLines
pub mod OutputManager
pub mod Parallelizer
pub mod EnvVars
pub mod SuiteRunner
pub mod TestExecutor
mod Tests
