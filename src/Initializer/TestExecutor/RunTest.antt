-- ===== src/Initializer/TestExecutor/RunTest.antt =====
-- runTest of initializer/parallelism/test_executor.go: the test's goroutine against its timeouts.
use zz_deprecated_kurtosis.Base.{Bool, Option, some, failed, Result, err, Site}
use zz_deprecated_kurtosis.Initializer.TestExecutor.{Engine, TestExecutor, run_test_goroutine}

-- What the two selects see: the goroutine's result in time; or its result only after the context
-- was cancelled, or not even within the grace time, with the world as it then is.
pub data Race (W : Type 0) : Type 0 where
  in_time : Race W
  after_cancellation lost : W → Race W

-- `none`: the goroutine does not return.
unfoldable pub run_test :
    {W : Type 0} → Engine W → TestExecutor → Race W → W → Option (Result Bool × W)
run_test engine executor in_time w = run_test_goroutine engine executor w
run_test engine executor (after_cancellation v) w = some (err (failed Site.total_timeout), v)
run_test engine executor (lost v) w = some (err (failed Site.total_timeout), v)
