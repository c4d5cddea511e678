-- ===== src/Initializer/TestExecutor/Timeouts.antt =====
-- runTest of initializer/parallelism/test_executor.go by the clock: the timeouts of the test, and
-- which of its selects' cases they let come first. A time.Duration is an int64 of nanoseconds, here
-- its 64 bits.
use zz_deprecated_kurtosis.Base.{
  ℕ, ◌+◌, ◌*◌, ◌^◌, ◌%◌, ◌≤◌, ◌<◌, ◌≡◌, refl, subst, some-inj, Bool, ltb, Option, some,
  if◌then◌else◌, arith, failed, Result, err, Site,
}
use zz_deprecated_kurtosis.Initializer.TestExecutor.{Engine, TestExecutor, run_test_goroutine}
use zz_deprecated_kurtosis.Initializer.TestExecutor.RunTest.{
  Race, in_time, after_cancellation, lost, run_test,
}

-- GetExecutionTimeout and GetSetupBuffer of the test.
pub record Timeouts : Type 0 where
  pub get_execution_timeout : ℕ
  pub get_setup_buffer : ℕ

-- The sum on int64.
unfoldable pub total_timeout : Timeouts → ℕ
total_timeout test = (test.get_execution_timeout + test.get_setup_buffer) % 2 ^ 64

-- When time.After fires: at once for a duration that is negative.
abbrev pub fires_after : ℕ → ℕ
fires_after duration = if ltb duration (2 ^ 63) then duration else 0

-- networkTeardownGraceTime, 60 seconds
abbrev pub network_teardown_grace_time : ℕ
network_teardown_grace_time = 60 * 10 ^ 9

-- The outcomes of the selects for a goroutine that ends at the time `finish`, if it ends. When a
-- result and a timeout come at the same instant, a select may take either.
pub data RaceAt {W : Type 0} (test : Timeouts) (finish : Option ℕ) : Race W → Type 0 where
  result_first :
      (time : ℕ)
      → finish ≡ some time
      → time ≤ fires_after (total_timeout test)
      → RaceAt test finish in_time
  graceful :
      (time : ℕ) (w : W)
      → finish ≡ some time
      → fires_after (total_timeout test) ≤ time
      → time ≤ fires_after (total_timeout test) + network_teardown_grace_time
      → RaceAt test finish (after_cancellation w)
  given_up :
      (w : W)
      → ((time : ℕ)
          → finish ≡ some time
          → fires_after (total_timeout test) + network_teardown_grace_time ≤ time)
      → RaceAt test finish (lost w)

abbrev pub TimesOut : {W : Type 0} → Option (Result Bool × W) → Type 0
TimesOut {W} o = (v : W) × (o ≡ some (err (failed Site.total_timeout), v))

total_timeout-small :
    (test : Timeouts)
    → test.get_execution_timeout + test.get_setup_buffer < 2 ^ 63
    → fires_after (total_timeout test) ≡ test.get_execution_timeout + test.get_setup_buffer
unfolding total_timeout
total_timeout-small test h = ground arith

total_timeout-overflow :
    (test : Timeouts)
    → test.get_execution_timeout < 2 ^ 63
    → test.get_setup_buffer < 2 ^ 63
    → 2 ^ 63 ≤ test.get_execution_timeout + test.get_setup_buffer
    → fires_after (total_timeout test) ≡ 0
unfolding total_timeout
total_timeout-overflow test h b o = ground arith

module _ {W : Type 0} (engine : Engine W) (executor : TestExecutor) (test : Timeouts) where
  -- A goroutine that ends before the timeout fires gives its own result; one that ends later, or
  -- never, a timeout.
  early :
      (time : ℕ) (race : Race W) (w : W)
      → time < fires_after (total_timeout test)
      → RaceAt test (some time) race
      → run_test engine executor race w ≡ run_test_goroutine engine executor w
  unfolding run_test
  early time race w h (result_first f e g) = refl
  early time race w h (graceful f v e g k) =
      let same : time ≡ f = some-inj e in absurd (omega arith)
  early time race w h (given_up v late) = absurd (omega (arith, late time refl))

  late :
      (finish : Option ℕ) (race : Race W) (w : W)
      → ((time : ℕ) → finish ≡ some time → fires_after (total_timeout test) < time)
      → RaceAt test finish race
      → TimesOut (run_test engine executor race w)
  unfolding run_test
  late finish race w h (result_first f e g) = absurd (omega (arith, h f e))
  late finish race w h (graceful f v e g k) = (v, refl)
  late finish race w h (given_up v k) = (v, refl)

-- For timeouts whose sum fits an int64: when the test's goroutine ends before the sum of the
-- execution timeout and the setup buffer has passed, runTest returns what the goroutine returns; when
-- it ends later, or not at all, runTest returns the error of a hard timeout, whether or not the
-- goroutine ended within the grace time.
pub run_test_deadline :
    {W : Type 0} (engine : Engine W) (executor : TestExecutor) (test : Timeouts) (finish : Option ℕ)
    (race : Race W) (w : W)
    → test.get_execution_timeout + test.get_setup_buffer < 2 ^ 63
    → RaceAt test finish race
    → ((time : ℕ)
        → finish ≡ some time
        → time < test.get_execution_timeout + test.get_setup_buffer
        → run_test engine executor race w ≡ run_test_goroutine engine executor w)
      × (((time : ℕ)
            → finish ≡ some time
            → test.get_execution_timeout + test.get_setup_buffer < time)
          → TimesOut (run_test engine executor race w))
run_test_deadline engine executor test finish race w fits r =
    let sum = total_timeout-small test fits in
    (
      (λ time e h.
          early engine executor test time race w (omega (arith, sum))
            (subst (λ f. RaceAt test f race) e r)),
      (λ h. late engine executor test finish race w (λ time e. omega (arith, sum, h time e)) r),
    )

-- When the sum of the two timeouts does not fit an int64: a test that takes any time at all hits the
-- hard timeout, however soon it ends.
pub huge_timeouts_fail :
    {W : Type 0} (engine : Engine W) (executor : TestExecutor) (test : Timeouts) (time : ℕ)
    (race : Race W) (w : W)
    → test.get_execution_timeout < 2 ^ 63
    → test.get_setup_buffer < 2 ^ 63
    → 2 ^ 63 ≤ test.get_execution_timeout + test.get_setup_buffer
    → 0 < time
    → RaceAt test (some time) race
    → TimesOut (run_test engine executor race w)
huge_timeouts_fail engine executor test time race w a b o pos r =
    let sum = total_timeout-overflow test a b o in
    late engine executor test (some time) race w
      (λ t e. let same : time ≡ t = some-inj e in omega (arith, sum)) r
