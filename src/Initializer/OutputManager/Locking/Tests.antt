-- ===== src/Initializer/OutputManager/Locking/Tests.antt =====
-- Two tests that end at the same time.
use zz_deprecated_kurtosis.Base.{
  ◌≡◌, refl, [], ◌∷◌, List, true, false, none, some, codes, lookup, text_eq,
}
use zz_deprecated_kurtosis.Initializer.OutputManager.{
  Logger, System, other, new_parallel_test_output_manager, output_logger,
}
use zz_deprecated_kurtosis.Initializer.OutputManager.Outcomes.{Report}
use zz_deprecated_kurtosis.Initializer.OutputManager.Locking.{
  waiting, storing, LogCalls, check, lock, body, LogSteps, here, next, calling,
}
use zz_deprecated_kurtosis.Initializer.OutputManager.Locking.Admitted.{
  Serialised, log_calls-Serialised,
}
use zz_deprecated_kurtosis.Initializer.OutputManager.Locking.Ending.{Ended, log_calls-Ended}

abbrev logger : Logger
logger = record { out = other 1; formatter = 0; level = 4 }

abbrev start : System
start = record { manager = new_parallel_test_output_manager; std_logger = logger; written = [] }

abbrev report_a : Report
report_a = record {
  test_name = codes "a";
  execution_err = none;
  test_passed = true;
  logs = record { content = codes "log of a"; copy_err = none };
}

abbrev report_b : Report
report_b = record {
  test_name = codes "b";
  execution_err = none;
  test_passed = false;
  logs = record { content = codes "log of b"; copy_err = none };
}

abbrev both : List Report
both = report_a ∷ report_b ∷ []

-- The second call has the mutex and has looked its test up; the first one waits.
abbrev second_first : LogCalls
second_first = record {
  system = start;
  locked = true;
  callers = waiting report_a ∷ storing false report_b ∷ [];
  admitted = report_b ∷ [];
}

second_goes : LogSteps (calling both start) second_first
unfolding calling new_parallel_test_output_manager lookup
second_goes =
    next (next here (lock (waiting report_a ∷ []) [] report_b refl refl refl))
      (body (waiting report_a ∷ []) [] check refl refl)

start-logger : output_logger start ≡ some logger
unfolding new_parallel_test_output_manager
start-logger = refl

log_calls-Serialised_example : Serialised both start second_first
log_calls-Serialised_example = log_calls-Serialised both start second_first second_goes

log_calls-Ended_example : Ended both start second_first
log_calls-Ended_example = log_calls-Ended both start logger second_first start-logger second_goes
