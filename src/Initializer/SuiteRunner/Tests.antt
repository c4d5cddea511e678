-- ===== src/Initializer/SuiteRunner/Tests.antt =====
-- A whole run of a suite of one test.
use zz_deprecated_kurtosis.Initializer.SuiteRunner.Finishing.{Met, workers_can_finish}
use zz_deprecated_kurtosis.Initializer.Parallelizer.Turns.Ended.{turns}
use zz_deprecated_kurtosis.Initializer.TestExecutor.RunTest.{Race, in_time}
use zz_deprecated_kurtosis.Initializer.TestParams.Subnets.{Converts}
use zz_deprecated_kurtosis.Base.{
  ℕ, ◌≡◌, ◌≢◌, refl, [], ◌∷◌, Bool, true, Option, none, some, lookup, insert, Text, codes, Dict,
  text_eq, text_beq, named, ok, arith, IsDict, All, false,
}
use zz_deprecated_kurtosis.Net.Defs.{put_uint32, uint32, u32}
use zz_deprecated_kurtosis.Net.Decimal.{dec_text, dtoi}
use zz_deprecated_kurtosis.Net.Cidr.{parse_ip, parse_ipv4, parse_byte, skip_dot, quad_text}
use zz_deprecated_kurtosis.Initializer.TestParams.{
  ParallelTestParams, new_parallel_test_params, subnet_start_addr, subnet_cidr_str, params_loop,
  build_test_params,
}
use zz_deprecated_kurtosis.Initializer.LogWriter.{
  new_erroneous_system_log_capture_writer, get_captured_messages,
}
use zz_deprecated_kurtosis.Initializer.OutputManager.{
  other, interceptor, System, new_parallel_test_output_manager, recorded, log_test_output,
  start_intercepting_std_logger, stop_intercepting_std_logger, print_summary, get_all_tests_passed,
}
use zz_deprecated_kurtosis.Initializer.OutputLines.{
  get_test_status_from_result, log_erroneous_system_logging,
}
use zz_deprecated_kurtosis.Initializer.OutputManager.Outcomes.{log_all}
use zz_deprecated_kurtosis.Initializer.Parallelizer.{
  report_of, running, done, Workers, take_test, report, leave, Steps, here, next, launched,
  run_in_parallel_and_print_results,
}
use zz_deprecated_kurtosis.Initializer.Parallelizer.Pool.{Finished}
use zz_deprecated_kurtosis.Initializer.SuiteRunner.{names_to_run, find_tests, choose_tests}
use zz_deprecated_kurtosis.Initializer.SuiteRunner.RunTests.{TestSuiteRunner, prepare, RunTests}
use zz_deprecated_kurtosis.Initializer.TestExecutor.Passing.{Passes}
use zz_deprecated_kurtosis.Initializer.Parallelizer.Executors.{
  new_test_executor_parallelizer, test_executor_of,
}
use zz_deprecated_kurtosis.Initializer.Parallelizer.Sample.{
  engine, files, params, passed, one-IsTurn, parallelizer,
}
use zz_deprecated_kurtosis.Initializer.SuiteRunner.Verified.{RealTurns, RunTests-Passes}
use zz_deprecated_kurtosis.Initializer.SuiteRunner.Whole.{Whole, RunTests-Whole}

abbrev runner : TestSuiteRunner ℕ
runner = record { test_suite = (codes "a", 1) ∷ []; network_width_bits = 2 }

abbrev one_param : Dict Text (ParallelTestParams ℕ)
one_param = (codes "a", params) ∷ []

prepared : prepare u32 runner [] (codes "run") (ok tt) ≡ ok one_param
unfolding prepare choose_tests find_tests build_test_params parse_ip parse_ipv4 parse_byte skip_dot
    dtoi subnet_start_addr uint32 params_loop new_parallel_test_params subnet_cidr_str lookup insert
    text_beq quad_text dec_text put_uint32
prepared = refl

abbrev half : Workers ℕ
half = record { test_params_chan = []; workers = running params ∷ []; reports = [] }

abbrev final : Workers ℕ
final = record {
  test_params_chan = [];
  workers = done ∷ [];
  reports = report_of params passed ∷ [];
}

to_half : Steps (launched one_param 1) half
unfolding launched
to_half = next here (take_test [] [] params [] refl refl refl)

to_final : Steps (launched one_param 1) final
to_final = next (next to_half (report [] [] params passed refl refl)) (leave [] [] refl refl refl)

u32-Converts : Converts u32
u32-Converts n h = omega arith

suite-IsDict : IsDict runner.test_suite
unfolding lookup
suite-IsDict = (refl, tt)

built : build_test_params u32 2 (codes "run") runner.test_suite ≡ ok one_param
unfolding build_test_params parse_ip parse_ipv4 parse_byte skip_dot dtoi subnet_start_addr uint32
    params_loop new_parallel_test_params subnet_cidr_str lookup insert text_beq quad_text dec_text
    put_uint32
built = refl

-- Every test ends in time.
abbrev all_in_time : ParallelTestParams ℕ → Race Bool × Bool
all_in_time p = (in_time, false)

workers_can_finish_example :
    (t : Workers ℕ) × (later : Steps half t) × Finished t
    × All (Met files engine parallelizer all_in_time) (turns later)
workers_can_finish_example =
    workers_can_finish files engine parallelizer all_in_time u32 2 (codes "run") runner.test_suite
      one_param half u32-Converts (omega arith) (omega arith) suite-IsDict (omega arith) built
      to_half

abbrev start_system : System
start_system = record {
  manager = new_parallel_test_output_manager;
  std_logger = record { out = other 1; formatter = 0; level = 4 };
  written = [];
}

outside : start_system.std_logger.out ≢ interceptor
outside e = cc

abbrev after_run : Option (Bool × System) → System
after_run none = start_system
after_run (some (b, s)) = s

abbrev after : System
after = after_run (run_in_parallel_and_print_results final.reports start_system)

results : run_in_parallel_and_print_results final.reports start_system ≡ some (true, after)
unfolding run_in_parallel_and_print_results new_parallel_test_output_manager log_all log_test_output
    start_intercepting_std_logger stop_intercepting_std_logger print_summary get_all_tests_passed
    recorded get_test_status_from_result insert lookup text_beq report_of
    log_erroneous_system_logging get_captured_messages new_erroneous_system_log_capture_writer
results = refl

whole_run : RunTests u32 runner [] (codes "run") (ok tt) 1 start_system (ok true) after
whole_run = RunTests.ran prepared to_final (tt, tt) results

RunTests-Whole_example : Whole runner [] final.reports true start_system after
unfolding whole_run
RunTests-Whole_example =
    RunTests-Whole u32 runner [] (codes "run") (ok tt) 1 start_system after true whole_run
      (omega arith) outside

turns-IsTurn :
    RealTurns files engine
      (new_test_executor_parallelizer (codes "run") (codes "image") (codes "info") [] 1)
      whole_run
unfolding whole_run to_final to_half new_test_executor_parallelizer
turns-IsTurn = (one-IsTurn, tt)

asked : named (codes "a") (names_to_run runner.test_suite []) ≡ true
unfolding named text_beq
asked = refl

RunTests-Passes_example :
    (p : ParallelTestParams ℕ) × (p.test_name ≡ codes "a")
    × Passes engine (
        test_executor_of
          (new_test_executor_parallelizer (codes "run") (codes "image") (codes "info") [] 1)
          p)
RunTests-Passes_example =
    RunTests-Passes files engine u32 runner [] (codes "run") (codes "image") (codes "info") []
      (ok tt) 1 start_system after whole_run (omega arith) outside turns-IsTurn (codes "a") asked
