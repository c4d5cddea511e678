-- ===== src/Initializer/Tests.antt =====
-- Runs of a suite of one or two tests.
use zz_deprecated_kurtosis.Base.{
  ℕ, ◌+◌, ◌-◌, ◌≤◌, ◌^◌, ◌≡◌, ◌≢◌, refl, ap, ◌↔◌, List, [], ◌∷◌, ◌++◌, map, Bool, true, false, none,
  some, lookup, insert, ◌⊎◌, Text, codes, Dict, IsDict, length, text_eq, text_beq, All, arith,
}
use zz_deprecated_kurtosis.Net.Defs.{ip4, put_uint32, u32}
use zz_deprecated_kurtosis.Net.Decimal.{dec_text}
use zz_deprecated_kurtosis.Net.Cidr.{quad_text}
use zz_deprecated_kurtosis.Initializer.TestParams.{
  ParallelTestParams, new_parallel_test_params, subnet_cidr_str, params_loop,
}
use zz_deprecated_kurtosis.Initializer.TestParams.Subnets.{Converts, subnet_start, build-ok}
use zz_deprecated_kurtosis.Initializer.TestParams.Isolation.{subnets_repeat}
use zz_deprecated_kurtosis.Initializer.LogWriter.{
  ErroneousSystemLogCaptureWriter, new_erroneous_system_log_capture_writer, write,
  get_captured_messages,
}
use zz_deprecated_kurtosis.Initializer.LogWriter.Laws.{captured-write}
use zz_deprecated_kurtosis.Initializer.OutputManager.{
  other, interceptor, System, new_parallel_test_output_manager,
}
use zz_deprecated_kurtosis.Initializer.OutputManager.Outcomes.{Report, IsPass}
use zz_deprecated_kurtosis.Initializer.OutputManager.Interception.{
  IsOff, Restored, session, session-Restored,
}
use zz_deprecated_kurtosis.Initializer.Parallelizer.{
  opened, Attempt, ran, report_of, ready, running, done, Workers, take_test, report, leave, Steps,
  here, next, launched, run_in_parallel_and_print_results,
}
use zz_deprecated_kurtosis.Initializer.Parallelizer.Executors.{
  TestExecutorParallelizer, test_executor_of, ApartFrom, test_executor_of-ApartFrom,
}
use zz_deprecated_kurtosis.Initializer.Parallelizer.Pool.{Finished}
use zz_deprecated_kurtosis.Initializer.Parallelizer.Counts.{occ, chan_names, report_names}
use zz_deprecated_kurtosis.Initializer.Parallelizer.Verdict.{run_verdict, no_workers_pass}
use zz_deprecated_kurtosis.Initializer.SuiteRunner.{names_to_run, choose_tests}
use zz_deprecated_kurtosis.Initializer.SuiteRunner.Choice.{Chosen, Unknown, choose_tests-exact}
use zz_deprecated_kurtosis.Initializer.EnvVars.{
  ControllerArgs, standard_vars, generate_test_controller_env_variables,
}
use zz_deprecated_kurtosis.Initializer.EnvVars.Laws.{Merged, Clash, generate_env_variables-merges}

-- A conversion that wraps.
u32-Converts : Converts u32
u32-Converts n h = omega arith

abbrev run_id : Text
run_id = codes "run"

abbrev two_tests : Dict Text ℕ
two_tests = (codes "a", 1) ∷ (codes "b", 2) ∷ []

two_tests-IsDict : IsDict two_tests
unfolding lookup text_beq
two_tests-IsDict = (refl, (refl, tt))

abbrev two_params : Dict Text (ParallelTestParams ℕ)
two_params = params_loop u32 2 run_id subnet_start 0 two_tests []

abbrev params_a : ParallelTestParams ℕ
params_a = record {
  test_name = codes "a";
  test = 1;
  subnet_mask = codes "172.23.0.0/30";
  execution_instance_id = run_id;
}

abbrev params_b : ParallelTestParams ℕ
params_b = record {
  test_name = codes "b";
  test = 2;
  subnet_mask = codes "172.23.0.4/30";
  execution_instance_id = run_id;
}

has_a : lookup (codes "a") two_params ≡ some params_a
unfolding params_loop new_parallel_test_params subnet_cidr_str lookup insert text_beq quad_text
    dec_text put_uint32
has_a = refl

has_b : lookup (codes "b") two_params ≡ some params_b
unfolding params_loop new_parallel_test_params subnet_cidr_str lookup insert text_beq quad_text
    dec_text put_uint32
has_b = refl

a_ne_b : codes "a" ≢ codes "b"
unfolding text_beq
a_ne_b e =
    let apart : true ≡ false = ap (λ t. text_beq t (codes "a")) e in absurd (true_ne_false apart)
  where
    true_ne_false : true ≢ false
    true_ne_false h = cc

abbrev parallelizer : TestExecutorParallelizer
parallelizer = record {
  execution_id = run_id;
  test_controller_image_name = codes "image";
  test_controller_log_level = codes "info";
  custom_test_controller_env_vars = [];
  parallelism = 2;
}

test_executor_of-ApartFrom_example :
    ApartFrom (test_executor_of parallelizer params_a) (test_executor_of parallelizer params_b)
test_executor_of-ApartFrom_example =
    test_executor_of-ApartFrom u32 2 run_id two_tests two_params (codes "a") (codes "b") params_a
      params_b parallelizer u32-Converts (omega arith) (omega arith) two_tests-IsDict (omega arith)
      (build-ok u32 2 run_id two_tests) has_a has_b a_ne_b

subnets_repeat_example :
    subnet_cidr_str u32 8 subnet_start (3 + 2 ^ (32 - 8)) ≡ subnet_cidr_str u32 8 subnet_start 3
subnets_repeat_example = subnets_repeat u32 8 3 u32-Converts (omega arith) (omega arith)

captured-write_example :
    (after : ErroneousSystemLogCaptureWriter) × (write 1
        (codes "main.main()")
        new_erroneous_system_log_capture_writer
        (codes "oops")
      ≡ some (after, length (codes "oops")))
    × (get_captured_messages after
        ≡ get_captured_messages new_erroneous_system_log_capture_writer
          ++ record { message = codes "oops"; stacktrace = codes "main.main()" } ∷ [])
captured-write_example =
    captured-write 0 (codes "main.main()") new_erroneous_system_log_capture_writer (codes "oops")
      (omega arith)

abbrev start_system : System
start_system = record {
  manager = new_parallel_test_output_manager;
  std_logger = record { out = other 1; formatter = 0; level = 4 };
  written = [];
}

outside : start_system.std_logger.out ≢ interceptor
outside e = cc

abbrev pass_of : ParallelTestParams ℕ → Attempt
pass_of p = ran true none (opened (record { content = codes "log"; copy_err = none }))

abbrev two_reports : List Report
two_reports = report_of params_a (pass_of params_a) ∷ report_of params_b (pass_of params_b) ∷ []

start-IsOff : IsOff start_system
unfolding new_parallel_test_output_manager
start-IsOff = record { flag = refl; outside = outside }

session-Restored_example : Restored start_system (session two_reports start_system)
session-Restored_example = session-Restored two_reports start_system start-IsOff

-- One test, run by one of two workers while the other leaves.
abbrev one_param : Dict Text (ParallelTestParams ℕ)
one_param = (codes "a", params_a) ∷ []

abbrev final : Workers ℕ
final = record {
  test_params_chan = [];
  workers = done ∷ done ∷ [];
  reports = report_of params_a (pass_of params_a) ∷ [];
}

one_run : Steps (launched one_param 2) final
unfolding launched
one_run =
    next
      (next
        (next (next here (take_test [] (ready ∷ []) params_a [] refl refl refl))
          (leave (running params_a ∷ []) [] refl refl refl))
        (report [] (done ∷ []) params_a (pass_of params_a) refl refl))
      (leave [] (done ∷ []) refl refl refl)

one_name : (k : Text) → occ k (chan_names (map (λ e. e.1) one_param)) ≤ 1
unfolding occ
one_name k = ground arith

run_verdict_example :
    ((k : Text)
      → occ k (report_names final.reports) ≡ occ k (chan_names (map (λ e. e.1) one_param)))
    × ((passed : Bool) × (t : System) × (run_in_parallel_and_print_results final.reports
            start_system
          ≡ some (passed, t))
        × ((passed ≡ true) ↔ All IsPass final.reports)
        × (t.std_logger ≡ start_system.std_logger))
run_verdict_example =
    run_verdict one_param 2 final start_system (omega arith) one_name outside one_run (tt, (tt, tt))

no_workers_pass_example :
    Finished (launched one_param 0)
    × ((t : System) × (run_in_parallel_and_print_results (launched one_param 0).reports start_system
          ≡ some (true, t)))
no_workers_pass_example = no_workers_pass one_param start_system outside

abbrev args : ControllerArgs
args = record {
  network_id = codes "n";
  subnet_mask = codes "172.23.0.0/30";
  gateway_ip = ip4 (record { b0 = 172; b1 = 23; b2 = 0; b3 = 1 });
  controller_ip_addr = ip4 (record { b0 = 172; b1 = 23; b2 = 0; b3 = 2 });
  test_name = codes "a";
  log_level = codes "debug";
  test_volume_name = codes "v";
}

abbrev custom : Dict Text Text
custom = (codes "COLOR", codes "red") ∷ (codes "SIZE", codes "3") ∷ []

custom-IsDict : IsDict custom
unfolding lookup text_beq
custom-IsDict = (refl, (refl, tt))

generate_env_variables-merges_example :
    Merged (standard_vars args) custom (generate_test_controller_env_variables args custom)
    ⊎ Clash (standard_vars args) custom (generate_test_controller_env_variables args custom)
generate_env_variables-merges_example = generate_env_variables-merges args custom custom-IsDict

choose_tests-exact_example :
    Chosen two_tests (codes "b" ∷ []) (choose_tests two_tests (codes "b" ∷ []))
    ⊎ Unknown two_tests
        (names_to_run two_tests (codes "b" ∷ []))
        (choose_tests two_tests (codes "b" ∷ []))
choose_tests-exact_example = choose_tests-exact two_tests (codes "b" ∷ [])
