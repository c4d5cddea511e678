-- ===== src/Initializer/TestExecutor/Tests.antt =====
-- A run of one test that passes, on an engine with room for one network.
use zz_deprecated_kurtosis.Base.{
  ℕ, ◌+◌, ◌-◌, ◌*◌, ◌^◌, ◌<◌, ◌≡◌, refl, [], ◌∷◌, Bool, true, false, some, lookup, insert,
  if◌then◌else◌, Text, codes, ◌==◌, text_eq, text_beq, Result, ok, err, external, arith,
}
use zz_deprecated_kurtosis.Net.Defs.{uint32, put_uint32}
use zz_deprecated_kurtosis.Net.Decimal.{dec_text, dtoi}
use zz_deprecated_kurtosis.Net.Cidr.{
  parse_cidr, split_slash, parse_ipv4, parse_byte, skip_dot, quad_text, mask_quad, cidr_mask,
}
use zz_deprecated_kurtosis.Networks.IpTracker.{
  is_taken, copy_taken, new_free_ip_addr_tracker, scan, start_of, finish_of, get_free_ip_addr,
}
use zz_deprecated_kurtosis.Initializer.EnvVars.{
  standard_vars, add_custom, generate_test_controller_env_variables,
}
use zz_deprecated_kurtosis.Initializer.TestExecutor.{
  Engine, TestExecutor, run_controller_container, run_test_goroutine,
}
use zz_deprecated_kurtosis.Initializer.TestExecutor.Timeouts.{
  Timeouts, total_timeout, RaceAt, result_first, graceful, TimesOut, run_test_deadline,
  huge_timeouts_fail,
}
use zz_deprecated_kurtosis.Initializer.TestExecutor.RunTest.{
  Race, in_time, after_cancellation, run_test,
}
use zz_deprecated_kurtosis.Initializer.TestExecutor.Passing.{Passes, run_test-Passes}

abbrev net_id : Text
net_id = codes "n"

abbrev create_one : Bool → Result Text × Bool
create_one true = (err (external 3), true)
create_one false = (ok net_id, true)

abbrev small_engine : Engine Bool
small_engine = record {
  new_docker_manager = λ w. (ok tt, w);
  create_network = λ name mask gateway w. create_one w;
  remove_network = λ id w. (ok tt, (if net_id == id then false else w));
  create_volume = λ name w. (ok tt, w);
  temp_file = λ name w. (ok name, w);
  create_and_start_container = λ request w. (ok (codes "c"), w);
  wait_for_exit = λ id w. (ok 0, w);
  copy_controller_logs = λ name w. (ok tt, w);
  remove_file = λ name w. w;
}

abbrev executor : TestExecutor
executor = record {
  execution_instance_id = codes "e";
  subnet_mask = codes "172.23.0.0/30";
  test_controller_image_name = codes "image";
  test_controller_log_level = codes "debug";
  custom_test_controller_env_vars = (codes "COLOR", codes "red") ∷ [];
  test_name = codes "t";
}

test_passes : run_test_goroutine small_engine executor false ≡ some (ok true, false)
unfolding run_test_goroutine run_controller_container generate_test_controller_env_variables
    add_custom standard_vars new_free_ip_addr_tracker copy_taken get_free_ip_addr scan start_of
    finish_of is_taken parse_cidr split_slash parse_ipv4 parse_byte dtoi skip_dot uint32 mask_quad
    cidr_mask lookup insert text_beq put_uint32 quad_text dec_text
test_passes = refl

run_test-passes_in_time : run_test small_engine executor in_time false ≡ some (ok true, false)
unfolding run_test
run_test-passes_in_time = test_passes

run_test-Passes_example : (◌≡◌ {A = Race Bool} in_time in_time) × Passes small_engine executor
run_test-Passes_example =
    run_test-Passes small_engine executor in_time false false run_test-passes_in_time

-- A minute for the test, and half of one for the rest.
abbrev minutes : Timeouts
minutes = record { get_execution_timeout = 60 * 10 ^ 9; get_setup_buffer = 30 * 10 ^ 9 }

ends_early : RaceAt {W = Bool} minutes (some 7) in_time
unfolding total_timeout
ends_early = result_first 7 refl (omega arith)

run_test_deadline_example :
    ((time : ℕ)
      → some 7 ≡ some time
      → time < 60 * 10 ^ 9 + 30 * 10 ^ 9
      → run_test small_engine executor in_time false
        ≡ run_test_goroutine small_engine executor false)
    × (((time : ℕ) → some 7 ≡ some time → 60 * 10 ^ 9 + 30 * 10 ^ 9 < time)
        → TimesOut (run_test small_engine executor in_time false))
run_test_deadline_example =
    run_test_deadline small_engine executor minutes (some 7) in_time false (omega arith) ends_early

-- The longest execution timeout there is.
abbrev endless : Timeouts
endless = record { get_execution_timeout = 2 ^ 63 - 1; get_setup_buffer = 30 * 10 ^ 9 }

ends_late : RaceAt endless (some 7) (after_cancellation true)
unfolding total_timeout
ends_late = graceful 7 true refl (omega arith) (omega arith)

huge_timeouts_fail_example :
    TimesOut (run_test small_engine executor (after_cancellation true) false)
huge_timeouts_fail_example =
    huge_timeouts_fail small_engine executor endless 7 (after_cancellation true) false (omega arith)
      (omega arith) (omega arith) (omega arith) ends_late
