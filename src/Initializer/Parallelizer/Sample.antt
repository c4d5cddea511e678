-- ===== src/Initializer/Parallelizer/Sample.antt =====
-- A test that passes, and the file system and the engine that it runs on.
use zz_deprecated_kurtosis.Base.{
  ℕ, ◌≡◌, refl, ap, [], ◌∷◌, Bool, true, false, none, some, Text, codes, text_eq, text_beq, lookup,
  insert, ok,
}
use zz_deprecated_kurtosis.Net.Defs.{uint32, put_uint32}
use zz_deprecated_kurtosis.Net.Decimal.{dec_text, dtoi}
use zz_deprecated_kurtosis.Net.Cidr.{
  parse_cidr, split_slash, parse_ipv4, parse_byte, skip_dot, quad_text, mask_quad, cidr_mask,
}
use zz_deprecated_kurtosis.Networks.IpTracker.{
  is_taken, copy_taken, new_free_ip_addr_tracker, scan, start_of, finish_of, get_free_ip_addr,
}
use zz_deprecated_kurtosis.Initializer.EnvVars.{
  standard_vars, add_custom, generate_test_controller_env_variables,
}
use zz_deprecated_kurtosis.Initializer.TestParams.{ParallelTestParams}
use zz_deprecated_kurtosis.Initializer.TestExecutor.{
  Engine, new_test_executor, run_controller_container, run_test_goroutine,
}
use zz_deprecated_kurtosis.Initializer.TestExecutor.RunTest.{in_time, run_test}
use zz_deprecated_kurtosis.Initializer.Parallelizer.{LogFile, opened, Attempt, ran}
use zz_deprecated_kurtosis.Initializer.Parallelizer.Executors.{
  TestExecutorParallelizer, test_executor_of,
}
use zz_deprecated_kurtosis.Initializer.Parallelizer.Turns.{
  LogFiles, remove_file, close_file, after_run, run_turn,
}
use zz_deprecated_kurtosis.Initializer.Parallelizer.Turns.Leftovers.{FileSystem}
use zz_deprecated_kurtosis.Initializer.Parallelizer.Turns.Verified.{IsTurn}

-- The world is whether the one temporary file is there.
abbrev pub engine : Engine Bool
engine = record {
  new_docker_manager = λ w. (ok tt, w);
  create_network = λ name mask gateway w. (ok (codes "n"), w);
  remove_network = λ id w. (ok tt, w);
  create_volume = λ name w. (ok tt, w);
  temp_file = λ name w. (ok name, w);
  create_and_start_container = λ request w. (ok (codes "c"), w);
  wait_for_exit = λ id w. (ok 0, w);
  copy_controller_logs = λ name w. (ok tt, w);
  remove_file = λ name w. w;
}

abbrev pub log : LogFile
log = opened (record { content = codes "log"; copy_err = none })

abbrev pub files : LogFiles Bool
files = record {
  temp_file = λ name w. (ok name, true);
  close_writing = λ name w. w;
  open_file = λ name w. (log, w);
  close_reading = λ name w. w;
  remove = λ name w. false;
}

abbrev pub exists : Text → Bool → Bool
exists name w = w

pub one_file : FileSystem files exists
one_file = record {
  removed = λ name w. refl;
  remove_keeps = λ name other w h. refl;
  close_keeps = λ name other w h. h;
}

abbrev pub params : ParallelTestParams ℕ
params = record {
  test_name = codes "a";
  test = 1;
  subnet_mask = codes "172.23.0.0/30";
  execution_instance_id = codes "run";
}

abbrev pub parallelizer : TestExecutorParallelizer
parallelizer = record {
  execution_id = codes "run";
  test_controller_image_name = codes "image";
  test_controller_log_level = codes "info";
  custom_test_controller_env_vars = [];
  parallelism = 1;
}

pub test_passes :
    (w : Bool)
    → run_test engine (test_executor_of parallelizer params) in_time w ≡ some (ok true, w)
unfolding run_test test_executor_of new_test_executor run_test_goroutine run_controller_container
    generate_test_controller_env_variables add_custom standard_vars new_free_ip_addr_tracker
    copy_taken get_free_ip_addr scan start_of finish_of is_taken parse_cidr split_slash parse_ipv4
    parse_byte dtoi skip_dot uint32 mask_quad cidr_mask lookup insert text_beq put_uint32 quad_text
    dec_text
test_passes w = refl

abbrev pub passed : Attempt
passed = ran true none log

abbrev pub temp_name : Text
temp_name = codes "run-a"

pub one-IsTurn : IsTurn files engine parallelizer (params, passed)
unfolding run_turn
one-IsTurn = record {
  race = in_time;
  deferred = [];
  before = false;
  turn = record {
    attempt = passed;
    deferred = close_file temp_name ∷ remove_file temp_name ∷ [];
    world = true;
  };
  runs = ap (after_run files temp_name (remove_file temp_name ∷ [])) (test_passes true);
  same = refl;
}
