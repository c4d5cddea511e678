-- ===== src/Controller/Sample.antt =====
-- A suite of one test with two services.
use zz_deprecated_kurtosis.Base.{
  ℕ, ◌+◌, [], ◌∷◌, none, some, Text, codes, Dict, text_eq, nat_beq, ltb, if◌then◌else◌, external,
  Result, ok, err,
}
use zz_deprecated_kurtosis.Services.{Host, ServiceInitializerCore, ServiceAvailabilityCheckerCore}
use zz_deprecated_kurtosis.Services.AvailabilityChecker.{
  deadline_exceeded, Context, ServiceAvailabilityChecker,
}
use zz_deprecated_kurtosis.Controller.Context.{fatal}
use zz_deprecated_kurtosis.Controller.Calls.{configured, configures, finished, adds}
use zz_deprecated_kurtosis.Controller.TestController.{
  NetworkLoader, Test, TestController, Surroundings,
}

abbrev pub host : Host ℕ
host = record {
  generate_uuid = λ w. ([], w);
  join = λ dir name. dir;
  mkdir = λ dir w. (ok tt, w);
  create_file = λ path w. (ok tt, w);
  create_and_start_container = λ request w. (ok (w ∷ []), w + 1);
  stop_container = λ id timeout w. (err (external 7), w + 100);
}

-- Every context ends at the fourth poll.
abbrev pub background : Context
background = record { err_at = λ timeout poll. if ltb poll 3 then none else some deadline_exceeded }

abbrev pub core : ServiceInitializerCore ℕ Text
core = record {
  get_used_ports = [];
  get_service_from_ip = λ ip. ip;
  get_files_to_mount = [];
  initialize_mounted_files = λ files deps w. (ok tt, w);
  get_start_command = λ files ip deps w. (ok [], w);
  get_test_volume_mountpoint = [];
}

abbrev pub checker_core : ServiceAvailabilityCheckerCore Text
checker_core = record { is_service_up = λ poll service deps. nat_beq poll 1; get_timeout = 30 }

abbrev pub waits :
    Result (ServiceAvailabilityChecker Text) → Result (Dict Text (ServiceAvailabilityChecker Text))
waits (ok checker) = ok ((codes "a", checker) ∷ [])
waits (err e) = err e

abbrev pub loader : NetworkLoader ℕ Text Text
loader = record {
  configure_network =
      configures (codes "node") (codes "image") core checker_core (λ r. configured r);
  initialize_network = adds (codes "node") (codes "a") (some []) (λ r. finished (waits r));
  wrap_network = finished (ok (codes "wrapped"));
}

-- The test starts a second service that depends on the first.
abbrev pub test : Test ℕ Text Text
test = record {
  get_network_loader = ok loader;
  run = λ wrapped.
      adds (codes "node") (codes "b") (some (codes "a" ∷ [])) (λ r. finished (fatal none));
}

abbrev pub controller : TestController ℕ Text Text
controller = record {
  test_volume_name = codes "vol";
  test_volume_filepath = codes "/shared";
  network_id = codes "n";
  subnet_mask = codes "10.0.0.0/29";
  gateway_ip = codes "10.0.0.1";
  test_controller_ip = codes "10.0.0.2";
  test_suite = (codes "t", test) ∷ [];
  test_name = codes "t";
}

abbrev pub surroundings : Surroundings ℕ
surroundings = record {
  new_client = λ w. (ok tt, w);
  new_docker_manager = λ w. (ok tt, w);
  host = host;
  background = background;
  polls = 5;
  calls_in_time = 9;
}
