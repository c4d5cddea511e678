-- ===== src/Initializer/TestExecutor.antt =====
-- initializer/parallelism/test_executor.go: one test, from its Docker network to the exit of its
-- controller container. The Docker manager and the file system are the fields of `Engine`, which
-- act on a world of any type.
pub mod Teardown
pub mod RunTest
pub mod Timeouts
pub mod Passing
pub mod Returns
mod Tests
use zz_deprecated_kurtosis.Base.{
  ℕ, List, [], ◌∷◌, ◌++◌, Bool, nat_beq, Option, none, some, Text, codes, Dict, failed, propagated,
  Result, ok, err, Site,
}
use zz_deprecated_kurtosis.Net.Defs.{Ip}
use zz_deprecated_kurtosis.Networks.IpTracker.{
  FreeIpAddrTracker, new_free_ip_addr_tracker, get_free_ip_addr,
}
use zz_deprecated_kurtosis.Actions.{Act, ◌>>>=◌, propagating}
use zz_deprecated_kurtosis.Services.{ContainerRequest}
use zz_deprecated_kurtosis.Initializer.EnvVars.{
  ControllerArgs, generate_test_controller_env_variables, controller_log_mount_filepath,
  test_volume_mountpoint,
}

pub record Engine (W : Type 0) : Type 0 where
  pub new_docker_manager : Act W (Unit {0})
  pub create_network : Text → Text → Ip → Act W Text
  pub remove_network : Text → Act W (Unit {0})
  pub create_volume : Text → Act W (Unit {0})
  pub temp_file : Text → Act W Text
  pub create_and_start_container : ContainerRequest → Act W Text
  pub wait_for_exit : Text → Act W ℕ
  pub copy_controller_logs : Text → Act W (Unit {0})
  pub remove_file : Text → W → W

-- What the executor's methods read of it; the execution ID is its text.
pub record TestExecutor : Type 0 where
  pub execution_instance_id : Text
  pub subnet_mask : Text
  pub test_controller_image_name : Text
  pub test_controller_log_level : Text
  pub custom_test_controller_env_vars : Dict Text Text
  pub test_name : Text

unfoldable pub new_test_executor : Text → Text → Text → Text → Dict Text Text → Text → TestExecutor
new_test_executor execution_instance_id subnet_mask test_controller_image_name
      test_controller_log_level custom_test_controller_env_vars test_name =
    record {
      execution_instance_id = execution_instance_id;
      subnet_mask = subnet_mask;
      test_controller_image_name = test_controller_image_name;
      test_controller_log_level = test_controller_log_level;
      custom_test_controller_env_vars = custom_test_controller_env_vars;
      test_name = test_name;
    }

-- "%v-%v" of the execution ID and the test's name.
abbrev pub unique_test_identifier : TestExecutor → Text
unique_test_identifier executor = executor.execution_instance_id ++ b'-' ∷ executor.test_name

abbrev docker_socket : Text
docker_socket = codes "/var/run/docker.sock"

abbrev pub controller_args : TestExecutor → Text → Ip → Ip → ControllerArgs
controller_args executor network_id gateway_ip controller_ip_addr = record {
  network_id = network_id;
  subnet_mask = executor.subnet_mask;
  gateway_ip = gateway_ip;
  controller_ip_addr = controller_ip_addr;
  test_name = executor.test_name;
  log_level = executor.test_controller_log_level;
  test_volume_name = unique_test_identifier executor;
}

abbrev pub controller_request : TestExecutor → Text → Ip → Text → Dict Text Text → ContainerRequest
controller_request executor network_id controller_ip_addr log_file env_variables = record {
  docker_image = executor.test_controller_image_name;
  network_id = network_id;
  static_ip = controller_ip_addr;
  used_ports = [];
  start_cmd_args = [];
  env_variables = env_variables;
  bind_mounts = (docker_socket, docker_socket) ∷ (log_file, controller_log_mount_filepath) ∷ [];
  volume_mounts = (unique_test_identifier executor, test_volume_mountpoint) ∷ [];
}

module _ {W : Type 0} (engine : Engine W) (executor : TestExecutor) where
  -- From the exit of the controller on; 0 is the exit code of success.
  abbrev pub after_exit : Text → ℕ → Act W Bool
  after_exit log_file exit_code w =
      propagating Site.open_controller_log (engine.copy_controller_logs log_file w) >>>= λ _ w₁.
      (ok (nat_beq exit_code 0), engine.remove_file log_file w₁)

  abbrev pub wait_for_controller : Text → Text → Act W Bool
  wait_for_controller log_file controller_container_id w =
      propagating Site.wait_for_controller (engine.wait_for_exit controller_container_id w)
      >>>= after_exit log_file

  abbrev pub start_controller : Text → Ip → Text → Dict Text Text → Act W Bool
  start_controller network_id controller_ip_addr log_file env_variables w =
      propagating Site.run_controller (
        engine.create_and_start_container
          (controller_request executor network_id controller_ip_addr log_file env_variables) w)
      >>>= wait_for_controller log_file

  abbrev pub with_log_file : Text → Ip → Ip → Text → Act W Bool
  with_log_file network_id gateway_ip controller_ip_addr log_file w =
      propagating Site.env_variables (
        generate_test_controller_env_variables
            (controller_args executor network_id gateway_ip controller_ip_addr)
            executor.custom_test_controller_env_vars,
        w,
      )
      >>>= start_controller network_id controller_ip_addr log_file

  abbrev pub with_volume : Text → Ip → Ip → Unit {0} → Act W Bool
  with_volume network_id gateway_ip controller_ip_addr _ w =
      propagating Site.controller_log_file
        (engine.temp_file (unique_test_identifier executor ++ codes "-controller-logs") w)
      >>>= with_log_file network_id gateway_ip controller_ip_addr

  unfoldable pub run_controller_container : Text → Ip → Ip → Act W Bool
  run_controller_container network_id gateway_ip controller_ip_addr w =
      propagating Site.create_volume (engine.create_volume (unique_test_identifier executor) w)
      >>>= with_volume network_id gateway_ip controller_ip_addr

  -- The body of runTestGoroutine once its network exists, by the address for the controller. `none`
  -- is an allocation that does not return.
  abbrev pub in_network :
      Text → Ip → Option (Result Ip × FreeIpAddrTracker) → W → Option (Result Bool × W)
  in_network network_id gateway_ip none w = none
  in_network network_id gateway_ip (some (err e, t)) w = some (err (failed Site.controller_addr), w)
  in_network network_id gateway_ip (some (ok controller_ip, t)) w = some (
      propagating Site.running_test
        (run_controller_container network_id gateway_ip controller_ip w))

  -- The deferred removal of the network; its error is logged.
  abbrev pub tear_down : Text → Option (Result Bool × W) → Option (Result Bool × W)
  tear_down network_id none = none
  tear_down network_id (some (r, w)) = some (r, (engine.remove_network network_id w).1)

  abbrev pub with_network : Ip → FreeIpAddrTracker → Result Text × W → Option (Result Bool × W)
  with_network gateway_ip t (err e, w) = some (err (propagated Site.create_network e), w)
  with_network gateway_ip t (ok network_id, w) =
      tear_down network_id (in_network network_id gateway_ip (get_free_ip_addr t) w)

  abbrev pub with_gateway : Option (Result Ip × FreeIpAddrTracker) → W → Option (Result Bool × W)
  with_gateway none w = none
  with_gateway (some (err e, t)) w = some (err (propagated Site.gateway_addr e), w)
  with_gateway (some (ok gateway_ip, t)) w =
      with_network gateway_ip t
        (engine.create_network (unique_test_identifier executor) executor.subnet_mask gateway_ip w)

  abbrev pub with_tracker : Result FreeIpAddrTracker → W → Option (Result Bool × W)
  with_tracker (err e) w = some (err (propagated Site.create_tracker e), w)
  with_tracker (ok t) w = with_gateway (get_free_ip_addr t) w

  abbrev pub with_manager : Result (Unit {0}) × W → Option (Result Bool × W)
  with_manager (err e, w) = some (err (propagated Site.new_docker_manager e), w)
  with_manager (ok u, w) = with_tracker (new_free_ip_addr_tracker executor.subnet_mask []) w

  unfoldable pub run_test_goroutine : W → Option (Result Bool × W)
  run_test_goroutine w = with_manager (engine.new_docker_manager w)
