-- ===== src/Controller/TestController.antt =====
-- controller/test_controller.go: RunTest.
use zz_deprecated_kurtosis.Base.{
  ℕ, [], ◌∷◌, Bool, true, Option, none, some, Text, Dict, lookup, insert, text_eq, Error, failed,
  propagated, Result, ok, err, Site,
}
use zz_deprecated_kurtosis.Actions.{Act, ◌>>>=◌, propagating}
use zz_deprecated_kurtosis.Services.{Host}
use zz_deprecated_kurtosis.Services.AvailabilityChecker.{
  Context, ServiceAvailabilityChecker, wait_for_startup,
}
use zz_deprecated_kurtosis.Networks.IpTracker.{FreeIpAddrTracker, new_free_ip_addr_tracker}
use zz_deprecated_kurtosis.Networks.ServiceNetwork.{ServiceNetwork, Outcome, remove_all}
use zz_deprecated_kurtosis.Networks.Builder.{
  ServiceNetworkBuilder, new_service_network_builder, build,
}
use zz_deprecated_kurtosis.Controller.Context.{
  Ending, returned, panicked, panicked_nil, panicked_other,
}
use zz_deprecated_kurtosis.Controller.Calls.{
  Configures, Calls, finished, hangs, Left, run_configures, and_then, cut_off, run_calls,
}

-- networks.NetworkLoader; `Wrapped` is the developer's own type of network.
pub record NetworkLoader (W Service Wrapped : Type 0) : Type 0 where
  pub configure_network : Configures W Service (Result (Unit {0}))
  pub initialize_network : Calls W Service (Result (Dict Text (ServiceAvailabilityChecker Service)))
  pub wrap_network : Calls W Service (Result Wrapped)

-- testsuite.Test. Its timeouts are durations, which `Surroundings` turns into what they cut off.
pub record Test (W Service Wrapped : Type 0) : Type 0 where
  pub get_network_loader : Result (NetworkLoader W Service Wrapped)
  pub run : Wrapped → Calls W Service Ending

pub record TestController (W Service Wrapped : Type 0) : Type 0 where
  pub test_volume_name : Text
  pub test_volume_filepath : Text
  pub network_id : Text
  pub subnet_mask : Text
  pub gateway_ip : Text
  pub test_controller_ip : Text
  pub test_suite : Dict Text (Test W Service Wrapped)
  pub test_name : Text

module _ {W Service Wrapped : Type 0} where
  unfoldable pub new_test_controller :
      Text
      → Text
      → Text
      → Text
      → Text
      → Text
      → Dict Text (Test W Service Wrapped)
      → Text
      → TestController W Service Wrapped
  new_test_controller test_volume_name test_volume_filepath network_id subnet_mask gateway_ip
        test_controller_ip test_suite test_name =
      record {
        test_volume_name = test_volume_name;
        test_volume_filepath = test_volume_filepath;
        network_id = network_id;
        subnet_mask = subnet_mask;
        gateway_ip = gateway_ip;
        test_controller_ip = test_controller_ip;
        test_suite = test_suite;
        test_name = test_name;
      }

-- What runs around the controller: the Docker client, how many polls of a service are followed, and
-- after how many of the test's calls its execution timeout ends the wait. Here the test then makes no
-- more calls; those that it may still make are in Controller.Late.
pub record Surroundings (W : Type 0) : Type 0 where
  pub new_client : Act W (Unit {0})
  pub new_docker_manager : Act W (Unit {0})
  pub host : Host W
  pub background : Context
  pub polls : ℕ
  pub calls_in_time : ℕ

-- CONTAINER_STOP_TIMEOUT, in seconds.
abbrev pub container_stop_timeout : ℕ
container_stop_timeout = 30

-- `(setupErr error, testErr error)`
pub record Reports : Type 0 where
  pub setup_err : Option Error
  pub test_err : Option Error

abbrev pub setup_failed : Error → Reports
setup_failed e = record { setup_err = some e; test_err = none }

abbrev pub test_failed : Error → Reports
test_failed e = record { setup_err = none; test_err = some e }

abbrev pub test_passed : Reports
test_passed = record { setup_err = none; test_err = none }

-- The body either reaches a return, or the process dies of a panic that nothing recovers.
pub data Verdict : Type 0 where
  reported : Reports → Verdict
  crash : Verdict

-- RunTest returns before there is a network, or after the deferred RemoveAll, or not at all.
pub data Finish (W Service : Type 0) : Type 0 where
  unstarted : Error → W → Finish W Service
  stopped : Reports → ServiceNetwork W Service → W → Finish W Service
  crashed : ServiceNetwork W Service → W → Finish W Service

-- What runTest sends. recover() returns nil if nothing panics, and for panic(nil); any other value is
-- asserted to be an error.
pub data Sent : Type 0 where
  sent : Option Error → Sent
  assertion_panics : Sent

unfoldable pub run_test_result : Ending → Sent
run_test_result returned = sent none
run_test_result panicked_nil = sent none
run_test_result (panicked e) = sent (some e)
run_test_result panicked_other = assertion_panics

-- From the select on.
unfoldable pub after_select : Option Sent → Verdict
after_select none = reported (test_failed (failed Site.test_timeout))
after_select (some (sent none)) = reported test_passed
after_select (some (sent (some e))) = reported (test_failed (propagated Site.running_test e))
after_select (some assertion_panics) = crash

abbrev pub result_of : Option Ending → Option Sent
result_of none = none
result_of (some ending) = some (run_test_result ending)

module _ {W Service : Type 0} (surroundings : Surroundings W) where
  -- The loop over the availability checkers, in the order of the map.
  unfoldable pub wait_for_each :
      Dict Text (ServiceAvailabilityChecker Service)
      → Calls W Service Verdict
      → Calls W Service Verdict
  wait_for_each [] next = next
  wait_for_each ((service_id, availability_checker) ∷ more) next =
      elim (wait_for_startup surroundings.polls availability_checker) [
        | none ↦ hangs
        | some (err e) ↦
            finished (reported (setup_failed (propagated (Site.startup_of service_id) e)))
        | some (ok u) ↦ wait_for_each more next
      ]

  -- The deferred function.
  abbrev pub stop_network : Reports → Outcome W Service (Unit {0}) → Finish W Service
  stop_network reports o = stopped reports o.network o.world

  abbrev pub conclude : Verdict → ServiceNetwork W Service → W → Finish W Service
  conclude (reported reports) network w =
      stop_network reports (remove_all surroundings.host container_stop_timeout network w)
  conclude crash network w = crashed network w

  abbrev pub finish : Option (Left W Service Verdict) → Option (Finish W Service)
  finish none = none
  finish (some left) = some (conclude left.value left.network left.world)

module _ {W Service Wrapped : Type 0} (surroundings : Surroundings W) where
  abbrev pub execute : Test W Service Wrapped → Result Wrapped → Calls W Service Verdict
  execute test (err e) = finished (reported (setup_failed (propagated Site.wrap_network e)))
  execute test (ok untyped_network) =
      and_then (cut_off surroundings.calls_in_time (test.run untyped_network))
        (λ o. finished (after_select (result_of o)))

  abbrev pub after_initialization :
      NetworkLoader W Service Wrapped
      → Test W Service Wrapped
      → Result (Dict Text (ServiceAvailabilityChecker Service))
      → Calls W Service Verdict
  after_initialization network_loader test (err e) =
      finished (reported (setup_failed (propagated Site.initialize_network e)))
  after_initialization network_loader test (ok availability_checkers) =
      wait_for_each surroundings availability_checkers
        (and_then network_loader.wrap_network (execute test))

  -- RunTest from the call of InitializeNetwork on, as far as the deferred function.
  unfoldable pub use_network :
      NetworkLoader W Service Wrapped → Test W Service Wrapped → Calls W Service Verdict
  use_network network_loader test =
      and_then network_loader.initialize_network (after_initialization network_loader test)

  -- From the return of ConfigureNetwork on.
  abbrev pub with_builder :
      NetworkLoader W Service Wrapped
      → Test W Service Wrapped
      → W
      → Result (Unit {0}) × ServiceNetworkBuilder W Service
      → Option (Finish W Service)
  with_builder network_loader test w (err e, builder) =
      some (unstarted (propagated Site.configure_network e) w)
  with_builder network_loader test w (ok u, builder) = finish surroundings (
      run_calls surroundings.host surroundings.background (use_network network_loader test)
        (build builder) w)

module _ {W Service Wrapped : Type 0} (surroundings : Surroundings W)
    (controller : TestController W Service Wrapped) where
  abbrev pub already_taken_ips : Dict Text Bool
  already_taken_ips =
      insert controller.gateway_ip true (insert controller.test_controller_ip true [])

  abbrev pub with_tracker :
      NetworkLoader W Service Wrapped
      → Test W Service Wrapped
      → W
      → Result FreeIpAddrTracker
      → Option (Finish W Service)
  with_tracker network_loader test w (err e) =
      some (unstarted (propagated Site.controller_tracker e) w)
  with_tracker network_loader test w (ok free_ip_tracker) =
      with_builder surroundings network_loader test w (
        run_configures network_loader.configure_network (
          new_service_network_builder controller.network_id free_ip_tracker
            controller.test_volume_name controller.test_volume_filepath))

  abbrev pub with_manager :
      NetworkLoader W Service Wrapped
      → Test W Service Wrapped
      → Result (Unit {0}) × W
      → Option (Finish W Service)
  with_manager network_loader test (err e, w) = some (unstarted e w)
  with_manager network_loader test (ok u, w) =
      with_tracker network_loader test w
        (new_free_ip_addr_tracker controller.subnet_mask already_taken_ips)

  -- The Docker client, and the Docker manager on it.
  abbrev pub connect : Act W (Unit {0})
  connect w = propagating Site.docker_client (surroundings.new_client w) >>>= λ u v.
      propagating Site.new_docker_manager (surroundings.new_docker_manager v)

  abbrev pub with_loader :
      Test W Service Wrapped
      → W
      → Result (NetworkLoader W Service Wrapped)
      → Option (Finish W Service)
  with_loader test w (err e) = some (unstarted (propagated Site.nonexistent_loader e) w)
  with_loader test w (ok network_loader) = with_manager network_loader test (connect w)

  abbrev pub with_test : W → Option (Test W Service Wrapped) → Option (Finish W Service)
  with_test w none = some (unstarted (failed (Site.no_such_test controller.test_name)) w)
  with_test w (some test) = with_loader test w test.get_network_loader

  -- `none`: a call does not return.
  unfoldable pub run_test : W → Option (Finish W Service)
  run_test w = with_test w (lookup controller.test_name controller.test_suite)
