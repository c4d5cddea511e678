-- ===== src/Controller/Tests.antt =====
-- A run of a test with two services.
use zz_deprecated_kurtosis.Base.{
  some-inj, ok-inj, ℕ, ◌≡◌, refl, sym, ap, subst, ◌∙◌, [], ◌∷◌, Option, none, some, Text, codes,
  lookup, insert, text_eq, text_beq, Result, ok, err, arith,
}
use zz_deprecated_kurtosis.Net.Defs.{IpNet, ip4, uint32, put_uint32}
use zz_deprecated_kurtosis.Net.Decimal.{dec_text, dtoi}
use zz_deprecated_kurtosis.Net.Cidr.{
  parse_cidr, split_slash, parse_ipv4, parse_byte, skip_dot, quad_text, mask_quad, cidr_mask,
}
use zz_deprecated_kurtosis.Services.ServiceInitializer.{
  new_service_initializer, create_files, create_service,
}
use zz_deprecated_kurtosis.Services.AvailabilityChecker.{
  deadline_exceeded, ServiceAvailabilityChecker, copy, new_service_availability_checker, wait_loop,
  wait_for_startup,
}
use zz_deprecated_kurtosis.Networks.IpTracker.{
  is_taken, scan, start_of, finish_of, get_free_ip_addr,
}
use zz_deprecated_kurtosis.Networks.IpTracker.Laws.{IsNetwork}
use zz_deprecated_kurtosis.Networks.ServiceNetwork.{
  ServiceNetwork, dependency_services, check_request, add_service,
}
use zz_deprecated_kurtosis.Controller.Answers.{Answers, Watches}
use zz_deprecated_kurtosis.Networks.IpTracker.Room.{Allocates}
use zz_deprecated_kurtosis.Controller.Returns.{Deadlines, CanWait, Responsive, run_test_returns}
use zz_deprecated_kurtosis.Controller.Outcomes.{Passed, use_network-Passed}
use zz_deprecated_kurtosis.Controller.Context.{fail_test}
use zz_deprecated_kurtosis.Controller.Calls.{Left, and_then, cut_off, run_calls}
use zz_deprecated_kurtosis.Controller.TestController.{
  NetworkLoader, Test, test_passed, Verdict, reported, crash, Finish, unstarted, stopped, crashed,
  run_test_result, after_select, wait_for_each, use_network, run_test,
}
use zz_deprecated_kurtosis.Controller.Sample.{
  host, background, core, checker_core, waits, loader, test, controller, surroundings,
}

abbrev network_of : ServiceNetwork ℕ Text → Option (Finish ℕ Text) → ServiceNetwork ℕ Text
network_of n none = n
network_of n (some (unstarted e w)) = n
network_of n (some (stopped reports m w)) = m
network_of n (some (crashed m w)) = m

abbrev no_network : ServiceNetwork ℕ Text
no_network = record {
  free_ip_tracker = record {
    subnet = record { ip = ip4 (put_uint32 0); mask = cidr_mask 0 };
    taken_ips = [];
  };
  docker_network_id = [];
  service_nodes = [];
  configurations = [];
  test_volume = [];
  test_volume_controller_dirpath = [];
}

abbrev subnet : IpNet
subnet = record { ip = ip4 (put_uint32 167772160); mask = cidr_mask 29 }

subnet-IsNetwork : IsNetwork subnet 167772160 3
unfolding uint32 cidr_mask put_uint32
subnet-IsNetwork = record {
  address = refl;
  mask = refl;
  aligned = refl;
  bits = omega arith;
  fits = omega arith;
}

parsed : parse_cidr (codes "10.0.0.0/29") ≡ some subnet
unfolding parse_cidr split_slash parse_ipv4 parse_byte dtoi skip_dot uint32 mask_quad cidr_mask
    put_uint32
parsed = refl

nets : (net : IpNet) → parse_cidr (codes "10.0.0.0/29") ≡ some net → Allocates net
nets net e = subst Allocates (some-inj (sym parsed ∙ e)) (record {
  base = 167772160;
  bits = 3;
  is = subnet-IsNetwork;
  hosts = omega arith;
  room = omega arith;
})

deadlines : Deadlines surroundings
deadlines = record {
  deadline = λ timeout. 3;
  reason = λ timeout. deadline_exceeded;
  last = λ timeout. refl;
  alive = λ timeout j h. ground arith;
  enough = λ timeout. omega arith;
}

waits-CanWait :
    (r : Result (ServiceAvailabilityChecker Text))
    → Watches background r
    → CanWait surroundings (waits r)
waits-CanWait (ok checker) h = (h, tt)
waits-CanWait (err e) h = tt

loader-Responsive : Responsive surroundings loader
unfolding Answers
loader-Responsive = record { initialize = waits-CanWait; wrapping = tt }

hooks :
    (given : Test ℕ Text Text) (used : NetworkLoader ℕ Text Text)
    → lookup (codes "t") ((codes "t", test) ∷ []) ≡ some given
    → given.get_network_loader ≡ ok used
    → Responsive surroundings used
unfolding lookup text_beq
hooks given used e f =
    subst (Responsive surroundings)
      (ok-inj (ap (λ (t : Test ℕ Text Text). t.get_network_loader) (some-inj e) ∙ f))
      loader-Responsive

run_test_returns_example : (f : Finish ℕ Text) × (run_test surroundings controller 0 ≡ some f)
run_test_returns_example = run_test_returns surroundings controller 0 nets deadlines hooks

-- The network as Build makes it.
abbrev built : ServiceNetwork ℕ Text
built = record {
  free_ip_tracker = record { subnet = subnet; taken_ips = [] };
  docker_network_id = codes "n";
  service_nodes = [];
  configurations =
      (
        codes "node",
        record {
          docker_image = codes "image";
          initializer_core = core;
          availability_checker_core = checker_core;
        },
      )
      ∷ [];
  test_volume = codes "vol";
  test_volume_controller_dirpath = codes "/shared";
}

abbrev left_of : Left ℕ Text Verdict → Option (Left ℕ Text Verdict) → Left ℕ Text Verdict
left_of l none = l
left_of l (some k) = k

abbrev unused : Left ℕ Text Verdict
unused = record { value = crash; network = no_network; world = 0 }

abbrev used : Left ℕ Text Verdict
used = left_of unused (run_calls host background (use_network surroundings loader test) built 0)

body_runs : run_calls host background (use_network surroundings loader test) built 0 ≡ some used
unfolding get_free_ip_addr scan start_of finish_of is_taken uint32 cidr_mask lookup insert text_beq
    put_uint32 quad_text dec_text run_calls and_then cut_off use_network wait_for_each
    run_test_result after_select fail_test add_service check_request dependency_services
    create_service create_files new_service_initializer new_service_availability_checker copy
    wait_for_startup wait_loop
body_runs = refl

body_passes : used.value ≡ reported test_passed
unfolding get_free_ip_addr scan start_of finish_of is_taken uint32 cidr_mask lookup insert text_beq
    put_uint32 quad_text dec_text run_calls and_then cut_off use_network wait_for_each
    run_test_result after_select fail_test add_service check_request dependency_services
    create_service create_files new_service_initializer new_service_availability_checker copy
    wait_for_startup wait_loop
body_passes = refl

use_network-Passed_example : Passed surroundings loader test built 0 used
use_network-Passed_example =
    use_network-Passed surroundings loader test built 0 used body_runs body_passes
