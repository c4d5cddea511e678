-- ===== src/Networks/Tests.antt =====
-- Runs of a network of one kind of service.
use zz_deprecated_kurtosis.Base.{
  ℕ, ◌+◌, ◌<◌, ◌≡◌, refl, List, [], ◌∷◌, Option, none, some, lookup, insert, ◌⊎◌, Text, codes, Dict,
  text_eq, text_beq, nat_beq, ltb, if◌then◌else◌, Error, external, ok, err, arith,
}
use zz_deprecated_kurtosis.Net.Defs.{Ip, ip4, uint32, put_uint32}
use zz_deprecated_kurtosis.Net.Decimal.{dec_text}
use zz_deprecated_kurtosis.Net.Cidr.{quad_text}
use zz_deprecated_kurtosis.Networks.IpTracker.{
  FreeIpAddrTracker, is_taken, scan, start_of, finish_of, get_free_ip_addr,
}
use zz_deprecated_kurtosis.Actions.{Act}
use zz_deprecated_kurtosis.Services.{Host, ServiceInitializerCore, ServiceAvailabilityCheckerCore}
use zz_deprecated_kurtosis.Services.ServiceInitializer.{
  ServiceInitializer, new_service_initializer, create_files, create_service,
}
use zz_deprecated_kurtosis.Services.ServiceInitializer.Laws.{create_service-ignores_error}
use zz_deprecated_kurtosis.Services.AvailabilityChecker.{
  ContextErr, deadline_exceeded, Context, ServiceAvailabilityChecker, context_err, wait_for_startup,
}
use zz_deprecated_kurtosis.Services.AvailabilityChecker.Laws.{
  UpFirst, NeverUp, wait_for_startup_ends,
}
use zz_deprecated_kurtosis.Networks.ServiceNetwork.{
  ServiceNode, ServiceConfig, ServiceNetwork, Outcome, new_service_network, get_service,
  dependency_services, check_request, add_service, remove_service,
}
use zz_deprecated_kurtosis.Networks.ServiceNetwork.Invariant.{Sound, new-Sound, add_service-Sound}
use zz_deprecated_kurtosis.Networks.ServiceNetwork.Addition.{Allowed, Added, add_service-Effect}
use zz_deprecated_kurtosis.Networks.ServiceNetwork.Lookups.{Removed, remove_service-Removed}
use zz_deprecated_kurtosis.Networks.Builder.{
  ServiceNetworkBuilder, new_service_network_builder, build,
}
use zz_deprecated_kurtosis.Networks.Builder.Laws.{add_all, build_first_registered}

-- A world that counts the calls; containers are named by the count, and services by their address.
abbrev counting : Host ℕ
counting = record {
  generate_uuid = λ w. (w ∷ [], w + 1);
  join = λ dir name. dir;
  mkdir = λ dir w. (ok tt, w + 1);
  create_file = λ path w. (ok tt, w + 1);
  create_and_start_container = λ request w. (ok (w ∷ []), w + 1);
  stop_container = λ id timeout w. (err (external 7), w + 1);
}

abbrev core : ServiceInitializerCore ℕ Text
core = record {
  get_used_ports = codes "80" ∷ [];
  get_service_from_ip = λ ip. ip;
  get_files_to_mount = codes "config" ∷ [];
  initialize_mounted_files = λ files deps w. (err (external 1), w + 1);
  get_start_command = λ files ip deps w. (ok [], w);
  get_test_volume_mountpoint = codes "/shared";
}

-- Up at the third poll; the context ends at the sixth.
abbrev checker_core : ServiceAvailabilityCheckerCore Text
checker_core = record { is_service_up = λ poll service deps. nat_beq poll 2; get_timeout = 30 }

abbrev after_five : ℕ → ℕ → Option ContextErr
after_five timeout n = if ltb n 5 then none else some deadline_exceeded

abbrev background : Context
background = record { err_at = after_five }

abbrev checker : ServiceAvailabilityChecker Text
checker = record {
  context = background;
  core = checker_core;
  to_check = codes "s";
  dependencies = [];
}

alive : (j : ℕ) → j < 5 → context_err checker j ≡ none
alive j h = ground arith

wait_for_startup_ends_example :
    UpFirst checker 0 5 (wait_for_startup 6 checker)
    ⊎ NeverUp checker 0 5 deadline_exceeded (wait_for_startup 6 checker)
wait_for_startup_ends_example =
    wait_for_startup_ends checker 6 5 deadline_exceeded refl alive (omega arith)

abbrev initializer : ServiceInitializer ℕ Text
initializer = record {
  core = core;
  network_id = codes "n";
  test_volume_controller_dirpath = codes "/v";
}

abbrev ip : Ip
ip = ip4 (record { b0 = 10; b1 = 0; b2 = 0; b3 = 1 })

created :
    create_service counting initializer (codes "vol") (codes "img") ip [] 0
    ≡ (ok (codes "10.0.0.1", 5 ∷ []), 6)
unfolding create_service create_files insert quad_text dec_text
created = refl

abbrev no_error : Dict Text Text → List Text → Act ℕ (Unit {0})
no_error files deps w = (ok tt, w + 1)

same_world :
    (files : Dict Text Text) (deps : List Text) (w : ℕ)
    → (no_error files deps w).1 ≡ (core.initialize_mounted_files files deps w).1
same_world files deps w = refl

create_service-ignores_error_example :
    create_service counting
      (record initializer {
        core = record (initializer.core) { initialize_mounted_files = no_error };
      })
      (codes "vol")
      (codes "img")
      ip
      []
      0
    ≡ create_service counting initializer (codes "vol") (codes "img") ip [] 0
create_service-ignores_error_example =
    create_service-ignores_error counting initializer no_error same_world (codes "vol")
      (codes "img") ip [] 0

abbrev tracker : FreeIpAddrTracker
tracker = record {
  subnet = record {
    ip = ip4 (record { b0 = 10; b1 = 0; b2 = 0; b3 = 0 });
    mask = record { b0 = 255; b1 = 255; b2 = 255; b3 = 252 };
  };
  taken_ips = [];
}

abbrev config : ServiceConfig ℕ Text
config = record {
  docker_image = codes "img";
  initializer_core = core;
  availability_checker_core = checker_core;
}

abbrev network : ServiceNetwork ℕ Text
network =
    new_service_network tracker (codes "n") ((codes "c", config) ∷ []) (codes "vol") (codes "/v")

network-Sound : Sound network
network-Sound = new-Sound tracker (codes "n") ((codes "c", config) ∷ []) (codes "vol") (codes "/v")

abbrev added :
    Option (Outcome ℕ Text (ServiceAvailabilityChecker Text))
    → Outcome ℕ Text (ServiceAvailabilityChecker Text)
added none = record { result = err (external 0); network = network; world = 0 }
added (some o) = o

abbrev after_add : Outcome ℕ Text (ServiceAvailabilityChecker Text)
after_add = added (add_service counting background (codes "c") (codes "s") (some []) network 0)

add_returns :
    add_service counting background (codes "c") (codes "s") (some []) network 0 ≡ some after_add
unfolding add_service check_request dependency_services new_service_network get_free_ip_addr scan
    start_of finish_of is_taken lookup insert text_beq quad_text dec_text put_uint32 uint32
add_returns = refl

add_service-Sound_example : Sound after_add.network
add_service-Sound_example =
    add_service-Sound counting background network 0 (codes "c") (codes "s") (some []) after_add
      network-Sound add_returns

add_service-Effect_example :
    ((e : Error)
      → after_add.result ≡ err e
      → after_add.network.service_nodes ≡ network.service_nodes)
    × ((made : ServiceAvailabilityChecker Text)
        → after_add.result ≡ ok made
        → Allowed network (codes "c") (codes "s") (some [])
          × Added network (codes "s") made after_add.network)
add_service-Effect_example =
    add_service-Effect counting background network 0 (codes "c") (codes "s") (some []) after_add
      add_returns

abbrev node : ServiceNode Text
node = record { ip_addr = ip; service = codes "10.0.0.1"; container_id = 5 ∷ [] }

node_there : get_service (codes "s") after_add.network ≡ ok node
unfolding get_service add_service check_request dependency_services new_service_network
    get_free_ip_addr scan start_of finish_of is_taken lookup insert text_beq quad_text dec_text
    put_uint32 uint32 create_service create_files new_service_initializer
node_there = refl

remove_service-Removed_example :
    Removed counting 10
      (codes "s")
      after_add.network
      6
      node
      (remove_service counting 10 (codes "s") after_add.network 6)
remove_service-Removed_example =
    remove_service-Removed counting 10 (codes "s") after_add.network 6 node
      add_service-Sound_example node_there

abbrev registrations : List (Text × ServiceConfig ℕ Text)
registrations =
    (codes "c", config) ∷ (codes "c", record config { docker_image = codes "other" }) ∷ []

abbrev builder : ServiceNetworkBuilder ℕ Text
builder = new_service_network_builder (codes "n") tracker (codes "vol") (codes "/v")

build_first_registered_example :
    (lookup (codes "c") (build (add_all registrations builder)).configurations
      ≡ lookup (codes "c") registrations)
    × Sound (build (add_all registrations builder))
build_first_registered_example =
    build_first_registered (codes "n") tracker (codes "vol") (codes "/v") registrations (codes "c")
