-- ===== src/Controller/Late/Tests.antt =====
-- A test that adds a service after its timeout.
use zz_deprecated_kurtosis.Base.{
  ℕ, ◌≡◌, refl, [], ◌∷◌, none, some, Text, codes, lookup, insert, text_eq, text_beq, ok, Result,
  keys, true,
}
use zz_deprecated_kurtosis.Net.Defs.{ip4, uint32, put_uint32, Ip}
use zz_deprecated_kurtosis.Net.Decimal.{dec_text}
use zz_deprecated_kurtosis.Net.Cidr.{quad_text, mask_quad, cidr_mask}
use zz_deprecated_kurtosis.Services.ServiceInitializer.{
  new_service_initializer, create_files, create_service,
}
use zz_deprecated_kurtosis.Networks.IpTracker.{
  FreeIpAddrTracker, is_taken, scan, start_of, finish_of, get_free_ip_addr,
}
use zz_deprecated_kurtosis.Networks.ServiceNetwork.{
  ServiceNode, ServiceNetwork, new_service_network, dependency_services, check_request,
  ServiceConfig,
}
use zz_deprecated_kurtosis.Networks.Builder.{ServiceNetworkBuilder, copy_configurations, build}
use zz_deprecated_kurtosis.Controller.Upkeep.{Upkept}
use zz_deprecated_kurtosis.Controller.Cleanup.{build-Upkept}
use zz_deprecated_kurtosis.Controller.Sample.{host, background, core, checker_core}
use zz_deprecated_kurtosis.Controller.Late.{
  InFlight, Late, begun, creation, launched_call, entered, stop, add_begins, add_creates,
  add_enters, LateSteps, here, next, using,
}
use zz_deprecated_kurtosis.Controller.Late.Leftovers.{Among, late_calls-Leave}

abbrev tracker : FreeIpAddrTracker
tracker = record {
  subnet = record { ip = ip4 (put_uint32 167772160); mask = cidr_mask 29 };
  taken_ips = [];
}

abbrev builder : ServiceNetworkBuilder ℕ Text
builder = record {
  docker_network_id = codes "n";
  free_ip_tracker = tracker;
  configurations =
      (
        codes "node",
        record {
          docker_image = codes "image";
          initializer_core = core;
          availability_checker_core = checker_core;
        },
      )
      ∷ [];
  test_volume = codes "vol";
  test_volume_controller_dirpath = codes "/shared";
}

abbrev network : ServiceNetwork ℕ Text
network = build builder

abbrev config : ServiceConfig ℕ Text
config = record {
  docker_image = codes "image";
  initializer_core = core;
  availability_checker_core = checker_core;
}

abbrev address : Ip
address = ip4 (put_uint32 167772161)

abbrev taken : FreeIpAddrTracker
taken = record tracker { taken_ips = (codes "10.0.0.1", true) ∷ [] }

allowed : check_request (codes "node") (codes "b") (some []) network ≡ ok (config, [])
unfolding build copy_configurations new_service_network lookup text_beq check_request insert
    dependency_services
allowed = refl

allocated : get_free_ip_addr tracker ≡ some (ok address, taken)
unfolding get_free_ip_addr scan start_of finish_of is_taken uint32 mask_quad cidr_mask put_uint32
    quad_text dec_text lookup insert text_beq
allocated = refl

-- AddService has its address when RemoveAll starts, which finds no service and has nothing to visit.
abbrev in_call : Late ℕ Text
in_call = begun (codes "b") (config, []) address taken (using network 0)

abbrev call : InFlight ℕ Text
call = record {
  service_id = codes "b";
  config = config;
  dependencies = [];
  static_ip = address;
  created = none;
}

abbrev stopping_now : Late ℕ Text
stopping_now = record in_call { stopping = true; to_visit = keys network.service_nodes; added = [] }

abbrev launched_now : Late ℕ Text
launched_now = launched_call host background call stopping_now

abbrev made : Result (Text × Text)
made = (creation host background call stopping_now).0

abbrev late : Late ℕ Text
late = entered host background (record call { created = some made }) made launched_now

late_add : LateSteps host background (using network 0) late
unfolding using build new_service_network
late_add =
    next
      (next
        (next
          (next here (
            add_begins (codes "node") (codes "b") (some []) (config, []) address taken refl allowed
              allocated refl))
          (stop refl refl))
        (add_creates call refl refl refl))
      (add_enters (record call { created = some made }) made refl refl refl)

nothing_to_visit : late.to_visit ≡ []
unfolding build new_service_network create_service create_files new_service_initializer put_uint32
    quad_text dec_text
nothing_to_visit = refl

is_stopping : late.stopping ≡ true
unfolding create_service create_files new_service_initializer put_uint32 quad_text dec_text
is_stopping = refl

late_calls-Leave_example :
    Upkept tracker late.network
    × ((k : Text) (a : ServiceNode Text)
        → lookup k late.network.service_nodes ≡ some a
        → Among k late.added)
late_calls-Leave_example =
    late_calls-Leave host background tracker network 0 late (build-Upkept builder) late_add
      is_stopping nothing_to_visit
