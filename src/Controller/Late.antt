-- ===== src/Controller/Late.antt =====
-- RunTest of controller/test_controller.go around the execution timeout: the test uses its network,
-- and from some moment on, which may be in the middle of an AddService, the deferred RemoveAll visits
-- the services one by one while the goroutine of the test, which nothing stops, goes on. AddService
-- is three steps: as far as the allocation of the address, CreateService, and the entry in the map.
-- The other calls are one step each. What the Go runtime does about a map that two goroutines use at
-- once, which may be to end the process, is left out.
pub mod Steps
pub mod Leftovers
mod Tests
use zz_deprecated_kurtosis.Base.{
  ℕ, List, [], ◌∷◌, Bool, true, false, Option, none, some, Text, keys, ◌≡◌, Error, Result, ok, err,
}
use zz_deprecated_kurtosis.Net.Defs.{Ip}
use zz_deprecated_kurtosis.Services.{Host}
use zz_deprecated_kurtosis.Services.AvailabilityChecker.{Context, ServiceAvailabilityChecker}
use zz_deprecated_kurtosis.Services.ServiceInitializer.{new_service_initializer, create_service}
use zz_deprecated_kurtosis.Networks.IpTracker.{FreeIpAddrTracker, get_free_ip_addr}
use zz_deprecated_kurtosis.Networks.ServiceNetwork.{
  ServiceConfig, ServiceNetwork, Outcome, check_request, register, remove_service, remove_all,
}
use zz_deprecated_kurtosis.Controller.TestController.{container_stop_timeout}

-- A call of AddService that has its address: what it goes on with, and the result of CreateService
-- once that has returned.
pub record InFlight (W Service : Type 0) : Type 0 where
  pub service_id : Text
  pub config : ServiceConfig W Service
  pub dependencies : List Service
  pub static_ip : Ip
  pub created : Option (Result (Service × Text))

-- The network and the world, the test's call of AddService if it is in the middle of one, whether
-- RemoveAll has started, the services that it has yet to visit, and the IDs that AddService has
-- entered in the map since.
pub record Late (W Service : Type 0) : Type 0 where
  pub network : ServiceNetwork W Service
  pub world : W
  pub call : Option (InFlight W Service)
  pub stopping : Bool
  pub to_visit : List Text
  pub added : List Text

-- An AddService that fails enters nothing.
abbrev pub note_added :
    {Service : Type 0} → Text → Result (ServiceAvailabilityChecker Service) → List Text → List Text
note_added service_id (ok checker) added = service_id ∷ added
note_added service_id (err e) added = added

-- AddService when it has its address.
abbrev pub begun :
    {W Service : Type 0}
    → Text
    → ServiceConfig W Service × List Service
    → Ip
    → FreeIpAddrTracker
    → Late W Service
    → Late W Service
begun service_id (config, dependencies) static_ip tracker s = record s {
  network = record (s.network) { free_ip_tracker = tracker };
  call = some (record {
    service_id = service_id;
    config = config;
    dependencies = dependencies;
    static_ip = static_ip;
    created = none;
  });
}

module _ {W Service : Type 0} (host : Host W) (background : Context) where
  -- CreateService of a call.
  abbrev pub creation : InFlight W Service → Late W Service → Result (Service × Text) × W
  creation c s =
      create_service host
        (new_service_initializer c.config.initializer_core s.network.docker_network_id
          s.network.test_volume_controller_dirpath)
        s.network.test_volume c.config.docker_image c.static_ip c.dependencies s.world

  abbrev pub launched_call : InFlight W Service → Late W Service → Late W Service
  launched_call c s =
      let (r, w) = creation c s in
      record s { world = w; call = some (record c { created = some r }) }

  -- The end of a call, by the result of CreateService.
  abbrev pub entered :
      InFlight W Service → Result (Service × Text) → Late W Service → Late W Service
  entered c r s =
      let o =
        register background c.service_id c.config c.dependencies c.static_ip s.network
          (r, s.world) in
      record s {
        network = o.network;
        world = o.world;
        call = none;
        added = note_added c.service_id o.result s.added;
      }

  -- What a call that removes services leaves.
  abbrev pub after_removal :
      List Text → Outcome W Service (Unit {0}) → Late W Service → Late W Service
  after_removal to_visit o s = record s {
    network = o.network;
    world = o.world;
    to_visit = to_visit;
  }

  -- `stop` is the start of RemoveAll, and `visit` its next service of those that were there then;
  -- `range` may, or may not, also give it one that was entered since, by `visit_added`. `acts` is
  -- whatever changes the world. The others are the test's calls.
  pub data LateStep (s t : Late W Service) : Type 0 where
    stop :
        s.stopping ≡ false
        → t ≡ record s { stopping = true; to_visit = keys s.network.service_nodes; added = [] }
        → LateStep s t
    visit :
        (id : Text) (rest : List Text)
        → s.stopping ≡ true
        → s.to_visit ≡ id ∷ rest
        → t ≡ after_removal rest (remove_service host container_stop_timeout id s.network s.world) s
        → LateStep s t
    visit_added :
        (id : Text)
        → s.stopping ≡ true
        → t
          ≡ after_removal
              (s.to_visit)
              (remove_service host container_stop_timeout id s.network s.world)
              s
        → LateStep s t
    add_refused :
        (configuration_id service_id : Text) (dependencies : Option (List Text)) (e : Error)
        → s.call ≡ none
        → check_request configuration_id service_id dependencies s.network ≡ err e
        → t ≡ s
        → LateStep s t
    add_without_address :
        (configuration_id service_id : Text) (dependencies : Option (List Text))
        (checked : ServiceConfig W Service × List Service) (e : Error) (tracker : FreeIpAddrTracker)
        → s.call ≡ none
        → check_request configuration_id service_id dependencies s.network ≡ ok checked
        → get_free_ip_addr s.network.free_ip_tracker ≡ some (err e, tracker)
        → t ≡ record s { network = record (s.network) { free_ip_tracker = tracker } }
        → LateStep s t
    add_begins :
        (configuration_id service_id : Text) (dependencies : Option (List Text))
        (checked : ServiceConfig W Service × List Service) (static_ip : Ip)
        (tracker : FreeIpAddrTracker)
        → s.call ≡ none
        → check_request configuration_id service_id dependencies s.network ≡ ok checked
        → get_free_ip_addr s.network.free_ip_tracker ≡ some (ok static_ip, tracker)
        → t ≡ begun service_id checked static_ip tracker s
        → LateStep s t
    add_creates :
        (c : InFlight W Service)
        → s.call ≡ some c
        → c.created ≡ none
        → t ≡ launched_call c s
        → LateStep s t
    add_enters :
        (c : InFlight W Service) (r : Result (Service × Text))
        → s.call ≡ some c
        → c.created ≡ some r
        → t ≡ entered c r s
        → LateStep s t
    removes :
        (id : Text) (timeout : ℕ)
        → s.call ≡ none
        → t ≡ after_removal (s.to_visit) (remove_service host timeout id s.network s.world) s
        → LateStep s t
    clears :
        (timeout : ℕ)
        → s.call ≡ none
        → t ≡ after_removal (s.to_visit) (remove_all host timeout s.network s.world) s
        → LateStep s t
    acts : (f : W → W) → t ≡ record s { world = f s.world } → LateStep s t

  pub data LateSteps (s : Late W Service) : Late W Service → Type 0 where
    here : LateSteps s s
    next : {t u : Late W Service} → LateSteps s t → LateStep t u → LateSteps s u

-- The network as it is given to InitializeNetwork.
unfoldable pub using : {W Service : Type 0} → ServiceNetwork W Service → W → Late W Service
using network w = record {
  network = network;
  world = w;
  call = none;
  stopping = false;
  to_visit = [];
  added = [];
}
