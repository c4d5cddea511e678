-- ===== src/Networks/ServiceNetwork.antt =====
-- commons/networks/service_network.go: the network of services of one test.
pub mod Lookups
pub mod Invariant
pub mod Addition
pub mod Addresses
use zz_deprecated_kurtosis.Base.{
  ℕ, List, [], ◌∷◌, map, Option, none, some, Text, Dict, keys, lookup, insert, delete, found,
  length, text_eq, if◌then◌else◌, Error, failed, propagated, Result, ok, err, Site, or_fail, ◌>>=◌,
}
use zz_deprecated_kurtosis.Net.Defs.{Ip}
use zz_deprecated_kurtosis.Networks.IpTracker.{FreeIpAddrTracker, get_free_ip_addr}
use zz_deprecated_kurtosis.Services.{Host, ServiceInitializerCore, ServiceAvailabilityCheckerCore}
use zz_deprecated_kurtosis.Services.ServiceInitializer.{new_service_initializer, create_service}
use zz_deprecated_kurtosis.Services.AvailabilityChecker.{
  Context, ServiceAvailabilityChecker, new_service_availability_checker,
}

pub record ServiceNode (Service : Type 0) : Type 0 where
  pub ip_addr : Ip
  pub service : Service
  pub container_id : Text

pub record ServiceConfig (W Service : Type 0) : Type 0 where
  pub docker_image : Text
  pub initializer_core : ServiceInitializerCore W Service
  pub availability_checker_core : ServiceAvailabilityCheckerCore Service

-- The Docker manager is the `Host` of the operations.
pub record ServiceNetwork (W Service : Type 0) : Type 0 where
  pub free_ip_tracker : FreeIpAddrTracker
  pub docker_network_id : Text
  pub service_nodes : Dict Text (ServiceNode Service)
  pub configurations : Dict Text (ServiceConfig W Service)
  pub test_volume : Text
  pub test_volume_controller_dirpath : Text

-- What an operation leaves: its result, the network and the world.
pub record Outcome (W Service A : Type 0) : Type 0 where
  pub result : Result A
  pub network : ServiceNetwork W Service
  pub world : W

abbrev pub with_dependency :
    {Service : Type 0} → Result (List Service) → ServiceNode Service → Result (List Service)
with_dependency (ok services) node = ok (node.service ∷ services)
with_dependency (err e) node = err e

-- The loop over the declared dependencies.
unfoldable pub dependency_services :
    {Service : Type 0} → Dict Text (ServiceNode Service) → List Text → Result (List Service)
dependency_services nodes [] = ok []
dependency_services nodes (dependency_id ∷ more) =
    or_fail (lookup dependency_id nodes) (Site.no_dependency dependency_id)
    >>= with_dependency (dependency_services nodes more)

module _ {W Service : Type 0} where
  unfoldable pub new_service_network :
      FreeIpAddrTracker
      → Text
      → Dict Text (ServiceConfig W Service)
      → Text
      → Text
      → ServiceNetwork W Service
  new_service_network free_ip_tracker docker_network_id configurations test_volume
        test_volume_controller_dirpath =
      record {
        free_ip_tracker = free_ip_tracker;
        docker_network_id = docker_network_id;
        service_nodes = [];
        configurations = configurations;
        test_volume = test_volume;
        test_volume_controller_dirpath = test_volume_controller_dirpath;
      }

  unfoldable pub get_size : ServiceNetwork W Service → ℕ
  get_size network = length network.service_nodes

  unfoldable pub get_service : Text → ServiceNetwork W Service → Result (ServiceNode Service)
  get_service service_id network =
      or_fail (lookup service_id network.service_nodes) (Site.no_service service_id)

  abbrev pub with_config :
      Text
      → Option (List Text)
      → Dict Text (ServiceNode Service)
      → ServiceConfig W Service
      → Result (ServiceConfig W Service × List Service)
  with_config service_id dependencies nodes config =
      if found (lookup service_id nodes)
      then err (failed (Site.service_exists service_id))
      else or_fail dependencies Site.nil_dependencies >>= dependency_services nodes >>= λ services.
          ok (config, services)

  -- The guards of AddService in their order. A nil map of dependencies is `none`.
  unfoldable pub check_request :
      Text
      → Text
      → Option (List Text)
      → ServiceNetwork W Service
      → Result (ServiceConfig W Service × List Service)
  check_request configuration_id service_id dependencies network =
      or_fail (lookup configuration_id network.configurations)
        (Site.no_configuration configuration_id)
      >>= with_config service_id dependencies network.service_nodes

  -- The end of AddService, by the result of CreateService.
  abbrev pub register :
      Context
      → Text
      → ServiceConfig W Service
      → List Service
      → Ip
      → ServiceNetwork W Service
      → Result (Service × Text) × W
      → Outcome W Service (ServiceAvailabilityChecker Service)
  register parent_ctx service_id config dependencies static_ip network (err e, w) = record {
    result = err (propagated (Site.creating_service service_id) e);
    network = network;
    world = w;
  }
  register parent_ctx service_id config dependencies static_ip network
        (ok (service, container_id), w) =
      let node : ServiceNode Service = record {
        ip_addr = static_ip;
        service = service;
        container_id = container_id;
      } in
      record {
        result = ok (
            new_service_availability_checker parent_ctx config.availability_checker_core service
              dependencies);
        network = record network { service_nodes = insert service_id node network.service_nodes };
        world = w;
      }

module _ {W Service : Type 0} (host : Host W) (background : Context) where
  -- AddService from the call of CreateService on.
  abbrev pub start_node :
      Text
      → ServiceConfig W Service
      → List Service
      → Ip
      → ServiceNetwork W Service
      → W
      → Outcome W Service (ServiceAvailabilityChecker Service)
  start_node service_id config dependencies static_ip network w =
      register background service_id config dependencies static_ip network (
        create_service host
          (new_service_initializer config.initializer_core network.docker_network_id
            network.test_volume_controller_dirpath)
          network.test_volume config.docker_image static_ip dependencies w)

  -- AddService after the call of GetFreeIpAddr, on the shared tracker as that call leaves it.
  abbrev pub with_address :
      Text
      → ServiceConfig W Service
      → List Service
      → ServiceNetwork W Service
      → W
      → Result Ip × FreeIpAddrTracker
      → Outcome W Service (ServiceAvailabilityChecker Service)
  with_address service_id config dependencies network w (err e, tracker) = record {
    result = err (propagated Site.allocate_ip e);
    network = record network { free_ip_tracker = tracker };
    world = w;
  }
  with_address service_id config dependencies network w (ok static_ip, tracker) =
      start_node service_id config dependencies static_ip
        (record network { free_ip_tracker = tracker }) w

  abbrev pub allocate :
      Text
      → ServiceConfig W Service
      → List Service
      → ServiceNetwork W Service
      → W
      → Option (Result Ip × FreeIpAddrTracker)
      → Option (Outcome W Service (ServiceAvailabilityChecker Service))
  allocate service_id config dependencies network w none = none
  allocate service_id config dependencies network w (some r) =
      some (with_address service_id config dependencies network w r)

  abbrev pub add_checked :
      Text
      → ServiceNetwork W Service
      → W
      → Result (ServiceConfig W Service × List Service)
      → Option (Outcome W Service (ServiceAvailabilityChecker Service))
  add_checked service_id network w (err e) =
      some (record { result = err e; network = network; world = w })
  add_checked service_id network w (ok (config, services)) =
      allocate service_id config services network w (get_free_ip_addr network.free_ip_tracker)

  -- `none`: the allocation of the address does not return.
  unfoldable pub add_service :
      Text
      → Text
      → Option (List Text)
      → ServiceNetwork W Service
      → W
      → Option (Outcome W Service (ServiceAvailabilityChecker Service))
  add_service configuration_id service_id dependencies network w =
      add_checked service_id network w
        (check_request configuration_id service_id dependencies network)

module _ {W Service : Type 0} (host : Host W) (container_stop_timeout : ℕ) where
  -- The container is stopped as a best effort: an error is logged.
  abbrev pub remove_found :
      Text
      → ServiceNetwork W Service
      → W
      → Option (ServiceNode Service)
      → Outcome W Service (Unit {0})
  remove_found service_id network w none = record {
    result = err (failed (Site.no_service service_id));
    network = network;
    world = w;
  }
  remove_found service_id network w (some node_info) = record {
    result = ok tt;
    network = record network { service_nodes = delete service_id network.service_nodes };
    world = (host.stop_container node_info.container_id container_stop_timeout w).1;
  }

  unfoldable pub remove_service : Text → ServiceNetwork W Service → W → Outcome W Service (Unit {0})
  remove_service service_id network w =
      remove_found service_id network w (lookup service_id network.service_nodes)

  -- The loop over the service IDs.
  unfoldable pub remove_each :
      List Text → ServiceNetwork W Service → W → ServiceNetwork W Service × W
  remove_each [] network w = (network, w)
  remove_each (service_id ∷ more) network w =
      let o = remove_service service_id network w in remove_each more o.network o.world

  -- An entry that is deleted when `range` has visited it does not change what it visits later.
  unfoldable pub remove_all : ServiceNetwork W Service → W → Outcome W Service (Unit {0})
  remove_all network w =
      let (left, after) = remove_each (keys network.service_nodes) network w in
      record { result = ok tt; network = left; world = after }
