-- ===== src/Networks/Builder/Store.antt =====
-- commons/networks/service_network_builder.go with the maps and the tracker as objects in memory: a
-- builder and a network hold references to them, AddConfiguration writes to the map that the builder
-- refers to, and Build makes a new map.
pub mod Sharing
mod Tests
use zz_deprecated_kurtosis.Base.{
  ℕ, suc, nat_beq, List, [], ◌∷◌, if◌then◌else◌, Text, Dict, lookup, insert, found, text_eq, failed,
  Result, ok, err, Site,
}
use zz_deprecated_kurtosis.Networks.IpTracker.{FreeIpAddrTracker}
use zz_deprecated_kurtosis.Networks.ServiceNetwork.{
  ServiceConfig, ServiceNetwork, new_service_network,
}
use zz_deprecated_kurtosis.Networks.Builder.{ServiceNetworkBuilder}
use zz_deprecated_kurtosis.Services.{ServiceInitializerCore, ServiceAvailabilityCheckerCore}

-- The maps by their references, of which those from `next_map` on are unused, and the trackers.
pub record Memory (W Service : Type 0) : Type 0 where
  pub next_map : ℕ
  pub maps : ℕ → Dict Text (ServiceConfig W Service)
  pub trackers : ℕ → FreeIpAddrTracker

-- A builder's fields; the map and the tracker are references.
pub record BuilderObject : Type 0 where
  pub docker_network_id : Text
  pub free_ip_tracker : ℕ
  pub configurations : ℕ
  pub test_volume : Text
  pub test_volume_controller_dirpath : Text

-- A new network's fields; its map of services is new and empty.
pub record NetworkObject : Type 0 where
  pub docker_network_id : Text
  pub free_ip_tracker : ℕ
  pub configurations : ℕ
  pub test_volume : Text
  pub test_volume_controller_dirpath : Text

module _ {W Service : Type 0} where
  -- The builder and the network that the objects stand for.
  abbrev pub read_builder : Memory W Service → BuilderObject → ServiceNetworkBuilder W Service
  read_builder memory builder = record {
    docker_network_id = builder.docker_network_id;
    free_ip_tracker = memory.trackers builder.free_ip_tracker;
    configurations = memory.maps builder.configurations;
    test_volume = builder.test_volume;
    test_volume_controller_dirpath = builder.test_volume_controller_dirpath;
  }

  abbrev pub read_network : Memory W Service → NetworkObject → ServiceNetwork W Service
  read_network memory network =
      new_service_network (memory.trackers network.free_ip_tracker) network.docker_network_id
        (memory.maps network.configurations) network.test_volume
        network.test_volume_controller_dirpath

  -- `m[key] = config` on the map at a reference.
  abbrev pub write_map : ℕ → Text → ServiceConfig W Service → Memory W Service → Memory W Service
  write_map ref key config memory = record memory {
    maps = λ other.
        if nat_beq ref other then insert key config (memory.maps ref) else memory.maps other;
  }

  -- `make(map[ConfigurationID]serviceConfig)`
  abbrev pub make_map : Memory W Service → Memory W Service
  make_map memory = record memory {
    next_map = suc memory.next_map;
    maps = λ other. if nat_beq memory.next_map other then [] else memory.maps other;
  }

  unfoldable pub add_configuration_in :
      Text
      → Text
      → ServiceInitializerCore W Service
      → ServiceAvailabilityCheckerCore Service
      → BuilderObject
      → Memory W Service
      → Result (Unit {0}) × Memory W Service
  add_configuration_in configuration_id docker_image initializer_core availability_checker_core
        builder memory =
      let config : ServiceConfig W Service = record {
        docker_image = docker_image;
        initializer_core = initializer_core;
        availability_checker_core = availability_checker_core;
      } in
      if found (lookup configuration_id (memory.maps builder.configurations))
      then (err (failed (Site.configuration_exists configuration_id)), memory)
      else (ok tt, write_map builder.configurations configuration_id config memory)

  -- The loop that fills the new map with the entries of the builder's.
  unfoldable pub copy_into :
      ℕ → Dict Text (ServiceConfig W Service) → Memory W Service → Memory W Service
  copy_into ref [] memory = memory
  copy_into ref ((configuration_id, config) ∷ more) memory =
      copy_into ref more (write_map ref configuration_id config memory)

  unfoldable pub build_in : BuilderObject → Memory W Service → NetworkObject × Memory W Service
  build_in builder memory = (
    record {
      docker_network_id = builder.docker_network_id;
      free_ip_tracker = builder.free_ip_tracker;
      configurations = memory.next_map;
      test_volume = builder.test_volume;
      test_volume_controller_dirpath = builder.test_volume_controller_dirpath;
    },
    copy_into memory.next_map (memory.maps builder.configurations) (make_map memory),
  )
