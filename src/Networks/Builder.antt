-- ===== src/Networks/Builder.antt =====
-- commons/networks/service_network_builder.go. A map is a value here; Store has maps as objects that
-- a builder and a network refer to.
pub mod Laws
pub mod Store
use zz_deprecated_kurtosis.Base.{
  List, [], ◌∷◌, if◌then◌else◌, Text, Dict, lookup, insert, found, text_eq, failed, Result, ok, err,
  Site,
}
use zz_deprecated_kurtosis.Networks.IpTracker.{FreeIpAddrTracker}
use zz_deprecated_kurtosis.Networks.ServiceNetwork.{
  ServiceConfig, ServiceNetwork, new_service_network,
}
use zz_deprecated_kurtosis.Services.{ServiceInitializerCore, ServiceAvailabilityCheckerCore}

pub record ServiceNetworkBuilder (W Service : Type 0) : Type 0 where
  pub docker_network_id : Text
  pub free_ip_tracker : FreeIpAddrTracker
  pub configurations : Dict Text (ServiceConfig W Service)
  pub test_volume : Text
  pub test_volume_controller_dirpath : Text

module _ {W Service : Type 0} where
  unfoldable pub new_service_network_builder :
      Text → FreeIpAddrTracker → Text → Text → ServiceNetworkBuilder W Service
  new_service_network_builder docker_network_id free_ip_tracker test_volume
        test_volume_controller_dirpath =
      record {
        docker_network_id = docker_network_id;
        free_ip_tracker = free_ip_tracker;
        configurations = [];
        test_volume = test_volume;
        test_volume_controller_dirpath = test_volume_controller_dirpath;
      }

  unfoldable pub add_configuration :
      Text
      → Text
      → ServiceInitializerCore W Service
      → ServiceAvailabilityCheckerCore Service
      → ServiceNetworkBuilder W Service
      → Result (Unit {0}) × ServiceNetworkBuilder W Service
  add_configuration configuration_id docker_image initializer_core availability_checker_core
        builder =
      let config : ServiceConfig W Service = record {
        docker_image = docker_image;
        initializer_core = initializer_core;
        availability_checker_core = availability_checker_core;
      } in
      if found (lookup configuration_id builder.configurations)
      then (err (failed (Site.configuration_exists configuration_id)), builder)
      else (
        ok tt,
        record builder { configurations = insert configuration_id config builder.configurations },
      )

  -- The loop that copies the map.
  unfoldable pub copy_configurations :
      Dict Text (ServiceConfig W Service)
      → Dict Text (ServiceConfig W Service)
      → Dict Text (ServiceConfig W Service)
  copy_configurations configurations_copy [] = configurations_copy
  copy_configurations configurations_copy ((configuration_id, config) ∷ more) =
      copy_configurations (insert configuration_id config configurations_copy) more

  unfoldable pub build : ServiceNetworkBuilder W Service → ServiceNetwork W Service
  build builder =
      new_service_network builder.free_ip_tracker builder.docker_network_id
        (copy_configurations [] builder.configurations) builder.test_volume
        builder.test_volume_controller_dirpath
