-- ===== src/Services.antt =====
-- commons/services: how a service is started and how the code waits for it. The Docker engine, the
-- file system, the random identifiers and the developer's own code are not part of the repository:
-- they are the fields of `Host` and of the two cores, acting on a world of any type.
pub mod ServiceInitializer
pub mod AvailabilityChecker
use zz_deprecated_kurtosis.Base.{
  ℕ, List, [], Option, none, some, Bool, Text, Dict, Error, Result, ok, err, Site, propagated,
}
use zz_deprecated_kurtosis.Actions.{Act}
use zz_deprecated_kurtosis.Net.Defs.{Ip}

-- What CreateAndStartContainer of the Docker manager is given here.
pub record ContainerRequest : Type 0 where
  pub docker_image : Text
  pub network_id : Text
  pub static_ip : Ip
  pub used_ports : List Text
  pub start_cmd_args : List Text
  pub env_variables : Dict Text Text
  pub bind_mounts : Dict Text Text
  pub volume_mounts : Dict Text Text

pub record Host (W : Type 0) : Type 0 where
  pub generate_uuid : W → Text × W
  pub join : Text → Text → Text
  pub mkdir : Text → Act W (Unit {0})
  pub create_file : Text → Act W (Unit {0})
  pub create_and_start_container : ContainerRequest → Act W Text
  pub stop_container : Text → ℕ → Act W (Unit {0})

-- services.ServiceInitializerCore. Open files are named by their paths; a set of names is a list.
pub record ServiceInitializerCore (W Service : Type 0) : Type 0 where
  pub get_used_ports : List Text
  pub get_service_from_ip : Text → Service
  pub get_files_to_mount : List Text
  pub initialize_mounted_files : Dict Text Text → List Service → Act W (Unit {0})
  pub get_start_command : Dict Text Text → Ip → List Service → Act W (List Text)
  pub get_test_volume_mountpoint : Text

-- services.ServiceAvailabilityCheckerCore, with the number of polls made so far in place of the
-- state of the service.
pub record ServiceAvailabilityCheckerCore (Service : Type 0) : Type 0 where
  pub is_service_up : ℕ → Service → List Service → Bool
  pub get_timeout : ℕ
