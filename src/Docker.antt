-- ===== src/Docker.antt =====
-- commons/docker/docker_manager.go: the operations on the Docker engine. The Docker client is not
-- part of the repository: it is the fields of `DockerClient`, which act on a world of any type. The
-- contexts, which only cancel calls, are left out, since any call may fail.
pub mod Config
pub mod Manager
pub mod View
pub mod Effects
pub mod Removal
pub mod Drivers
mod Toy
mod Tests
use zz_deprecated_kurtosis.Base.{ℕ, List, Text, Error}
use zz_deprecated_kurtosis.Actions.{Act}

-- types.NetworkCreate, with its single IPAM configuration.
pub record NetworkCreate : Type 0 where
  pub driver : Text
  pub subnet : Text
  pub gateway : Text

-- container.Config and container.HostConfig, as far as they are set. `Tty` is false.
pub record ContainerConfig : Type 0 where
  pub image : Text
  pub exposed_ports : List Text
  pub cmd : List Text
  pub env : List Text

pub record HostConfig : Type 0 where
  pub binds : List Text
  pub network_mode : Text

-- network.EndpointSettings, as far as it is set: its IPAddress. IPAMConfig stays nil.
pub record EndpointSettings : Type 0 where
  pub ip_address : Text

-- What comes first on the two channels of ContainerWait.
pub data WaitOutcome : Type 0 where
  wait_failed : Error → WaitOutcome
  exited : ℕ → WaitOutcome

-- Lists are given by the IDs of their entries; `image_list` filters by reference, and `network_list`
-- by ID.
pub record DockerClient (W : Type 0) : Type 0 where
  pub image_list : Text → Act W (List Text)
  pub image_pull : Text → Act W (Unit {0})
  pub network_list : Text → Act W (List Text)
  pub network_create : Text → NetworkCreate → Act W Text
  pub network_inspect : Text → Act W (List Text)
  pub network_connect : Text → Text → EndpointSettings → Act W (Unit {0})
  pub network_remove : Text → Act W (Unit {0})
  pub volume_create : Text → Act W (Unit {0})
  pub container_create : ContainerConfig → HostConfig → Act W Text
  pub container_start : Text → Act W (Unit {0})
  pub container_stop : Text → ℕ → Act W (Unit {0})
  pub container_wait : Text → W → WaitOutcome × W
