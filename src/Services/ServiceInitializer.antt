-- ===== src/Services/ServiceInitializer.antt =====
-- commons/services/service_initializer.go: the creation of a service's container.
pub mod Laws
use zz_deprecated_kurtosis.Base.{
  List, [], ◌∷◌, ◌++◌, Option, none, some, Text, codes, Dict, insert, text_eq, Error, Result, ok,
  err, Site,
}
use zz_deprecated_kurtosis.Net.Defs.{Ip}
use zz_deprecated_kurtosis.Net.Cidr.{ip_text}
use zz_deprecated_kurtosis.Actions.{Act, ◌>>>=◌, propagating}
use zz_deprecated_kurtosis.Services.{ContainerRequest, Host, ServiceInitializerCore}

pub record ServiceInitializer (W Service : Type 0) : Type 0 where
  pub core : ServiceInitializerCore W Service
  pub network_id : Text
  pub test_volume_controller_dirpath : Text

-- `osFiles` and `mountFilepaths`.
pub record MountedFiles : Type 0 where
  pub os_files : Dict Text Text
  pub mount_filepaths : Dict Text Text

-- `err = initializerCore.InitializeMountedFiles(...)`, whose error the next statement overwrites.
abbrev pub ignoring : {W : Type 0} → Result (Unit {0}) × W → W
ignoring (r, w) = w

module _ {W : Type 0} (host : Host W) where
  -- The loop over the requested files.
  unfoldable pub create_files : Text → Text → List Text → MountedFiles → Act W MountedFiles
  create_files controller_dirpath mount_dirpath [] files w = (ok files, w)
  create_files controller_dirpath mount_dirpath (file_id ∷ more) files w =
      let (filename, w₁) = host.generate_uuid w in
      let host_filepath = host.join controller_dirpath filename in
      propagating Site.create_file (host.create_file host_filepath w₁) >>>= λ _ w₂.
      create_files controller_dirpath mount_dirpath more
        (record {
          os_files = insert file_id host_filepath files.os_files;
          mount_filepaths = insert file_id (host.join mount_dirpath filename) files.mount_filepaths;
        })
        w₂

module _ {W Service : Type 0} where
  unfoldable pub new_service_initializer :
      ServiceInitializerCore W Service → Text → Text → ServiceInitializer W Service
  new_service_initializer core network_id test_volume_controller_dirpath = record {
    core = core;
    network_id = network_id;
    test_volume_controller_dirpath = test_volume_controller_dirpath;
  }

  abbrev pub get_service_from_ip : ServiceInitializer W Service → Ip → Service
  get_service_from_ip initializer ip_addr = initializer.core.get_service_from_ip (ip_text ip_addr)

  abbrev pub container_request :
      ServiceInitializer W Service → Text → Text → Ip → List Text → ContainerRequest
  container_request initializer test_volume_name docker_image static_ip start_cmd_args = record {
    docker_image = docker_image;
    network_id = initializer.network_id;
    static_ip = static_ip;
    used_ports = initializer.core.get_used_ports;
    start_cmd_args = start_cmd_args;
    env_variables = [];
    bind_mounts = [];
    volume_mounts = (test_volume_name, initializer.core.get_test_volume_mountpoint) ∷ [];
  }

module _ {W Service : Type 0} (host : Host W) where
  abbrev pub with_service : ServiceInitializer W Service → Ip → Text → Act W (Service × Text)
  with_service initializer static_ip container_id w =
      (ok (initializer.core.get_service_from_ip (ip_text static_ip), container_id), w)

  abbrev pub launch :
      ServiceInitializer W Service → Text → Text → Ip → List Text → Act W (Service × Text)
  launch initializer test_volume_name docker_image static_ip start_cmd_args w =
      propagating Site.start_container (
        host.create_and_start_container
          (container_request initializer test_volume_name docker_image static_ip start_cmd_args) w)
      >>>= with_service initializer static_ip

  -- From the call of InitializeMountedFiles on.
  abbrev pub start_service :
      ServiceInitializer W Service
      → Text
      → Text
      → Ip
      → List Service
      → MountedFiles
      → Act W (Service × Text)
  start_service initializer test_volume_name docker_image static_ip dependencies files w =
      let w₁ = ignoring (initializer.core.initialize_mounted_files files.os_files dependencies w) in
      propagating Site.start_command
        (initializer.core.get_start_command files.mount_filepaths static_ip dependencies w₁)
      >>>= launch initializer test_volume_name docker_image static_ip

  -- From the loop over the requested files on.
  abbrev pub fill_service_dir :
      ServiceInitializer W Service
      → Text
      → Text
      → Ip
      → List Service
      → Text
      → Text
      → Unit {0}
      → Act W (Service × Text)
  fill_service_dir initializer test_volume_name docker_image static_ip dependencies
        controller_dirpath mount_dirpath _ w =
      create_files host controller_dirpath mount_dirpath initializer.core.get_files_to_mount
        (record { os_files = []; mount_filepaths = [] }) w
      >>>= start_service initializer test_volume_name docker_image static_ip dependencies

  unfoldable pub create_service :
      ServiceInitializer W Service → Text → Text → Ip → List Service → Act W (Service × Text)
  create_service initializer test_volume_name docker_image static_ip dependencies w =
      let (uuid, w₁) = host.generate_uuid w in
      let service_dirname = codes "service-" ++ uuid in
      let controller_service_dirpath =
        host.join initializer.test_volume_controller_dirpath service_dirname in
      let mount_service_dirpath =
        host.join initializer.core.get_test_volume_mountpoint service_dirname in
      propagating Site.make_service_dir (host.mkdir controller_service_dirpath w₁)
      >>>= fill_service_dir initializer test_volume_name docker_image static_ip dependencies
          controller_service_dirpath mount_service_dirpath
