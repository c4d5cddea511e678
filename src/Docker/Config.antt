-- ===== src/Docker/Config.antt =====
-- commons/docker/docker_manager.go: what a container is configured with.
pub mod Readback
use zz_deprecated_kurtosis.Base.{List, [], ◌∷◌, ◌++◌, map, Text, codes, Dict}
use zz_deprecated_kurtosis.Docker.{ContainerConfig, HostConfig}

-- "%v=%v"
abbrev pub env_entry : Text × Text → Text
env_entry (key, val) = key ++ b'=' ∷ val

-- hostFilepath + ":" + containerFilepath
abbrev pub bind_entry : Text × Text → Text
bind_entry (source, container_filepath) = source ++ b':' ∷ container_filepath

-- The loops over the maps append to a list in the order in which the maps are visited.
unfoldable pub env_loop : List Text → Dict Text Text → List Text
env_loop env_variables_slice [] = env_variables_slice
env_loop env_variables_slice (entry ∷ more) =
    env_loop (env_variables_slice ++ env_entry entry ∷ []) more

unfoldable pub binds_loop : List Text → Dict Text Text → List Text
binds_loop binds_list [] = binds_list
binds_loop binds_list (entry ∷ more) = binds_loop (binds_list ++ bind_entry entry ∷ []) more

unfoldable pub get_container_cfg : Text → List Text → List Text → Dict Text Text → ContainerConfig
get_container_cfg docker_image used_ports start_cmd_args env_variables = record {
  image = docker_image;
  exposed_ports = used_ports;
  cmd = start_cmd_args;
  env = env_loop [] env_variables;
}

unfoldable pub get_container_host_config : Dict Text Text → Dict Text Text → HostConfig
get_container_host_config bind_mounts volume_mounts = record {
  binds = binds_loop (binds_loop [] bind_mounts) volume_mounts;
  network_mode = codes "default";
}
