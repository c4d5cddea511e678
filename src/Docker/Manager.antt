-- ===== src/Docker/Manager.antt =====
-- commons/docker/docker_manager.go: the methods of the Docker manager.
use zz_deprecated_kurtosis.Base.{
  ℕ, List, [], ◌∷◌, Bool, true, false, not, Text, codes, propagated, Result, ok, err, Site,
}
use zz_deprecated_kurtosis.Actions.{Act, ◌>>=◌, ◌>>◌, returning, wrap, fail_if}
use zz_deprecated_kurtosis.Net.Defs.{Ip}
use zz_deprecated_kurtosis.Net.Cidr.{ip_text}
use zz_deprecated_kurtosis.Services.{ContainerRequest}
use zz_deprecated_kurtosis.Docker.{DockerClient, NetworkCreate, WaitOutcome, wait_failed, exited}
use zz_deprecated_kurtosis.Docker.Config.{get_container_cfg, get_container_host_config}

abbrev docker_network_driver : Text
docker_network_driver = codes "bridge"

-- `len(l) > 0`
abbrev pub is_nonempty : List Text → Bool
is_nonempty [] = false
is_nonempty (x ∷ xs) = true

abbrev pub network_settings : Text → Ip → NetworkCreate
network_settings subnet_mask gateway_ip = record {
  driver = docker_network_driver;
  subnet = subnet_mask;
  gateway = ip_text gateway_ip;
}

abbrev pub wait_result : {W : Type 0} → WaitOutcome × W → Result ℕ × W
wait_result (wait_failed e, w) = (err (propagated Site.wait_exit e), w)
wait_result (exited status_code, w) = (ok status_code, w)

module _ {W : Type 0} (client : DockerClient W) where
  -- NewDockerManager keeps the client that it is given, and its error is always nil.
  unfoldable pub new_docker_manager : Act W (Unit {0})
  new_docker_manager = returning tt

  unfoldable pub is_image_available_locally : Text → Act W Bool
  is_image_available_locally image_name = do
    images ← wrap Site.list_images (client.image_list image_name)
    returning (is_nonempty images)

  unfoldable pub network_exists : Text → Act W Bool
  network_exists network_id = do
    networks ← wrap Site.list_networks (client.network_list network_id)
    returning (is_nonempty networks)

  unfoldable pub connect_to_network : Text → Text → Ip → Act W (Unit {0})
  connect_to_network network_id container_id static_ip_addr = wrap Site.connect (
      client.network_connect network_id container_id
        (record { ip_address = ip_text static_ip_addr }))

  unfoldable pub pull_image : Text → Act W (Unit {0})
  pull_image image_name = wrap Site.pull (client.image_pull image_name)

  unfoldable pub create_network : Text → Text → Ip → Act W Text
  create_network name subnet_mask gateway_ip = do
    found ← wrap Site.check_network (network_exists name)
    fail_if found (Site.network_exists name)
    wrap Site.network_create (client.network_create name (network_settings subnet_mask gateway_ip))

  -- The loop over the containers of the network.
  unfoldable pub stop_containers : List Text → ℕ → Act W (Unit {0})
  stop_containers [] container_stop_timeout = returning tt
  stop_containers (container_id ∷ more) container_stop_timeout = do
    wrap Site.stop_container (client.container_stop container_id container_stop_timeout)
    stop_containers more container_stop_timeout

  unfoldable pub remove_network : Text → ℕ → Act W (Unit {0})
  remove_network network_id container_stop_timeout = do
    containers ← wrap Site.inspect_network (client.network_inspect network_id)
    stop_containers containers container_stop_timeout
    wrap Site.network_remove (client.network_remove network_id)

  unfoldable pub create_volume : Text → Act W (Unit {0})
  create_volume volume_name = wrap Site.volume_create (client.volume_create volume_name)

  -- The image is pulled if it is not there.
  unfoldable pub pull_unless : Bool → Text → Act W (Unit {0})
  pull_unless true docker_image = returning tt
  pull_unless false docker_image = wrap Site.pull_image (pull_image docker_image)

  -- From the creation of the container on.
  unfoldable pub create_container : ContainerRequest → Act W Text
  create_container request = do
    container_id ← wrap Site.container_create (
        client.container_create
          (get_container_cfg request.docker_image request.used_ports request.start_cmd_args
            request.env_variables)
          (get_container_host_config request.bind_mounts request.volume_mounts))
    wrap Site.connect_container
        (connect_to_network request.network_id container_id request.static_ip)
    wrap Site.start (client.container_start container_id)
    returning container_id

  unfoldable pub create_and_start_container : ContainerRequest → Act W Text
  create_and_start_container request = do
    image_exists_locally ← wrap Site.check_image (is_image_available_locally request.docker_image)
    pull_unless image_exists_locally request.docker_image
    network_exists_locally ← wrap Site.check_network (network_exists request.network_id)
    fail_if (not network_exists_locally) (Site.no_network request.network_id)
    create_container request

  unfoldable pub stop_container : Text → ℕ → Act W (Unit {0})
  stop_container container_id timeout =
      wrap Site.stop_container (client.container_stop container_id timeout)

  unfoldable pub wait_for_exit : Text → Act W ℕ
  wait_for_exit container_id w = wait_result (client.container_wait container_id w)
