-- ===== src/Docker/Tests.antt =====
-- Runs on a Docker with room for one network and one container.
use zz_deprecated_kurtosis.Base.{
  ◌≡◌, refl, [], ◌∷◌, true, false, map, text_beq, none, some, Text, codes, text_eq, ok,
}
use zz_deprecated_kurtosis.Actions.{Ends, ◌>>=◌, returning, wrap, fail_if}
use zz_deprecated_kurtosis.Net.Defs.{Ip, ip4}
use zz_deprecated_kurtosis.Net.Decimal.{dec_text}
use zz_deprecated_kurtosis.Net.Cidr.{quad_text}
use zz_deprecated_kurtosis.Services.{ContainerRequest, ServiceInitializerCore}
use zz_deprecated_kurtosis.Services.ServiceInitializer.{
  ServiceInitializer, create_files, create_service,
}
use zz_deprecated_kurtosis.Initializer.TestExecutor.{TestExecutor}
use zz_deprecated_kurtosis.Docker.Manager.{
  is_image_available_locally, network_exists, connect_to_network, stop_containers, remove_network,
  pull_unless, create_container, create_and_start_container,
}
use zz_deprecated_kurtosis.Docker.Config.{get_container_cfg, get_container_host_config}
use zz_deprecated_kurtosis.Docker.Config.Readback.{occurs, cut_at, get_container_cfg-readback}
use zz_deprecated_kurtosis.Docker.Effects.{Started, Unstarted, create_and_start_container-Started}
use zz_deprecated_kurtosis.Docker.Removal.{Emptied, remove_network-Emptied}
use zz_deprecated_kurtosis.Docker.Drivers.{Tools, host_of, Serving, create_service-Serving}
use zz_deprecated_kurtosis.Docker.View.{Stopping}
use zz_deprecated_kurtosis.Docker.Toy.{net_id, box_id, World, view, client, client-DockerLaws}

abbrev empty : World
empty = record { net = false; box = false; on = false; ip = none }

abbrev ready : World
ready = record { net = true; box = false; on = false; ip = none }

abbrev serving : World
serving = record {
  net = true;
  box = true;
  on = true;
  ip = some (record { ip_address = codes "10.0.0.2" });
}

abbrev service_ip : Ip
service_ip = ip4 (record { b0 = 10; b1 = 0; b2 = 0; b3 = 2 })

abbrev request : ContainerRequest
request = record {
  docker_image = codes "image";
  network_id = net_id;
  static_ip = service_ip;
  used_ports = codes "80" ∷ [];
  start_cmd_args = [];
  env_variables = (codes "COLOR", codes "a=b") ∷ [];
  bind_mounts = [];
  volume_mounts = (codes "vol", codes "/shared") ∷ [];
}

container_starts : create_and_start_container client request ready ≡ (ok box_id, serving)
unfolding create_and_start_container create_container is_image_available_locally network_exists
    connect_to_network pull_unless ◌>>=◌ returning wrap fail_if text_beq quad_text dec_text
container_starts = refl

no_network : (create_and_start_container client request empty).1 ≡ empty
unfolding create_and_start_container create_container is_image_available_locally network_exists
    connect_to_network pull_unless ◌>>=◌ returning wrap fail_if text_beq quad_text dec_text
no_network = refl

create_and_start_container-Started_example :
    Ends
      (Started view request ready)
      (Unstarted view ready)
      (create_and_start_container client request ready)
create_and_start_container-Started_example =
    create_and_start_container-Started client view request ready client-DockerLaws

network_removed :
    remove_network client net_id 10 serving ≡ (ok tt, record serving { net = false; on = false })
unfolding remove_network stop_containers ◌>>=◌ returning wrap text_beq
network_removed = refl

remove_network-Emptied_example :
    Ends
      (λ _. Emptied view net_id serving)
      (Stopping view serving)
      (remove_network client net_id 10 serving)
remove_network-Emptied_example =
    remove_network-Emptied client view net_id 10 serving client-DockerLaws

get_container_cfg-readback_example :
    (map (cut_at b'=') (get_container_cfg (codes "image") [] [] request.env_variables).env
      ≡ request.env_variables)
    × (map (cut_at b':') (get_container_host_config [] request.volume_mounts).binds
        ≡ request.volume_mounts)
unfolding occurs
get_container_cfg-readback_example =
    get_container_cfg-readback (codes "image") [] [] request.env_variables [] request.volume_mounts
      (refl, tt) tt (refl, tt)

abbrev tools : Tools World
tools = record {
  temp_file = λ name w. (ok name, w);
  copy_controller_logs = λ name w. (ok tt, w);
  remove_file = λ name w. w;
  generate_uuid = λ w. ([], w);
  join = λ dir name. dir;
  mkdir = λ dir w. (ok tt, w);
  create_file = λ path w. (ok tt, w);
}

abbrev executor : TestExecutor
executor = record {
  execution_instance_id = codes "e";
  subnet_mask = codes "10.0.0.0/29";
  test_controller_image_name = codes "image";
  test_controller_log_level = codes "info";
  custom_test_controller_env_vars = [];
  test_name = codes "t";
}

abbrev done : World
done = record {
  net = false;
  box = true;
  on = false;
  ip = some (record { ip_address = codes "10.0.0.2" });
}

abbrev core : ServiceInitializerCore World Text
core = record {
  get_used_ports = codes "80" ∷ [];
  get_service_from_ip = λ ip. ip;
  get_files_to_mount = [];
  initialize_mounted_files = λ files deps w. (ok tt, w);
  get_start_command = λ files ip deps w. (ok [], w);
  get_test_volume_mountpoint = codes "/shared";
}

abbrev initializer : ServiceInitializer World Text
initializer = record {
  core = core;
  network_id = net_id;
  test_volume_controller_dirpath = codes "/controller";
}

service_starts :
    create_service
      (host_of client tools)
      initializer
      (codes "vol")
      (codes "image")
      service_ip
      []
      ready
    ≡ (ok (codes "10.0.0.2", box_id), serving)
unfolding create_service create_files create_and_start_container create_container
    is_image_available_locally network_exists connect_to_network pull_unless ◌>>=◌ returning wrap
    fail_if text_beq quad_text dec_text
service_starts = refl

create_service-Serving_example :
    Serving view initializer service_ip (codes "10.0.0.2") box_id serving
create_service-Serving_example =
    create_service-Serving client tools view initializer (codes "vol") (codes "image") service_ip []
      ready serving (codes "10.0.0.2") box_id client-DockerLaws service_starts
