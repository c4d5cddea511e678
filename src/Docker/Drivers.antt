-- ===== src/Docker/Drivers.antt =====
-- The Docker manager of commons/docker/docker_manager.go as what the test executor and the services
-- use of it.
use zz_deprecated_kurtosis.Base.{◌≡◌, ◌∙◌, ℕ, List, true, some, Text, ==_refl, text_eq, ok}
use zz_deprecated_kurtosis.Actions.{Act, Succeeds, Ends-ok}
use zz_deprecated_kurtosis.Net.Defs.{Ip}
use zz_deprecated_kurtosis.Net.Cidr.{ip_text}
use zz_deprecated_kurtosis.Services.{Host}
use zz_deprecated_kurtosis.Services.ServiceInitializer.{
  ServiceInitializer, get_service_from_ip, container_request, create_service,
}
use zz_deprecated_kurtosis.Services.ServiceInitializer.Laws.{create_service-Launched}
use zz_deprecated_kurtosis.Docker.{DockerClient}
use zz_deprecated_kurtosis.Docker.Manager.{
  new_docker_manager, create_network, remove_network, create_volume, create_and_start_container,
  stop_container, wait_for_exit,
}
use zz_deprecated_kurtosis.Docker.View.{View, AllKept, DockerLaws}
use zz_deprecated_kurtosis.Docker.Effects.{create_and_start_container-Started}
use zz_deprecated_kurtosis.Initializer.TestExecutor.{Engine, TestExecutor}

-- What the code uses of the file system and of random identifiers.
pub record Tools (W : Type 0) : Type 0 where
  pub temp_file : Text → Act W Text
  pub copy_controller_logs : Text → Act W (Unit {0})
  pub remove_file : Text → W → W
  pub generate_uuid : W → Text × W
  pub join : Text → Text → Text
  pub mkdir : Text → Act W (Unit {0})
  pub create_file : Text → Act W (Unit {0})

-- networkTeardownContainerStopTimeout, in seconds.
abbrev pub network_teardown_container_stop_timeout : ℕ
network_teardown_container_stop_timeout = 10

module _ {W : Type 0} (client : DockerClient W) (tools : Tools W) where
  abbrev pub engine_of : Engine W
  engine_of = record {
    new_docker_manager = new_docker_manager client;
    create_network = create_network client;
    remove_network = λ id. remove_network client id network_teardown_container_stop_timeout;
    create_volume = create_volume client;
    temp_file = tools.temp_file;
    create_and_start_container = create_and_start_container client;
    wait_for_exit = wait_for_exit client;
    copy_controller_logs = tools.copy_controller_logs;
    remove_file = tools.remove_file;
  }

  abbrev pub host_of : Host W
  host_of = record {
    generate_uuid = tools.generate_uuid;
    join = tools.join;
    mkdir = tools.mkdir;
    create_file = tools.create_file;
    create_and_start_container = create_and_start_container client;
    stop_container = stop_container client;
  }

-- Files are none of Docker's business.
pub record Apart {W : Type 0} (tools : Tools W) (view : View W) : Type 0 where
  pub temp :
      (name : Text) (w : W) → AllKept (view.networks w) (view.networks (tools.temp_file name w).1)
  pub logs :
      (name : Text) (w : W)
      → AllKept (view.networks w) (view.networks (tools.copy_controller_logs name w).1)
  pub file :
      (name : Text) (w : W) → AllKept (view.networks w) (view.networks (tools.remove_file name w))

-- The calls of a removal do not fail.
pub record Removable {W : Type 0} (client : DockerClient W) : Type 0 where
  pub inspect : (id : Text) (w : W) → Succeeds (client.network_inspect id w)
  pub stop : (id : Text) (timeout : ℕ) (w : W) → Succeeds (client.container_stop id timeout w)
  pub remove : (id : Text) (w : W) → Succeeds (client.network_remove id w)

-- A service's container in Docker, and the interface that goes with it.
pub record Serving {W Service : Type 0} (view : View W) (initializer : ServiceInitializer W Service)
    (ip : Ip) (service : Service) (id : Text) (v : W) : Type 0 where
  pub runs : view.running v id ≡ true
  pub at : view.endpoint v initializer.network_id id ≡ some (record { ip_address = ip_text ip })
  pub interface : service ≡ get_service_from_ip initializer ip

-- Where Docker's calls do what `DockerLaws` says: when CreateService, on the Docker manager, returns
-- a service and a container ID, the container runs, it has been connected to the initializer's
-- network with endpoint settings whose IPAddress is the address asked for, and the service is the initializer's interface for that address.
pub create_service-Serving :
    {W Service : Type 0} (client : DockerClient W) (tools : Tools W) (view : View W)
    (initializer : ServiceInitializer W Service) (volume image : Text) (ip : Ip)
    (deps : List Service) (w v : W) (service : Service) (id : Text)
    → DockerLaws client view
    → create_service (host_of client tools) initializer volume image ip deps w
      ≡ (ok (service, id), v)
    → Serving view initializer ip service id v
create_service-Serving client tools view initializer volume image ip deps w v service id laws e =
    let launched =
      create_service-Launched (host_of client tools) initializer volume image ip deps w service id v
        e in
    let started =
      Ends-ok id v
        (create_and_start_container-Started client view
          (container_request initializer volume image ip launched.args) launched.before laws)
        launched.started in
    record {
      runs = started.running_now id ∙ rw (==_refl id);
      at = started.endpoint_set;
      interface = launched.interface;
    }
