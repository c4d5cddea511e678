-- ===== src/Services/ServiceInitializer/Laws.antt =====
-- Lemmas on commons/services/service_initializer.go: what CreateService depends on and leaves.
use zz_deprecated_kurtosis.Base.{◌≡◌, ap, List, Text, Dict, ok, Site}
use zz_deprecated_kurtosis.Net.Defs.{Ip}
use zz_deprecated_kurtosis.Actions.{
  Act, ◌>>>=◌, propagating, chain-eq-ok, propagating-eq-ok, chain-ext,
}
use zz_deprecated_kurtosis.Services.{Host}
use zz_deprecated_kurtosis.Services.ServiceInitializer.{
  ServiceInitializer, MountedFiles, with_service, launch, fill_service_dir, container_request,
  start_service, create_service, get_service_from_ip,
}

-- A container was started for the service, as asked.
pub record Launched {W Service : Type 0} (host : Host W)
    (initializer : ServiceInitializer W Service) (volume image : Text) (ip : Ip) (service : Service)
    (container_id : Text) (after : W) : Type 0 where
  pub args : List Text
  pub before : W
  pub started :
      host.create_and_start_container (container_request initializer volume image ip args) before
      ≡ (ok container_id, after)
  pub interface : service ≡ get_service_from_ip initializer ip

module _ {W Service : Type 0} (host : Host W) (initializer : ServiceInitializer W Service) where
  launch-Launched :
      (volume image : Text) (ip : Ip) (args : List Text) (w : W) (service : Service) (id : Text)
      (v : W)
      → launch host initializer volume image ip args w ≡ (ok (service, id), v)
      → Launched host initializer volume image ip service id v
  launch-Launched volume image ip args w service id v e =
      let c =
        chain-eq-ok
          (propagating Site.start_container (
            host.create_and_start_container (container_request initializer volume image ip args) w))
          (with_service host initializer ip) (service, id) v e in
      let started = propagating-eq-ok Site.start_container _ c.value c.world c.first in
      record {
        args = args;
        before = w;
        started = cc (ap (λ p. p.0) c.second, ap (λ p. p.1) c.second);
        interface = cc (ap (λ p. p.0) c.second);
      }

  start-Launched :
      (volume image : Text) (ip : Ip) (deps : List Service) (files : MountedFiles) (w : W)
      (service : Service) (id : Text) (v : W)
      → start_service host initializer volume image ip deps files w ≡ (ok (service, id), v)
      → Launched host initializer volume image ip service id v
  start-Launched volume image ip deps files w service id v e =
      let c = chain-eq-ok _ (launch host initializer volume image ip) (service, id) v e in
      launch-Launched volume image ip c.value c.world service id v c.second

-- A service is returned only when a container was started for it, the last thing done: with the
-- image, the network and the address asked for, the ports of the core, and the test volume
-- mounted where the core says; and the interface is the core's for that address.
pub create_service-Launched :
    {W Service : Type 0} (host : Host W) (initializer : ServiceInitializer W Service)
    (volume image : Text) (ip : Ip) (deps : List Service) (w : W) (service : Service) (id : Text)
    (v : W)
    → create_service host initializer volume image ip deps w ≡ (ok (service, id), v)
    → Launched host initializer volume image ip service id v
unfolding create_service
create_service-Launched host initializer volume image ip deps w service id v e =
    let dir =
      chain-eq-ok _ (fill_service_dir host initializer volume image ip deps _ _) (service, id) v
        e in
    let files =
      chain-eq-ok _ (start_service host initializer volume image ip deps) (service, id) v
        dir.second in
    start-Launched host initializer volume image ip deps files.value files.world service id v
      files.second

-- The error of InitializeMountedFiles has no effect: a core whose InitializeMountedFiles leaves the
-- same world, with whatever result, has its service created in the same way.
pub create_service-ignores_error :
    {W Service : Type 0} (host : Host W) (initializer : ServiceInitializer W Service)
    (other : Dict Text Text → List Service → Act W (Unit {0}))
    → ((files : Dict Text Text) (deps : List Service) (w : W)
        → (other files deps w).1 ≡ (initializer.core.initialize_mounted_files files deps w).1)
    → (volume image : Text) (ip : Ip) (deps : List Service) (w : W)
    → create_service host
        (record initializer {
          core = record (initializer.core) { initialize_mounted_files = other };
        })
        volume
        image
        ip
        deps
        w
      ≡ create_service host initializer volume image ip deps w
unfolding create_service
create_service-ignores_error host initializer other same volume image ip deps w =
    chain-ext _ _ (fill_service_dir host initializer volume image ip deps _ _) (λ u v.
      chain-ext _ _ (start_service host initializer volume image ip deps) (λ files x.
        ap
          (λ y.
            propagating Site.start_command
              (initializer.core.get_start_command files.mount_filepaths ip deps y)
            >>>= launch host initializer volume image ip)
          (same files.os_files deps x)))
