-- ===== src/Controller/Late/Steps.antt =====
-- Lemmas on AddService of commons/networks/service_network.go: its steps, with nothing in between,
-- are the whole call.
use zz_deprecated_kurtosis.Base.{◌≡◌, refl, ap, ◌∙◌, List, Option, none, some, Text, ok}
use zz_deprecated_kurtosis.Net.Defs.{Ip}
use zz_deprecated_kurtosis.Services.{Host}
use zz_deprecated_kurtosis.Services.AvailabilityChecker.{Context, ServiceAvailabilityChecker}
use zz_deprecated_kurtosis.Networks.IpTracker.{FreeIpAddrTracker, get_free_ip_addr}
use zz_deprecated_kurtosis.Networks.ServiceNetwork.{
  ServiceConfig, Outcome, check_request, allocate, add_checked, add_service,
}
use zz_deprecated_kurtosis.Controller.Late.{InFlight, Late, begun, creation, launched_call, entered}

module _ {W Service : Type 0} (host : Host W) (background : Context) where
  -- A call that nothing interrupts.
  abbrev uninterrupted :
      Text
      → ServiceConfig W Service
      → List Service
      → Ip
      → FreeIpAddrTracker
      → Late W Service
      → Late W Service
  uninterrupted id config deps ip t s =
      let b = begun id (config, deps) ip t s in
      let c : InFlight W Service = record {
        service_id = id;
        config = config;
        dependencies = deps;
        static_ip = ip;
        created = none;
      } in
      entered host background c (creation host background c b).0 (launched_call host background c b)

  add_service-steps :
      (s : Late W Service) (cid id : Text) (deps : Option (List Text))
      (config : ServiceConfig W Service) (services : List Service) (ip : Ip) (t : FreeIpAddrTracker)
      → check_request cid id deps s.network ≡ ok (config, services)
      → get_free_ip_addr s.network.free_ip_tracker ≡ some (ok ip, t)
      → (o : Outcome W Service (ServiceAvailabilityChecker Service)) × (add_service host background
            cid id deps s.network s.world
          ≡ some o)
        × (o.network ≡ (uninterrupted id config services ip t s).network)
        × (o.world ≡ (uninterrupted id config services ip t s).world)
  unfolding add_service
  add_service-steps s cid id deps config services ip t allowed got = (
    _,
    ap (add_checked host background id s.network s.world) allowed
        ∙ ap (allocate host background id config services s.network s.world) got,
    refl,
    refl,
  )
