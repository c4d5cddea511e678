-- ===== src/Networks/ServiceNetwork/Addition.antt =====
-- Lemmas on AddService of commons/networks/service_network.go: by its guards and its result.
use zz_deprecated_kurtosis.Base.{
  ok-inj, or_fail-eq-ok, some-inj, ◌≡◌, ◌≢◌, refl, sym, ap, subst, List, [], ◌∷◌, true, false,
  if◌then◌else◌, Option, none, some, Option-cases, Text, Dict, lookup, found, lookup-insert,
  lookup-insert_self, ==_iff, text_eq, arith, inl, inr, All, Error, failed, Site, Result, ok, err,
  or_fail, ◌>>=◌,
}
use zz_deprecated_kurtosis.Net.Defs.{Ip}
use zz_deprecated_kurtosis.Net.Cidr.{ip_text}
use zz_deprecated_kurtosis.Networks.IpTracker.{FreeIpAddrTracker, is_taken, get_free_ip_addr}
use zz_deprecated_kurtosis.Networks.IpTracker.History.{Step, get-Step}
use zz_deprecated_kurtosis.Services.{Host}
use zz_deprecated_kurtosis.Services.AvailabilityChecker.{
  Context, ServiceAvailabilityChecker, new_service_availability_checker,
}
use zz_deprecated_kurtosis.Networks.ServiceNetwork.{
  ServiceNode, ServiceConfig, ServiceNetwork, Outcome, get_service, with_dependency, with_config,
  dependency_services, check_request, register, with_address, allocate, add_checked, add_service,
}

-- The guards, as propositions.
pub record Allowed {W Service : Type 0} (n : ServiceNetwork W Service) (configuration_id id : Text)
    (dependencies : Option (List Text)) : Type 0 where
  pub configured : found (lookup configuration_id n.configurations) ≡ true
  pub new : lookup id n.service_nodes ≡ none
  pub ids : List Text
  pub declared : dependencies ≡ some ids
  pub present : All (λ d. found (lookup d n.service_nodes) ≡ true) ids

bind-eq-ok :
    {A B : Type 0} (r : Result A) (f : A → Result B) (b : B)
    → (r >>= f) ≡ ok b
    → (a : A) × (r ≡ ok a) × (f a ≡ ok b)
bind-eq-ok (ok a) f b e = (a, refl, e)
bind-eq-ok (err x) f b e = cc

with_dependency-eq-ok :
    {Service : Type 0} (r : Result (List Service)) (node : ServiceNode Service)
    (services : List Service)
    → with_dependency r node ≡ ok services
    → (rest : List Service) × (r ≡ ok rest)
with_dependency-eq-ok (ok rest) node services e = (rest, refl)
with_dependency-eq-ok (err x) node services e = cc

dependencies_present :
    {Service : Type 0} (nodes : Dict Text (ServiceNode Service)) (ids : List Text)
    (services : List Service)
    → dependency_services nodes ids ≡ ok services
    → All (λ d. found (lookup d nodes) ≡ true) ids
unfolding dependency_services
dependencies_present nodes [] services e = tt
dependencies_present nodes (d ∷ more) services e =
    let (node, there, later) =
      bind-eq-ok _ (with_dependency (dependency_services nodes more)) services e in
    let (rest, done) = with_dependency-eq-ok _ node services later in
    (ap found (or_fail-eq-ok _ _ node there), dependencies_present nodes more rest done)

module _ {W Service : Type 0} (n : ServiceNetwork W Service) (configuration_id id : Text)
    (dependencies : Option (List Text)) where
  with_config-Allowed :
      (config : ServiceConfig W Service) (r : ServiceConfig W Service × List Service)
      → lookup configuration_id n.configurations ≡ some config
      → with_config id dependencies n.service_nodes config ≡ ok r
      → Allowed n configuration_id id dependencies
  with_config-Allowed config r there e = elim (Option-cases (lookup id n.service_nodes)) [
    | inr (node, f) ↦ cc (ap found f)
    | inl f ↦
        let passes : (or_fail dependencies Site.nil_dependencies
              >>= dependency_services n.service_nodes
              >>= λ services. ok (config, services))
            ≡ ok r =
          subst
            (λ b.
              (if b
                then err (failed (Site.service_exists id))
                else (or_fail dependencies Site.nil_dependencies
                    >>= dependency_services n.service_nodes
                    >>= λ services. ok (config, services)))
              ≡ ok r)
            (ap found f) e in
        let (services, found_all, _) =
          bind-eq-ok
            (or_fail dependencies Site.nil_dependencies >>= dependency_services n.service_nodes)
            (λ services. ok (config, services)) r passes in
        let (ids, given, each) =
          bind-eq-ok _ (dependency_services n.service_nodes) services found_all in
        record {
          configured = ap found there;
          new = f;
          ids = ids;
          declared = or_fail-eq-ok _ _ ids given;
          present = dependencies_present n.service_nodes ids services each;
        }
  ]

  check_request-Allowed :
      (r : ServiceConfig W Service × List Service)
      → check_request configuration_id id dependencies n ≡ ok r
      → Allowed n configuration_id id dependencies
  unfolding check_request
  check_request-Allowed r e =
      let (config, there, later) = bind-eq-ok _ (with_config id dependencies n.service_nodes) r e in
      with_config-Allowed config r (or_fail-eq-ok _ _ config there) later

-- The network with the new service.
pub record Added {W Service : Type 0} (n : ServiceNetwork W Service) (id : Text)
    (checker : ServiceAvailabilityChecker Service) (after : ServiceNetwork W Service) : Type 0 where
  pub node : ServiceNode Service
  pub there : get_service id after ≡ ok node
  pub checked : checker.to_check ≡ node.service
  pub was_free : is_taken n.free_ip_tracker.taken_ips (ip_text node.ip_addr) ≡ false
  pub others : (k : Text) → k ≢ id → get_service k after ≡ get_service k n

-- By the result: an error leaves the services as they were.
pub record Effect {W Service : Type 0} (n : ServiceNetwork W Service) (id : Text)
    (o : Outcome W Service (ServiceAvailabilityChecker Service)) : Type 0 where
  pub on_error : (e : Error) → o.result ≡ err e → o.network.service_nodes ≡ n.service_nodes
  pub on_success :
      (checker : ServiceAvailabilityChecker Service)
      → o.result ≡ ok checker
      → Added n id checker o.network

module _ {W Service : Type 0} (host : Host W) (background : Context) (n : ServiceNetwork W Service)
    (id : Text) where
  register-Effect :
      (config : ServiceConfig W Service) (deps : List Service) (ip : Ip) (t : FreeIpAddrTracker)
      (r : Result (Service × Text) × W)
      → is_taken n.free_ip_tracker.taken_ips (ip_text ip) ≡ false
      → Effect n id (register background id config deps ip (record n { free_ip_tracker = t }) r)
  unfolding get_service new_service_availability_checker
  register-Effect config deps ip t (err x, w) free = record {
    on_error = λ e h. refl;
    on_success = λ checker h. cc;
  }
  register-Effect config deps ip t (ok (service, container_id), w) free = record {
    on_error = λ e h. cc;
    on_success = λ checker h. record {
      node = record { ip_addr = ip; service = service; container_id = container_id };
      there =
          rw
            (lookup-insert_self id
              (record { ip_addr = ip; service = service; container_id = container_id })
              n.service_nodes)
            refl;
      checked = sym (ap (λ (c : ServiceAvailabilityChecker Service). c.to_check) (ok-inj h));
      was_free = free;
      others = λ k ne.
          ap (λ o. or_fail o (Site.no_service k))
            (ground (
              arith,
              lookup-insert id k
                  (record { ip_addr = ip; service = service; container_id = container_id })
                  n.service_nodes,
              ==_iff id k,
            ));
    };
  }

  address-Effect :
      (config : ServiceConfig W Service) (deps : List Service) (w : W)
      (r : Result Ip × FreeIpAddrTracker)
      → Step n.free_ip_tracker r
      → Effect n id (with_address host background id config deps n w r)
  address-Effect config deps w (err x, t) step = record {
    on_error = λ e h. refl;
    on_success = λ checker h. cc;
  }
  address-Effect config deps w (ok ip, t) (free, _) = register-Effect config deps ip t _ free

  allocate-Effect :
      (config : ServiceConfig W Service) (deps : List Service) (w : W)
      (call : Option (Result Ip × FreeIpAddrTracker))
      (o : Outcome W Service (ServiceAvailabilityChecker Service))
      → ((r : Result Ip × FreeIpAddrTracker) → call ≡ some r → Step n.free_ip_tracker r)
      → allocate host background id config deps n w call ≡ some o
      → Effect n id o
  allocate-Effect config deps w none o steps e = cc
  allocate-Effect config deps w (some r) o steps e =
      subst (Effect n id) (some-inj e) (address-Effect config deps w r (steps r refl))

  checked-Effect :
      (w : W) (r : Result (ServiceConfig W Service × List Service))
      (o : Outcome W Service (ServiceAvailabilityChecker Service))
      → add_checked host background id n w r ≡ some o
      → Effect n id o
  checked-Effect w (err x) o e =
      subst (Effect n id) (some-inj e)
        (record { on_error = λ y h. refl; on_success = λ checker h. cc })
  checked-Effect w (ok (config, deps)) o e =
      allocate-Effect config deps w (get_free_ip_addr n.free_ip_tracker) o
        (get-Step n.free_ip_tracker) e

  -- A request that a guard refuses is answered with an error.
  checked-Allowed :
      (cid : Text) (deps : Option (List Text)) (w : W)
      (r : Result (ServiceConfig W Service × List Service))
      (o : Outcome W Service (ServiceAvailabilityChecker Service))
      (checker : ServiceAvailabilityChecker Service)
      → check_request cid id deps n ≡ r
      → add_checked host background id n w r ≡ some o
      → o.result ≡ ok checker
      → Allowed n cid id deps
  checked-Allowed cid deps w (err x) o checker c e h =
      cc
        (ap (λ (p : Outcome W Service (ServiceAvailabilityChecker Service)). p.result) (some-inj e))
  checked-Allowed cid deps w (ok p) o checker c e h = check_request-Allowed n cid id deps p c

-- When AddService returns an error, the services are as before. When it returns a checker, the
-- configuration was registered, the ID was new, the dependencies were not nil and all of them were
-- services of the network; GetService finds a node for the ID whose address was free in the tracker
-- and whose service is the one that the checker checks; and it finds every other ID as before.
pub add_service-Effect :
    {W Service : Type 0} (host : Host W) (background : Context) (n : ServiceNetwork W Service)
    (w : W) (configuration_id service_id : Text) (dependencies : Option (List Text))
    (o : Outcome W Service (ServiceAvailabilityChecker Service))
    → add_service host background configuration_id service_id dependencies n w ≡ some o
    → ((e : Error) → o.result ≡ err e → o.network.service_nodes ≡ n.service_nodes)
      × ((checker : ServiceAvailabilityChecker Service)
          → o.result ≡ ok checker
          → Allowed n configuration_id service_id dependencies
            × Added n service_id checker o.network)
unfolding add_service
add_service-Effect host background n w cid id deps o e =
    let effect = checked-Effect host background n id w _ o e in
    (
      effect.on_error,
      (λ checker h. (
        checked-Allowed host background n id cid deps w _ o checker refl e h,
        effect.on_success checker h,
      )),
    )
