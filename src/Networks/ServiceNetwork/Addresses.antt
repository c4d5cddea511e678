-- ===== src/Networks/ServiceNetwork/Addresses.antt =====
-- Lemmas on AddService of commons/networks/service_network.go: the tracker that it leaves, and
-- the context of its checker.
use zz_deprecated_kurtosis.Base.{
  ok-inj, some-inj, ◌≡◌, refl, sym, ap, subst, ◌∙◌, List, true, Option, none, some, Text, text_eq,
  arith, Result, ok, err,
}
use zz_deprecated_kurtosis.Net.Defs.{Ip}
use zz_deprecated_kurtosis.Net.Cidr.{ip_text}
use zz_deprecated_kurtosis.Networks.IpTracker.{FreeIpAddrTracker, is_taken, get_free_ip_addr}
use zz_deprecated_kurtosis.Networks.IpTracker.History.{Step, get-Step, with_taken-eq-some}
use zz_deprecated_kurtosis.Networks.IpTracker.Scan.{is_taken-insert}
use zz_deprecated_kurtosis.Services.{Host}
use zz_deprecated_kurtosis.Services.AvailabilityChecker.{
  Context, ServiceAvailabilityChecker, new_service_availability_checker,
}
use zz_deprecated_kurtosis.Networks.ServiceNetwork.{
  ServiceConfig, ServiceNetwork, Outcome, register, with_address, allocate, add_checked,
  add_service,
}

-- A later state of a tracker.
pub record Later (t u : FreeIpAddrTracker) : Type 0 where
  pub subnet : u.subnet ≡ t.subnet
  pub more : (s : Text) → is_taken t.taken_ips s ≡ true → is_taken u.taken_ips s ≡ true

pub Later-refl : (t : FreeIpAddrTracker) → Later t t
Later-refl t = record { subnet = refl; more = λ s e. e }

pub Later-trans : {t u v : FreeIpAddrTracker} → Later t u → Later u v → Later t v
Later-trans a b = record { subnet = b.subnet ∙ a.subnet; more = λ s e. b.more s (a.more s e) }

Step-more :
    (t : FreeIpAddrTracker) (r : Result Ip × FreeIpAddrTracker) (s : Text)
    → Step t r
    → is_taken t.taken_ips s ≡ true
    → is_taken r.1.taken_ips s ≡ true
Step-more t (ok ip, u) s (free, marked) e =
    ground (arith, ap (λ m. is_taken m s) marked, is_taken-insert t.taken_ips (ip_text ip) s)
Step-more t (err x, u) s (_, same) e = ap (λ m. is_taken m s) same ∙ e

pub get_free_ip_addr-Later :
    (t : FreeIpAddrTracker) (r : Result Ip × FreeIpAddrTracker)
    → get_free_ip_addr t ≡ some r
    → Later t r.1
unfolding get_free_ip_addr
get_free_ip_addr-Later t r e =
    let (s, found, same) = with_taken-eq-some t _ r e in
    record {
      subnet = ap (λ (p : Result Ip × FreeIpAddrTracker). p.1.subnet) same;
      more = λ s. Step-more t r s (get-Step t r e);
    }

module _ {W Service : Type 0} (host : Host W) (background : Context) (n : ServiceNetwork W Service)
    (id : Text) where
  abbrev LaterIn : Outcome W Service (ServiceAvailabilityChecker Service) → Type 0
  LaterIn o = Later n.free_ip_tracker o.network.free_ip_tracker

  address-Later :
      (config : ServiceConfig W Service) (deps : List Service) (w : W)
      (r : Result Ip × FreeIpAddrTracker)
      → Later n.free_ip_tracker r.1
      → LaterIn (with_address host background id config deps n w r)
  address-Later config deps w (err x, t) l = l
  address-Later config deps w (ok ip, t) l = registered _
    where
      registered :
          (r : Result (Service × Text) × W)
          → LaterIn (register background id config deps ip (record n { free_ip_tracker = t }) r)
      registered (err x, v) = l
      registered (ok (service, container_id), v) = l

  allocate-Later :
      (config : ServiceConfig W Service) (deps : List Service) (w : W)
      (call : Option (Result Ip × FreeIpAddrTracker))
      (o : Outcome W Service (ServiceAvailabilityChecker Service))
      → get_free_ip_addr n.free_ip_tracker ≡ call
      → allocate host background id config deps n w call ≡ some o
      → LaterIn o
  allocate-Later config deps w none o c e = cc
  allocate-Later config deps w (some r) o c e =
      subst LaterIn (some-inj e)
        (address-Later config deps w r (get_free_ip_addr-Later n.free_ip_tracker r c))

  checked-Later :
      (w : W) (r : Result (ServiceConfig W Service × List Service))
      (o : Outcome W Service (ServiceAvailabilityChecker Service))
      → add_checked host background id n w r ≡ some o
      → LaterIn o
  checked-Later w (err x) o e = subst LaterIn (some-inj e) (Later-refl n.free_ip_tracker)
  checked-Later w (ok (config, deps)) o e = allocate-Later config deps w _ o refl e

  pub add_service-Later :
      (w : W) (configuration_id : Text) (dependencies : Option (List Text))
      (o : Outcome W Service (ServiceAvailabilityChecker Service))
      → add_service host background configuration_id id dependencies n w ≡ some o
      → LaterIn o
  unfolding add_service
  add_service-Later w configuration_id dependencies o e = checked-Later w _ o e

  -- The checker's context is made from the one given.
  abbrev WatchedIn : Outcome W Service (ServiceAvailabilityChecker Service) → Type 0
  WatchedIn o =
      (checker : ServiceAvailabilityChecker Service)
      → o.result ≡ ok checker
      → checker.context ≡ background

  address-Watches :
      (config : ServiceConfig W Service) (deps : List Service) (w : W)
      (r : Result Ip × FreeIpAddrTracker)
      → WatchedIn (with_address host background id config deps n w r)
  unfolding new_service_availability_checker
  address-Watches config deps w (err x, t) checker e = cc
  address-Watches config deps w (ok ip, t) checker e = registered _ e
    where
      registered :
          (r : Result (Service × Text) × W)
          → (register background id config deps ip (record n { free_ip_tracker = t }) r).result
            ≡ ok checker
          → checker.context ≡ background
      registered (err x, v) h = cc
      registered (ok (service, container_id), v) h =
          sym (ap (λ (c : ServiceAvailabilityChecker Service). c.context) (ok-inj h))

  allocate-Watches :
      (config : ServiceConfig W Service) (deps : List Service) (w : W)
      (call : Option (Result Ip × FreeIpAddrTracker))
      (o : Outcome W Service (ServiceAvailabilityChecker Service))
      → allocate host background id config deps n w call ≡ some o
      → WatchedIn o
  allocate-Watches config deps w none o e = cc
  allocate-Watches config deps w (some r) o e =
      subst WatchedIn (some-inj e) (address-Watches config deps w r)

  checked-Watches :
      (w : W) (r : Result (ServiceConfig W Service × List Service))
      (o : Outcome W Service (ServiceAvailabilityChecker Service))
      → add_checked host background id n w r ≡ some o
      → WatchedIn o
  checked-Watches w (err x) o e = subst WatchedIn (some-inj e) (λ checker h. cc)
  checked-Watches w (ok (config, deps)) o e = allocate-Watches config deps w _ o e

  pub add_service-Watches :
      (w : W) (configuration_id : Text) (dependencies : Option (List Text))
      (o : Outcome W Service (ServiceAvailabilityChecker Service))
      → add_service host background configuration_id id dependencies n w ≡ some o
      → WatchedIn o
  unfolding add_service
  add_service-Watches w configuration_id dependencies o e = checked-Watches w _ o e
