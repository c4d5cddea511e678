-- ===== src/Controller/Answers.antt =====
-- Lemmas on the developer's calls: when they all return.
use zz_deprecated_kurtosis.Base.{
  ℕ, zero, suc, ◌≡◌, refl, sym, ap, subst, ◌∙◌, List, [], ◌∷◌, Option, none, some, Text, keys,
  lookup, text_eq, Result, ok, err,
}
use zz_deprecated_kurtosis.Net.Defs.{Ip}
use zz_deprecated_kurtosis.Services.{Host}
use zz_deprecated_kurtosis.Services.AvailabilityChecker.{Context, ServiceAvailabilityChecker}
use zz_deprecated_kurtosis.Networks.IpTracker.{FreeIpAddrTracker}
use zz_deprecated_kurtosis.Networks.IpTracker.Room.{Allocates, Allocates-call}
use zz_deprecated_kurtosis.Networks.ServiceNetwork.{
  ServiceNode, ServiceConfig, ServiceNetwork, Outcome, get_service, get_size, remove_found,
  allocate, add_checked, add_service, remove_service, remove_each, remove_all,
}
use zz_deprecated_kurtosis.Networks.ServiceNetwork.Addresses.{
  add_service-Later, add_service-Watches,
}
use zz_deprecated_kurtosis.Controller.Calls.{
  Calls, finished, hangs, gets, sizes, acts, adds, removes, clears, Left, and_then, cut_off,
  run_calls,
}
use zz_deprecated_kurtosis.Controller.Upkeep.{run_calls-adds}

-- A checker of AddService watches its service under a context that it makes from the given one.
abbrev pub Watches :
    {Service : Type 0} → Context → Result (ServiceAvailabilityChecker Service) → Type 0
Watches background (err e) = Unit {0}
Watches background (ok checker) = checker.context ≡ background

module _ {W Service : Type 0} (background : Context) where
  -- Calls that do not hang, whatever is answered to them, and end with a value of `Q`.
  unfoldable pub Answers : {A : Type 0} → (A → Type 0) → Calls W Service A → Type 0
  Answers Q (finished a) = Q a
  Answers Q hangs = ⊥
  Answers Q (gets id later) = (r : Result (ServiceNode Service)) → Answers Q (later r)
  Answers Q (sizes later) = (k : ℕ) → Answers Q (later k)
  Answers Q (acts g later) = (w : W) → Answers Q (later w)
  Answers Q (adds cid id deps later) =
      (r : Result (ServiceAvailabilityChecker Service)) → Watches background r → Answers Q (later r)
  Answers Q (removes id timeout later) = (r : Result (Unit {0})) → Answers Q (later r)
  Answers Q (clears timeout later) = (r : Result (Unit {0})) → Answers Q (later r)

  pub and_then-Answers :
      {A B : Type 0} (Q : A → Type 0) (R : B → Type 0) (c : Calls W Service A)
      (f : A → Calls W Service B)
      → Answers Q c
      → ((a : A) → Q a → Answers R (f a))
      → Answers R (and_then c f)
  unfolding Answers and_then
  and_then-Answers Q R (finished a) f h g = g a h
  and_then-Answers Q R hangs f h g = absurd h
  and_then-Answers Q R (gets id later) f h g = λ r. and_then-Answers Q R (later r) f (h r) g
  and_then-Answers Q R (sizes later) f h g = λ r. and_then-Answers Q R (later r) f (h r) g
  and_then-Answers Q R (acts a later) f h g = λ r. and_then-Answers Q R (later r) f (h r) g
  and_then-Answers Q R (adds cid id deps later) f h g =
      λ r x. and_then-Answers Q R (later r) f (h r x) g
  and_then-Answers Q R (removes id timeout later) f h g =
      λ r. and_then-Answers Q R (later r) f (h r) g
  and_then-Answers Q R (clears timeout later) f h g = λ r. and_then-Answers Q R (later r) f (h r) g

  -- What is cut off by a timeout does not hang.
  pub cut_off-Answers :
      {A : Type 0} (k : ℕ) (c : Calls W Service A) → Answers (λ o. Unit {0}) (cut_off k c)
  unfolding Answers cut_off
  cut_off-Answers zero c = tt
  cut_off-Answers (suc k) (finished a) = tt
  cut_off-Answers (suc k) hangs = tt
  cut_off-Answers (suc k) (gets id later) = λ r. cut_off-Answers k (later r)
  cut_off-Answers (suc k) (sizes later) = λ r. cut_off-Answers k (later r)
  cut_off-Answers (suc k) (acts g later) = λ r. cut_off-Answers k (later r)
  cut_off-Answers (suc k) (adds cid id deps later) = λ r x. cut_off-Answers k (later r)
  cut_off-Answers (suc k) (removes id timeout later) = λ r. cut_off-Answers k (later r)
  cut_off-Answers (suc k) (clears timeout later) = λ r. cut_off-Answers k (later r)

module _ {W Service : Type 0} (host : Host W) (background : Context) where
  allocate_returns :
      (id : Text) (config : ServiceConfig W Service) (deps : List Service)
      (n : ServiceNetwork W Service) (w : W) (call : Option (Result Ip × FreeIpAddrTracker))
      (r : Result Ip × FreeIpAddrTracker)
      → call ≡ some r
      → (o : Outcome W Service (ServiceAvailabilityChecker Service)) × (allocate host background id
            config deps n w call
          ≡ some o)
  allocate_returns id config deps n w none r e = cc
  allocate_returns id config deps n w (some s) r e = (_, refl)

  checked_returns :
      (id : Text) (n : ServiceNetwork W Service) (w : W)
      (r : Result (ServiceConfig W Service × List Service))
      → Allocates n.free_ip_tracker.subnet
      → (o : Outcome W Service (ServiceAvailabilityChecker Service)) × (add_checked host background
            id n w r
          ≡ some o)
  checked_returns id n w (err x) h = (_, refl)
  checked_returns id n w (ok (config, deps)) h =
      let (r, e, _) = Allocates-call n.free_ip_tracker h in
      allocate_returns id config deps n w _ r e

  add_service_returns :
      (cid id : Text) (deps : Option (List Text)) (n : ServiceNetwork W Service) (w : W)
      → Allocates n.free_ip_tracker.subnet
      → (o : Outcome W Service (ServiceAvailabilityChecker Service)) × (add_service host background
            cid id deps n w
          ≡ some o)
  unfolding add_service
  add_service_returns cid id deps n w h = checked_returns id n w _ h

  found-tracker :
      (id : Text) (timeout : ℕ) (n : ServiceNetwork W Service) (w : W)
      (there : Option (ServiceNode Service))
      → (remove_found host timeout id n w there).network.free_ip_tracker ≡ n.free_ip_tracker
  found-tracker id timeout n w none = refl
  found-tracker id timeout n w (some node) = refl

  each-tracker :
      (timeout : ℕ) (ids : List Text) (n : ServiceNetwork W Service) (w : W)
      → (remove_each host timeout ids n w).0.free_ip_tracker ≡ n.free_ip_tracker
  unfolding remove_each remove_service
  each-tracker timeout [] n w = refl
  each-tracker timeout (id ∷ more) n w =
      each-tracker timeout more _ _ ∙ found-tracker id timeout n w (lookup id n.service_nodes)

  watched :
      (r : Result (ServiceAvailabilityChecker Service))
      → ((checker : ServiceAvailabilityChecker Service)
          → r ≡ ok checker
          → checker.context ≡ background)
      → Watches background r
  watched (err e) h = tt
  watched (ok checker) h = h checker refl

  removed-tracker :
      (id : Text) (timeout : ℕ) (n : ServiceNetwork W Service) (w : W)
      → (remove_service host timeout id n w).network.free_ip_tracker ≡ n.free_ip_tracker
  unfolding remove_service
  removed-tracker id timeout n w = found-tracker id timeout n w (lookup id n.service_nodes)

  cleared-tracker :
      (timeout : ℕ) (n : ServiceNetwork W Service) (w : W)
      → (remove_all host timeout n w).network.free_ip_tracker ≡ n.free_ip_tracker
  unfolding remove_all
  cleared-tracker timeout n w = each-tracker timeout (keys n.service_nodes) n w

  pub run_calls-returns :
      {A : Type 0} (Q : A → Type 0) (c : Calls W Service A) (n : ServiceNetwork W Service) (w : W)
      → Answers background Q c
      → Allocates n.free_ip_tracker.subnet
      → (l : Left W Service A) × (run_calls host background c n w ≡ some l) × Q l.value
  unfolding Answers run_calls
  run_calls-returns Q (finished a) n w h net = (_, refl, h)
  run_calls-returns Q hangs n w h net = absurd h
  run_calls-returns Q (gets id later) n w h net =
      let r = get_service id n in run_calls-returns Q (later r) n w (h r) net
  run_calls-returns Q (sizes later) n w h net =
      let r = get_size n in run_calls-returns Q (later r) n w (h r) net
  run_calls-returns Q (acts g later) n w h net = run_calls-returns Q (later w) n (g w) (h w) net
  run_calls-returns Q (adds cid id deps later) n w h net =
      let (o, e) = add_service_returns cid id deps n w net in
      let same = (add_service-Later host background n id w cid deps o e).subnet in
      let (l, run, q) =
        run_calls-returns Q (later o.result) o.network o.world
          (h o.result (watched o.result (add_service-Watches host background n id w cid deps o e)))
          (subst Allocates (sym same) net) in
      (l, run_calls-adds host background cid id deps later n w (some o) e ∙ run, q)
  run_calls-returns Q (removes id timeout later) n w h net =
      let r = (remove_service host timeout id n w).result in
      run_calls-returns Q (later r) _ _ (h r)
        (subst Allocates (sym (ap (λ t. t.subnet) (removed-tracker id timeout n w))) net)
  run_calls-returns Q (clears timeout later) n w h net =
      let r = (remove_all host timeout n w).result in
      run_calls-returns Q (later r) _ _ (h r)
        (subst Allocates (sym (ap (λ t. t.subnet) (cleared-tracker timeout n w))) net)
