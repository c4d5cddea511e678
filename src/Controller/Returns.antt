-- ===== src/Controller/Returns.antt =====
-- Lemmas on RunTest of controller/test_controller.go: when it returns.
use zz_deprecated_kurtosis.Base.{
  ℕ, ◌<◌, ◌≡◌, refl, sym, ap, subst, ◌∙◌, inl, inr, [], ◌∷◌, true, Option, Option-cases, none, some,
  Text, Dict, lookup, found, text_eq, All, arith, Result, ok, err,
}
use zz_deprecated_kurtosis.Net.Defs.{IpNet}
use zz_deprecated_kurtosis.Net.Cidr.{parse_cidr}
use zz_deprecated_kurtosis.Services.AvailabilityChecker.{
  ContextErr, ServiceAvailabilityChecker, wait_for_startup,
}
use zz_deprecated_kurtosis.Services.AvailabilityChecker.Laws.{wait_for_startup_ends}
use zz_deprecated_kurtosis.Networks.IpTracker.{FreeIpAddrTracker, new_free_ip_addr_tracker}
use zz_deprecated_kurtosis.Networks.ServiceNetwork.{new_service_network}
use zz_deprecated_kurtosis.Networks.Builder.{
  ServiceNetworkBuilder, new_service_network_builder, build,
}
use zz_deprecated_kurtosis.Controller.Calls.{Calls, Left}
use zz_deprecated_kurtosis.Controller.TestController.{
  NetworkLoader, Test, TestController, Surroundings, Verdict, Finish, wait_for_each, execute,
  after_initialization, use_network, finish, with_builder, already_taken_ips, with_tracker,
  with_manager, connect, with_loader, with_test, run_test,
}
use zz_deprecated_kurtosis.Networks.IpTracker.Room.{Allocates}
use zz_deprecated_kurtosis.Controller.Answers.{
  Answers, and_then-Answers, cut_off-Answers, run_calls-returns,
}
use zz_deprecated_kurtosis.Controller.Cleanup.{run_configures-tracker}

-- The contexts made from the controller's end at their deadlines, within the polls that are
-- followed.
pub record Deadlines {W : Type 0} (surroundings : Surroundings W) : Type 0 where
  pub deadline : ℕ → ℕ
  pub reason : ℕ → ContextErr
  pub last :
      (timeout : ℕ)
      → surroundings.background.err_at timeout (deadline timeout) ≡ some (reason timeout)
  pub alive :
      (timeout j : ℕ) → j < deadline timeout → surroundings.background.err_at timeout j ≡ none
  pub enough : (timeout : ℕ) → deadline timeout < surroundings.polls

module _ {W Service : Type 0} (surroundings : Surroundings W) where
  -- What InitializeNetwork returns: checkers under such contexts, as AddService makes them.
  abbrev pub CanWait : Result (Dict Text (ServiceAvailabilityChecker Service)) → Type 0
  CanWait (err e) = Unit {0}
  CanWait (ok checkers) = All (λ e. e.1.context ≡ surroundings.background) checkers

  wait_ends :
      (checker : ServiceAvailabilityChecker Service)
      → Deadlines surroundings
      → checker.context ≡ surroundings.background
      → found (wait_for_startup surroundings.polls checker) ≡ true
  wait_ends checker d e =
      let timeout = checker.core.get_timeout in
      elim (wait_for_startup_ends checker surroundings.polls (d.deadline timeout) (d.reason timeout)
        (ap (λ c. c.err_at timeout (d.deadline timeout)) e ∙ d.last timeout)
        (λ j h. ap (λ c. c.err_at timeout j) e ∙ d.alive timeout j h) (d.enough timeout)) [
          | inl up ↦ ap found up.returns
          | inr down ↦ ap found down.returns
        ]

  wait_for_each-Answers :
      (checkers : Dict Text (ServiceAvailabilityChecker Service)) (next : Calls W Service Verdict)
      → Deadlines surroundings
      → All (λ e. e.1.context ≡ surroundings.background) checkers
      → Answers surroundings.background (λ v. Unit {0}) next
      → Answers surroundings.background (λ v. Unit {0}) (wait_for_each surroundings checkers next)
  unfolding wait_for_each Answers
  wait_for_each-Answers [] next d h a = a
  wait_for_each-Answers ((id, checker) ∷ more) next d h a =
      elim (Option-cases (wait_for_startup surroundings.polls checker)) [
        | inl e ↦ cc (wait_ends checker d h.0, ap found e)
        | inr (err x, e) ↦ rw (e, wait_for_each) tt
        | inr (ok u, e) ↦ rw (e, wait_for_each) (wait_for_each-Answers more next d h.1 a)
      ]

  finish-returns :
      (call : Option (Left W Service Verdict)) (l : Left W Service Verdict)
      → call ≡ some l
      → (f : Finish W Service) × (finish surroundings call ≡ some f)
  finish-returns none l e = cc
  finish-returns (some k) l e = (_, refl)

-- The hooks of a loader do not hang, and what they start can be waited for.
pub record Responsive {W Service Wrapped : Type 0} (surroundings : Surroundings W)
    (loader : NetworkLoader W Service Wrapped) : Type 0 where
  pub initialize : Answers surroundings.background (CanWait surroundings) loader.initialize_network
  pub wrapping :
      Answers surroundings.background (λ (r : Result Wrapped). Unit {0}) loader.wrap_network

module _ {W Service Wrapped : Type 0} (surroundings : Surroundings W) where
  execute-Answers :
      (test : Test W Service Wrapped) (r : Result Wrapped)
      → Answers surroundings.background (λ v. Unit {0}) (execute surroundings test r)
  unfolding Answers
  execute-Answers test (err e) = tt
  execute-Answers test (ok wrapped) =
      and_then-Answers surroundings.background (λ o. Unit {0}) (λ v. Unit {0}) _ _
        (cut_off-Answers surroundings.background _ (test.run wrapped)) (λ o h. tt)

  initialized-Answers :
      (loader : NetworkLoader W Service Wrapped) (test : Test W Service Wrapped)
      (r : Result (Dict Text (ServiceAvailabilityChecker Service)))
      → Responsive surroundings loader
      → CanWait surroundings r
      → Deadlines surroundings
      → Answers surroundings.background
          (λ v. Unit {0})
          (after_initialization surroundings loader test r)
  unfolding Answers
  initialized-Answers loader test (err e) h c d = tt
  initialized-Answers loader test (ok checkers) h c d =
      wait_for_each-Answers surroundings checkers _ d c (
        and_then-Answers surroundings.background (λ r. Unit {0}) (λ v. Unit {0}) loader.wrap_network
          (execute surroundings test) h.wrapping (λ r u. execute-Answers test r))

  use_network-Answers :
      (loader : NetworkLoader W Service Wrapped) (test : Test W Service Wrapped)
      → Responsive surroundings loader
      → Deadlines surroundings
      → Answers surroundings.background (λ v. Unit {0}) (use_network surroundings loader test)
  unfolding use_network
  use_network-Answers loader test h d =
      and_then-Answers surroundings.background (CanWait surroundings) (λ v. Unit {0})
        loader.initialize_network (after_initialization surroundings loader test) h.initialize
        (λ r c. initialized-Answers loader test r h c d)

  builder_returns :
      (loader : NetworkLoader W Service Wrapped) (test : Test W Service Wrapped) (w : W)
      (r : Result (Unit {0}) × ServiceNetworkBuilder W Service)
      → Responsive surroundings loader
      → Deadlines surroundings
      → Allocates r.1.free_ip_tracker.subnet
      → (f : Finish W Service) × (with_builder surroundings loader test w r ≡ some f)
  unfolding build new_service_network
  builder_returns loader test w (err e, b) h d net = (_, refl)
  builder_returns loader test w (ok u, b) h d net =
      let (l, run, q) =
        run_calls-returns surroundings.host surroundings.background (λ v. Unit {0})
          (use_network surroundings loader test) (build b) w (use_network-Answers loader test h d)
          net in
      finish-returns surroundings _ l run

module _ {W Service Wrapped : Type 0} (surroundings : Surroundings W)
    (controller : TestController W Service Wrapped)
    (nets : (net : IpNet) → parse_cidr controller.subnet_mask ≡ some net → Allocates net)
    (deadlines : Deadlines surroundings) where
  new-Allocates :
      (t : FreeIpAddrTracker)
      → new_free_ip_addr_tracker controller.subnet_mask (already_taken_ips surroundings controller)
        ≡ ok t
      → Allocates t.subnet
  unfolding new_free_ip_addr_tracker
  new-Allocates t e = elim (Option-cases (parse_cidr controller.subnet_mask)) [
    | inl f ↦ ground arith
    | inr (net, f) ↦ let same : net ≡ t.subnet = ground arith in subst Allocates same (nets net f)
  ]

  tracker_returns :
      (loader : NetworkLoader W Service Wrapped) (test : Test W Service Wrapped) (w : W)
      (r : Result FreeIpAddrTracker)
      → Responsive surroundings loader
      → new_free_ip_addr_tracker controller.subnet_mask (already_taken_ips surroundings controller)
        ≡ r
      → (f : Finish W Service) × (with_tracker surroundings controller loader test w r ≡ some f)
  unfolding new_service_network_builder
  tracker_returns loader test w (err e) h made = (_, refl)
  tracker_returns loader test w (ok t) h made =
      let same = run_configures-tracker loader.configure_network _ in
      builder_returns surroundings loader test w _ h deadlines
        (subst (λ (u : FreeIpAddrTracker). Allocates u.subnet) (sym same) (new-Allocates t made))

  manager_returns :
      (loader : NetworkLoader W Service Wrapped) (test : Test W Service Wrapped)
      (r : Result (Unit {0}) × W)
      → Responsive surroundings loader
      → (f : Finish W Service) × (with_manager surroundings controller loader test r ≡ some f)
  manager_returns loader test (err e, w) h = (_, refl)
  manager_returns loader test (ok u, w) h = tracker_returns loader test w _ h refl

  loader_returns :
      (test : Test W Service Wrapped) (w : W) (r : Result (NetworkLoader W Service Wrapped))
      → ((loader : NetworkLoader W Service Wrapped)
          → r ≡ ok loader
          → Responsive surroundings loader)
      → (f : Finish W Service) × (with_loader surroundings controller test w r ≡ some f)
  loader_returns test w (err e) h = (_, refl)
  loader_returns test w (ok loader) h =
      manager_returns loader test (connect surroundings controller w) (h loader refl)

  test_returns :
      (w : W) (t : Option (Test W Service Wrapped))
      → ((test : Test W Service Wrapped) (loader : NetworkLoader W Service Wrapped)
          → t ≡ some test
          → test.get_network_loader ≡ ok loader
          → Responsive surroundings loader)
      → (f : Finish W Service) × (with_test surroundings controller w t ≡ some f)
  test_returns w none h = (_, refl)
  test_returns w (some test) h =
      loader_returns test w test.get_network_loader (λ loader e. h test loader refl e)

-- When the subnet, if it can be parsed, is one on which addresses can be allocated, and the hooks of
-- the test's loader do not hang, and the contexts of the availability checkers end at their deadlines,
-- within the polls that are followed:
-- RunTest returns or the controller's process dies, however long the test itself takes, and even if
-- the test hangs.
pub run_test_returns :
    {W Service Wrapped : Type 0} (surroundings : Surroundings W)
    (controller : TestController W Service Wrapped) (w : W)
    → ((net : IpNet) → parse_cidr controller.subnet_mask ≡ some net → Allocates net)
    → Deadlines surroundings
    → ((test : Test W Service Wrapped) (loader : NetworkLoader W Service Wrapped)
        → lookup controller.test_name controller.test_suite ≡ some test
        → test.get_network_loader ≡ ok loader
        → Responsive surroundings loader)
    → (f : Finish W Service) × (run_test surroundings controller w ≡ some f)
unfolding run_test
run_test_returns surroundings controller w nets deadlines hooks =
    test_returns surroundings controller nets deadlines w
      (lookup controller.test_name controller.test_suite) hooks
