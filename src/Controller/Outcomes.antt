-- ===== src/Controller/Outcomes.antt =====
-- Lemmas on RunTest of controller/test_controller.go: what it reports of a test.
use zz_deprecated_kurtosis.Base.{
  some-inj, ◌≡◌, ◌⊎◌, inl, inr, refl, sym, ap, ◌∙◌, [], ◌∷◌, Option, Option-cases, none, some, Text,
  Dict, Error, failed, Site, propagated, Result, ok, err, All,
}
use zz_deprecated_kurtosis.Services.AvailabilityChecker.{
  ServiceAvailabilityChecker, wait_for_startup,
}
use zz_deprecated_kurtosis.Networks.ServiceNetwork.{ServiceNetwork}
use zz_deprecated_kurtosis.Controller.Context.{
  Ending, returned, panicked, panicked_nil, panicked_other,
}
use zz_deprecated_kurtosis.Controller.Calls.{Calls, finished, hangs, Left, cut_off, run_calls}
use zz_deprecated_kurtosis.Controller.TestController.{
  NetworkLoader, Test, Surroundings, setup_failed, test_passed, Verdict, reported, crash,
  run_test_result, after_select, result_of, wait_for_each, execute, after_initialization,
  use_network,
}
use zz_deprecated_kurtosis.Controller.Parts.{and_then-Parts}

-- The errors of a verdict, to tell verdicts apart.
abbrev setup_of : Verdict → Option Error
setup_of (reported reports) = reports.setup_err
setup_of crash = some (failed Site.test_timeout)

abbrev test_err_of : Verdict → Option Error
test_err_of (reported reports) = reports.test_err
test_err_of crash = none

-- A test that ends well: `returned`, or with a nil panic.
abbrev pub EndsWell : Ending → Type 0
EndsWell ending = (ending ≡ returned) ⊎ (ending ≡ panicked_nil)

select-EndsWell :
    (o : Option Ending)
    → after_select (result_of o) ≡ reported test_passed
    → (ending : Ending) × (o ≡ some ending) × EndsWell ending
unfolding after_select run_test_result
select-EndsWell none e = cc (ap test_err_of e)
select-EndsWell (some returned) e = (returned, refl, inl refl)
select-EndsWell (some panicked_nil) e = (panicked_nil, refl, inr refl)
select-EndsWell (some panicked_other) e = cc
select-EndsWell (some (panicked x)) e = cc (ap test_err_of e)

module _ {W Service : Type 0} (surroundings : Surroundings W) where
  abbrev pub run_on :
      {A : Type 0} → Calls W Service A → ServiceNetwork W Service → W → Option (Left W Service A)
  run_on c n w = run_calls surroundings.host surroundings.background c n w

  -- The service came up.
  abbrev pub CameUp : ServiceAvailabilityChecker Service → Type 0
  CameUp checker = wait_for_startup surroundings.polls checker ≡ some (ok tt)

  -- How a run ended.
  abbrev Passes : Left W Service Verdict → Type 0
  Passes l = l.value ≡ reported test_passed

  setup-not_Passes :
      (x : Error) (n : ServiceNetwork W Service) (w : W) (l : Left W Service Verdict)
      → run_on (finished (reported (setup_failed x))) n w ≡ some l
      → Passes l
      → ⊥
  unfolding run_calls
  setup-not_Passes x n w l e p =
      let same : reported (setup_failed x) ≡ l.value =
        ap (λ (k : Left W Service Verdict). k.value) (some-inj e) in
      cc (ap setup_of (same ∙ p))

  abbrev proceed :
      Text → Calls W Service Verdict → Option (Result (Unit {0})) → Calls W Service Verdict
  proceed id rest none = hangs
  proceed id rest (some (err x)) =
      finished (reported (setup_failed (propagated (Site.startup_of id) x)))
  proceed id rest (some (ok u)) = rest

  wait_for_each-first :
      (id : Text) (checker : ServiceAvailabilityChecker Service)
      (more : Dict Text (ServiceAvailabilityChecker Service)) (next : Calls W Service Verdict)
      (r : Option (Result (Unit {0})))
      → wait_for_startup surroundings.polls checker ≡ r
      → wait_for_each surroundings ((id, checker) ∷ more) next
        ≡ proceed id (wait_for_each surroundings more next) r
  unfolding wait_for_each
  wait_for_each-first id checker more next none e = rw (e, wait_for_each) refl
  wait_for_each-first id checker more next (some (err x)) e = rw (e, wait_for_each) refl
  wait_for_each-first id checker more next (some (ok u)) e = rw (e, wait_for_each) refl

  never_hangs :
      (n : ServiceNetwork W Service) (w : W) (l : Left W Service Verdict)
      → run_on hangs n w ≡ some l
      → ⊥
  unfolding run_calls
  never_hangs n w l e = cc

  wait_for_each-CameUp :
      (checkers : Dict Text (ServiceAvailabilityChecker Service)) (next : Calls W Service Verdict)
      (n : ServiceNetwork W Service) (w : W) (l : Left W Service Verdict)
      → run_on (wait_for_each surroundings checkers next) n w ≡ some l
      → Passes l
      → All (λ e. CameUp e.1) checkers × (run_on next n w ≡ some l)
  unfolding wait_for_each
  wait_for_each-CameUp [] next n w l e p = (tt, e)
  wait_for_each-CameUp ((id, checker) ∷ more) next n w l e p =
      elim (Option-cases (wait_for_startup surroundings.polls checker)) [
        | inl f ↦ absurd (never_hangs n w l (run_first none f))
        | inr (err x, f) ↦
            absurd (setup-not_Passes (propagated (Site.startup_of id) x) n w l (run_first _ f) p)
        | inr (ok u, f) ↦
            let (up, rest) = wait_for_each-CameUp more next n w l (run_first _ f) p in
            ((f, up), rest)
      ]
    where
      run_first :
          (r : Option (Result (Unit {0})))
          → wait_for_startup surroundings.polls checker ≡ r
          → run_on (proceed id (wait_for_each surroundings more next) r) n w ≡ some l
      run_first r f =
          sym (ap (λ c. run_on c n w) (wait_for_each-first id checker more next r f)) ∙ e

module _ {W Service Wrapped : Type 0} (surroundings : Surroundings W)
    (loader : NetworkLoader W Service Wrapped) (test : Test W Service Wrapped) where
  -- A run of RunTest's body in which everything went well.
  pub record Passed (n : ServiceNetwork W Service) (w : W) (l : Left W Service Verdict)
      : Type 0 where
    pub checkers : Dict Text (ServiceAvailabilityChecker Service)
    pub initialized : Left W Service (Result (Dict Text (ServiceAvailabilityChecker Service)))
    pub initialization : run_on surroundings loader.initialize_network n w ≡ some initialized
    pub no_error : initialized.value ≡ ok checkers
    pub available : All (λ e. CameUp surroundings e.1) checkers
    pub wrapped : Wrapped
    pub ready : Left W Service (Result Wrapped)
    pub wrapping :
        run_on surroundings loader.wrap_network initialized.network initialized.world ≡ some ready
    pub untyped_network : ready.value ≡ ok wrapped
    pub tested : Left W Service (Option Ending)
    pub run :
        run_on surroundings
          (cut_off surroundings.calls_in_time (test.run wrapped))
          ready.network
          ready.world
        ≡ some tested
    pub ending : Ending
    pub in_time : tested.value ≡ some ending
    pub ends_well : EndsWell ending

  -- The test itself.
  record Executed (wrapped : Wrapped) (n : ServiceNetwork W Service) (w : W) : Type 0 where
    tested : Left W Service (Option Ending)
    run :
        run_on surroundings (cut_off surroundings.calls_in_time (test.run wrapped)) n w
        ≡ some tested
    ending : Ending
    in_time : tested.value ≡ some ending
    ends_well : EndsWell ending

  execute-Executed :
      (r : Result Wrapped) (n : ServiceNetwork W Service) (w : W) (l : Left W Service Verdict)
      → run_on surroundings (execute surroundings test r) n w ≡ some l
      → Passes surroundings l
      → (wrapped : Wrapped) × (r ≡ ok wrapped) × Executed wrapped n w
  unfolding run_calls
  execute-Executed (err x) n w l e p =
      absurd (setup-not_Passes surroundings (propagated Site.wrap_network x) n w l e p)
  execute-Executed (ok wrapped) n w l e p =
      let parts = and_then-Parts surroundings.host surroundings.background _ _ n w l e in
      let (ending, there, well) =
        select-EndsWell parts.middle.value
          (ap (λ (k : Left W Service Verdict). k.value) (some-inj parts.second) ∙ p) in
      (
        wrapped,
        refl,
        record {
          tested = parts.middle;
          run = parts.first;
          ending = ending;
          in_time = there;
          ends_well = well;
        },
      )

  initialized-Passed :
      (r : Result (Dict Text (ServiceAvailabilityChecker Service)))
      (init : Left W Service (Result (Dict Text (ServiceAvailabilityChecker Service))))
      (n : ServiceNetwork W Service) (w : W) (l : Left W Service Verdict)
      → run_on surroundings loader.initialize_network n w ≡ some init
      → init.value ≡ r
      → run_on surroundings
          (after_initialization surroundings loader test r)
          init.network
          init.world
        ≡ some l
      → Passes surroundings l
      → Passed n w l
  initialized-Passed (err x) init n w l first v e p = absurd (
      setup-not_Passes surroundings (propagated Site.initialize_network x) init.network init.world l
        e p)
  initialized-Passed (ok checkers) init n w l first v e p =
      let (up, rest) = wait_for_each-CameUp surroundings checkers _ init.network init.world l e p in
      let parts =
        and_then-Parts surroundings.host surroundings.background (execute surroundings test)
          loader.wrap_network init.network init.world l rest in
      let (wrapped, there, x) =
        execute-Executed parts.middle.value parts.middle.network parts.middle.world l parts.second
          p in
      record {
        checkers = checkers;
        initialized = init;
        initialization = first;
        no_error = v;
        available = up;
        wrapped = wrapped;
        ready = parts.middle;
        wrapping = parts.first;
        untyped_network = there;
        tested = x.tested;
        run = x.run;
        ending = x.ending;
        in_time = x.in_time;
        ends_well = x.ends_well;
      }

-- When RunTest, on a network it has built, reports neither a setup error nor a test error: the
-- network was initialised and wrapped without an error, every availability checker that
-- InitializeNetwork returned came up, the test ended within its execution timeout, and it ended by
-- returning or by a panic with nil.
pub use_network-Passed :
    {W Service Wrapped : Type 0} (surroundings : Surroundings W)
    (loader : NetworkLoader W Service Wrapped) (test : Test W Service Wrapped)
    (n : ServiceNetwork W Service) (w : W) (l : Left W Service Verdict)
    → run_calls surroundings.host surroundings.background (use_network surroundings loader test) n w
      ≡ some l
    → l.value ≡ reported test_passed
    → Passed surroundings loader test n w l
unfolding use_network
use_network-Passed surroundings loader test n w l e p =
    let parts =
      and_then-Parts surroundings.host surroundings.background
        (after_initialization surroundings loader test) loader.initialize_network n w l e in
    initialized-Passed surroundings loader test parts.middle.value parts.middle n w l parts.first
      refl parts.second p
