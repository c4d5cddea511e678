-- ===== src/Initializer/SuiteRunner/Whole.antt =====
-- Lemmas on RunTests of initializer/test_suite_runner.go: the verdict on the tests asked for.
use zz_deprecated_kurtosis.Base.{
  some-inj, ℕ, suc, ◌<◌, ◌≡◌, ◌≢◌, ◌↔◌, refl, sym, ap, subst, ◌∙◌, inl, inr, List, [], ◌∷◌, map,
  Bool, true, ◌||◌, if◌then◌else◌, none, found, named, Text, Dict, lookup, lookup_empty, insert,
  lookup-insert, IsDict, insert-IsDict, All, ◌==◌, ==_iff, text_eq, arith, Result, ok, err, Site,
  propagate, ◌>>=◌,
}
use zz_deprecated_kurtosis.Initializer.TestParams.{ParallelTestParams, params_loop}
use zz_deprecated_kurtosis.Initializer.TestParams.Subnets.{subnet_start, build-ok}
use zz_deprecated_kurtosis.Initializer.OutputManager.{System, interceptor}
use zz_deprecated_kurtosis.Initializer.OutputManager.Outcomes.{Report, IsPass}
use zz_deprecated_kurtosis.Initializer.Parallelizer.Counts.{occ, report_names, chan_names}
use zz_deprecated_kurtosis.Initializer.Parallelizer.Verdict.{run_verdict}
use zz_deprecated_kurtosis.Initializer.SuiteRunner.{names_to_run}
use zz_deprecated_kurtosis.Initializer.SuiteRunner.Choice.{choose_tests-exact}
use zz_deprecated_kurtosis.Initializer.SuiteRunner.RunTests.{
  TestSuiteRunner, with_params, with_tests, prepare, RunTests, refused, ran,
}

module _ {Test : Type 0} where
  -- Every entry's parameters have the name that is its key.
  abbrev Labelled : Dict Text (ParallelTestParams Test) → Type 0
  Labelled ps = All (λ e. e.1.test_name ≡ e.0) ps

  insert-Labelled :
      (k : Text) (p : ParallelTestParams Test) (ps : Dict Text (ParallelTestParams Test))
      → p.test_name ≡ k
      → Labelled ps
      → Labelled (insert k p ps)
  unfolding insert
  insert-Labelled k p [] e h = (e, tt)
  insert-Labelled k p ((j, q) ∷ ps) e h = ground (arith, insert-Labelled k p ps e h.1)

  absent-occ :
      (k : Text) (ps : Dict Text (ParallelTestParams Test))
      → Labelled ps
      → lookup k ps ≡ none
      → occ k (chan_names (map (λ e. e.1) ps)) ≡ 0
  unfolding occ lookup
  absent-occ k [] h e = refl
  absent-occ k ((j, p) ∷ ps) h e = rw (h.0) (ground (arith, absent-occ k ps h.1))

  -- Each test is in the channel once.
  occ-found :
      (k : Text) (ps : Dict Text (ParallelTestParams Test))
      → Labelled ps
      → IsDict ps
      → occ k (chan_names (map (λ e. e.1) ps)) ≡ (if found (lookup k ps) then 1 else 0)
  unfolding occ lookup
  occ-found k [] h d = refl
  occ-found k ((j, p) ∷ ps) h d =
      rw (h.0) (ground (arith, occ-found k ps h.1 d.1, ==_iff j k, absent-occ k ps h.1))

module _ {Test : Type 0} (to : ℕ → ℕ) (width : ℕ) (id : Text) where
  loop-Labelled :
      (start idx : ℕ) (tests : Dict Text Test) (ps : Dict Text (ParallelTestParams Test))
      → Labelled ps
      → Labelled (params_loop to width id start idx tests ps)
  unfolding params_loop
  loop-Labelled start idx [] ps h = h
  loop-Labelled start idx ((k, test) ∷ more) ps h =
      loop-Labelled start (suc idx) more _ (insert-Labelled k _ ps refl h)

  pub loop-IsDict :
      (start idx : ℕ) (tests : Dict Text Test) (ps : Dict Text (ParallelTestParams Test))
      → IsDict ps
      → IsDict (params_loop to width id start idx tests ps)
  unfolding params_loop
  loop-IsDict start idx [] ps h = h
  loop-IsDict start idx ((k, test) ∷ more) ps h =
      loop-IsDict start (suc idx) more _ (insert-IsDict k _ ps h)

  inserted_found :
      (j k : Text) (b : Bool) (p : ParallelTestParams Test)
      (ps : Dict Text (ParallelTestParams Test))
      → b || found (lookup k (insert j p ps)) ≡ (if j == k then true else b) || found (lookup k ps)
  inserted_found j k b p ps = ground (arith, lookup-insert j k p ps)

  loop-found :
      (k : Text) (start idx : ℕ) (tests : Dict Text Test) (ps : Dict Text (ParallelTestParams Test))
      → found (lookup k (params_loop to width id start idx tests ps))
        ≡ found (lookup k tests) || found (lookup k ps)
  unfolding params_loop lookup
  loop-found k start idx [] ps = refl
  loop-found k start idx ((j, test) ∷ more) ps =
      loop-found k start (suc idx) more _
      ∙ (inserted_found j k (found (lookup k more)) _ ps ∙ ground arith)

module _ {Test : Type 0} (to : ℕ → ℕ) (runner : TestSuiteRunner Test) (names : List Text)
    (id : Text) where
  abbrev all_params : Dict Text Test → Dict Text (ParallelTestParams Test)
  all_params tests = params_loop to runner.network_width_bits id subnet_start 0 tests []

  -- The parameters that are prepared are those of the tests.
  from_tests :
      (tests : Dict Text Test) (client : Result (Unit {0}))
      (params : Dict Text (ParallelTestParams Test))
      → with_tests to runner id client tests ≡ ok params
      → all_params tests ≡ params
  from_tests tests client params e = connected client (
      sym (
        ap (λ r. propagate Site.build_params r >>= with_params to runner client)
          (build-ok to runner.network_width_bits id tests))
      ∙ e)
    where
      connected :
          (client : Result (Unit {0}))
          → with_params to runner client (all_params tests) ≡ ok params
          → all_params tests ≡ params
      connected (ok c) e = cc
      connected (err x) e = cc

  -- The channel holds each test asked for once, and no other.
  pub prepare-occ :
      (client : Result (Unit {0})) (params : Dict Text (ParallelTestParams Test)) (k : Text)
      → prepare to runner names id client ≡ ok params
      → occ k (chan_names (map (λ e. e.1) params))
        ≡ (if named k (names_to_run runner.test_suite names) then 1 else 0)
  unfolding prepare
  prepare-occ client params k e = elim (choose_tests-exact runner.test_suite names) [
    | inr u ↦ cc (ap (λ r. r >>= with_tests to runner id client) u.returns)
    | inl c ↦
        let given : with_tests to runner id client c.tests ≡ ok params =
          sym (ap (λ r. r >>= with_tests to runner id client) c.returns) ∙ e in
        let once =
          occ-found k (all_params c.tests)
            (loop-Labelled to runner.network_width_bits id subnet_start 0 c.tests [] tt)
            (loop-IsDict to runner.network_width_bits id subnet_start 0 c.tests [] tt) in
        let there = loop-found to runner.network_width_bits id k subnet_start 0 c.tests [] in
        ap (λ ps. occ k (chan_names (map (λ e. e.1) ps)))
          (sym (from_tests c.tests client params given))
        ∙ (once
            ∙ ground (
              arith,
              there,
              lookup_empty {V = ParallelTestParams Test} k,
              c.exact k,
              c.registered k,
            ))
  ]

-- The reports that the workers of a run made, which the output manager was given.
abbrev pub reports_of :
    {Test : Type 0} {to : ℕ → ℕ} {runner : TestSuiteRunner Test} {names : List Text} {id : Text}
    {client : Result (Unit {0})} {parallelism : ℕ} {w t : System} {r : Result Bool}
    → RunTests to runner names id client parallelism w r t
    → List Report
reports_of (refused e) = []
reports_of (ran {s = s} prepared steps finished result) = s.reports

-- What RunTests has done, with the reports of its workers, when it returns a verdict.
pub record Whole {Test : Type 0} (runner : TestSuiteRunner Test) (names : List Text)
    (reports : List Report) (passed : Bool) (w t : System) : Type 0 where
  pub each :
      (k : Text)
      → occ k (report_names reports)
        ≡ (if named k (names_to_run runner.test_suite names) then 1 else 0)
  pub verdict : (passed ≡ true) ↔ All IsPass reports
  pub logger : t.std_logger ≡ w.std_logger

-- With a parallelism of at least one, and a standard logger that is not the interceptor: when
-- RunTests returns a verdict, whatever turns its workers took: the reports that they made are of each
-- test asked for (each test of the suite, if none is) exactly once, and of no other test; the verdict
-- is true exactly when all of these reports are of tests that ran without an error and passed; and
-- the standard logger is restored.
pub RunTests-Whole :
    {Test : Type 0} (to : ℕ → ℕ) (runner : TestSuiteRunner Test) (names : List Text) (id : Text)
    (client : Result (Unit {0})) (parallelism : ℕ) (w t : System) (passed : Bool)
    (run : RunTests to runner names id client parallelism w (ok passed) t)
    → 0 < parallelism
    → w.std_logger.out ≢ interceptor
    → Whole runner names (reports_of run) passed w t
RunTests-Whole to runner names id client parallelism w t passed
      (ran {params = params} {s = s} prepared steps finished result) pos outside =
    let once = prepare-occ to runner names id client params in
    let (all, (b, u, returns, correct, logger)) =
      run_verdict params parallelism s w pos (λ k. ground (arith, once k prepared)) outside steps
        finished in
    let same : (b, u) ≡ (passed, t) = some-inj (sym returns ∙ result) in
    record {
      each = λ k. all k ∙ once k prepared;
      verdict = subst (λ x. (x ≡ true) ↔ All IsPass s.reports) (ap (λ q. q.0) same) correct;
      logger = ap (λ (q : Bool × System). q.1.std_logger) (sym same) ∙ logger;
    }
