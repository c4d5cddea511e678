-- ===== src/Initializer/Parallelizer/Verdict.antt =====
-- Lemmas on RunInParallelAndPrintResults of
-- initializer/parallelism/test_executor_parallelizer.go: what a whole run returns.
use zz_deprecated_kurtosis.Base.{
  ℕ, ◌≤◌, ◌<◌, ◌≡◌, refl, sym, ap, ◌∙◌, ◌≢◌, ◌↔◌, inl, inr, Bool, true, false, some, List, [], ◌∷◌,
  map, arith, Text, Dict, text_eq, ==_iff, ==_refl, All, Option-cases,
}
use zz_deprecated_kurtosis.Initializer.TestParams.{ParallelTestParams}
use zz_deprecated_kurtosis.Initializer.OutputManager.{
  print_or_panic, start_intercepting_std_logger, stop_intercepting_std_logger, interceptor, System,
  print_summary, output_logger, get_all_tests_passed, new_parallel_test_output_manager, print_to,
}
use zz_deprecated_kurtosis.Initializer.OutputLines.{Line}
use zz_deprecated_kurtosis.Initializer.OutputManager.Outcomes.{
  Report, IsPass, DistinctNames, log_all, get_all_tests_passed_iff,
}
use zz_deprecated_kurtosis.Initializer.OutputManager.Interception.{
  then_stop, session, session-Restored,
}
use zz_deprecated_kurtosis.Initializer.Parallelizer.{
  Workers, Steps, launched, run_in_parallel_and_print_results,
}
use zz_deprecated_kurtosis.Initializer.Parallelizer.Pool.{Finished, Finished-reports_all}
use zz_deprecated_kurtosis.Initializer.Parallelizer.Counts.{occ, report_names, chan_names}

-- A name that does not occur differs from all.
occ_zero :
    (k : Text) (rs : List Report)
    → occ k (report_names rs) ≡ 0
    → All (λ (r : Report). k ≢ r.test_name) rs
unfolding occ
occ_zero k [] h = tt
occ_zero k (r ∷ rs) h =
    ((λ e. ground (arith, ==_iff r.test_name k, sym e)), occ_zero k rs (ground arith))

DistinctNames-of :
    (rs : List Report) → ((k : Text) → occ k (report_names rs) ≤ 1) → DistinctNames rs
unfolding occ
DistinctNames-of [] h = tt
DistinctNames-of (r ∷ rs) h = (
  occ_zero r.test_name rs (ground (arith, h r.test_name, ==_refl r.test_name)),
  DistinctNames-of rs (λ k. ground (arith, h k)),
)

start-outputs :
    (s : System) → (start_intercepting_std_logger s).manager.test_outputs ≡ s.manager.test_outputs
unfolding start_intercepting_std_logger
start-outputs s = ground arith

stop-verdict :
    (s : System)
    → get_all_tests_passed (stop_intercepting_std_logger s).manager ≡ get_all_tests_passed s.manager
unfolding stop_intercepting_std_logger get_all_tests_passed
stop-verdict s = ground arith

session-verdict :
    (rs : List Report) (s t : System)
    → s.manager.test_outputs ≡ []
    → session rs s ≡ some t
    → (get_all_tests_passed t.manager ≡ true) ↔ (All IsPass rs × DistinctNames rs)
session-verdict rs s t new e = elim (Option-cases (log_all rs (start_intercepting_std_logger s))) [
  | inl f ↦ cc (ap then_stop f)
  | inr (u, f) ↦
      let stopped : stop_intercepting_std_logger u ≡ t = cc (ap then_stop f) in
      let same : get_all_tests_passed t.manager ≡ get_all_tests_passed u.manager =
        ap (λ (v : System). get_all_tests_passed v.manager) (sym stopped) ∙ stop-verdict u in
      rw same
        (get_all_tests_passed_iff rs (start_intercepting_std_logger s) u (start-outputs s ∙ new) f)
]

print_off :
    (lines : List Line) (s : System)
    → s.manager.is_intercepting_std_logger ≡ false
    → print_or_panic lines s (output_logger s) ≡ some (print_to s.std_logger lines s)
print_off lines s off = rw off

-- The summary of a system whose standard logger is not intercepted keeps the outputs and the logger.
print_summary-off :
    (s : System)
    → s.manager.is_intercepting_std_logger ≡ false
    → (t : System) × (print_summary s ≡ some t)
      × (t.manager ≡ s.manager)
      × (t.std_logger ≡ s.std_logger)
unfolding print_summary
print_summary-off s off = (_, print_off _ s off, refl, refl)

-- What `run_in_parallel_and_print_results` returns for the given reports.
pub record Verdict (reports : List Report) (w : System) : Type 0 where
  pub passed : Bool
  pub after : System
  pub returns : run_in_parallel_and_print_results reports w ≡ some (passed, after)
  pub correct : (passed ≡ true) ↔ (All IsPass reports × DistinctNames reports)
  pub logger : after.std_logger ≡ w.std_logger

run-Verdict : (rs : List Report) (w : System) → w.std_logger.out ≢ interceptor → Verdict rs w
unfolding run_in_parallel_and_print_results new_parallel_test_output_manager
run-Verdict rs w outside =
    let s : System = record w { manager = new_parallel_test_output_manager } in
    let ended = session-Restored rs s (record { flag = refl; outside = outside }) in
    let (t, printed, kept, logger) = print_summary-off ended.after ended.off.flag in
    record {
      passed = get_all_tests_passed t.manager;
      after = t;
      returns = rw (ended.returns, printed) refl;
      correct = rw kept (session-verdict rs s ended.after refl ended.returns);
      logger = logger ∙ ended.logger;
    }

-- With at least one worker and tests of different names, from a standard logger that is not the
-- interceptor: when all workers have finished, in whatever order they took their turns, every test
-- has been reported once, the call returns without a panic, its verdict is true exactly when every
-- report is of a test that ran without an error and passed, and the standard logger is restored.
pub run_verdict :
    {Test : Type 0} (ps : Dict Text (ParallelTestParams Test)) (n : ℕ) (s : Workers Test)
    (w : System)
    → 0 < n
    → ((k : Text) → occ k (chan_names (map (λ e. e.1) ps)) ≤ 1)
    → w.std_logger.out ≢ interceptor
    → Steps (launched ps n) s
    → Finished s
    → ((k : Text) → occ k (report_names s.reports) ≡ occ k (chan_names (map (λ e. e.1) ps)))
      × ((passed : Bool) × (t : System) × (run_in_parallel_and_print_results s.reports w
            ≡ some (passed, t))
          × ((passed ≡ true) ↔ All IsPass s.reports)
          × (t.std_logger ≡ w.std_logger))
run_verdict ps n s w pos once outside r f =
    let all : (k : Text) → occ k (report_names s.reports) ≡ occ k (chan_names (map (λ e. e.1) ps)) =
      λ k. Finished-reports_all ps n s k pos r f in
    let distinct = DistinctNames-of s.reports (λ k. omega (arith, all k, once k)) in
    let v = run-Verdict s.reports w outside in
    (
      all,
      (
        v.passed,
        v.after,
        v.returns,
        ((λ h. (v.correct.0 h).0), (λ h. v.correct.1 (h, distinct))),
        v.logger,
      ),
    )

-- From a standard logger that is not the interceptor, with no worker at all: the workers have finished as soon as they are launched, no test is
-- reported, and the suite counts as passed whatever tests it has.
pub no_workers_pass :
    {Test : Type 0} (ps : Dict Text (ParallelTestParams Test)) (w : System)
    → w.std_logger.out ≢ interceptor
    → Finished (launched ps 0)
      × ((t : System) × (run_in_parallel_and_print_results (launched ps 0).reports w
            ≡ some (true, t)))
unfolding launched
no_workers_pass ps w outside =
    let v = run-Verdict [] w outside in
    (tt, (v.after, v.returns ∙ ap (λ b. some (b, v.after)) (v.correct.1 (tt, tt))))
