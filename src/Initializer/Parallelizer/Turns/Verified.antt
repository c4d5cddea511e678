-- ===== src/Initializer/Parallelizer/Turns/Verified.antt =====
-- Lemmas on initializer/parallelism/test_executor_parallelizer.go: what the verdict of a run says of
-- the tests.
use mathlib.Core.List.{append-nil, Permᴰ}
use zz_deprecated_kurtosis.Base.{
  ℕ, zero, suc, ◌≤◌, ◌<◌, ◌≡◌, ◌≢◌, refl, sym, ap, subst, ◌∙◌, some-inj, List, [], ◌∷◌, ◌++◌, map,
  Bool, true, false, Option, none, some, Text, Dict, Result, ok, err, All, text_eq, replicate,
}
use zz_deprecated_kurtosis.Initializer.TestParams.{ParallelTestParams}
use zz_deprecated_kurtosis.Initializer.OutputManager.{System, interceptor}
use zz_deprecated_kurtosis.Initializer.OutputManager.Outcomes.{IsPass}
use zz_deprecated_kurtosis.Initializer.TestExecutor.{Engine}
use zz_deprecated_kurtosis.Initializer.TestExecutor.RunTest.{Race, run_test}
use zz_deprecated_kurtosis.Initializer.TestExecutor.Passing.{Passes, run_test-Passes}
use zz_deprecated_kurtosis.Initializer.Parallelizer.{
  Attempt, no_temp_file, report_of, Worker, ready, running, done, Workers, Steps, launched,
  run_in_parallel_and_print_results,
}
use zz_deprecated_kurtosis.Initializer.Parallelizer.Executors.{
  TestExecutorParallelizer, test_executor_of,
}
use zz_deprecated_kurtosis.Initializer.Parallelizer.Pool.{Finished, IsDone, Finished-drained}
use zz_deprecated_kurtosis.Initializer.Parallelizer.Counts.{occ, chan_names}
use zz_deprecated_kurtosis.Initializer.Parallelizer.Verdict.{run_verdict}
use zz_deprecated_kurtosis.Initializer.Parallelizer.Turns.{
  LogFiles, Deferred, remove_file, Turn, after_run, with_temp_file, run_turn, result_passed,
  result_err,
}
use zz_deprecated_kurtosis.Initializer.Parallelizer.Turns.Ended.{
  turns, held, open_tests, tests_of, made, Steps-tests, Steps-reports,
}

-- What holds of all elements holds of them in another order.
pub All-Permᴰ : {A : Type 0} (P : A → Type 0) {l m : List A} → Permᴰ l m → All P l → All P m
All-Permᴰ P Permᴰ.nil h = h
All-Permᴰ P (Permᴰ.cons e p) h = (subst P e h.0, All-Permᴰ P p h.1)
All-Permᴰ P (Permᴰ.swap e f) h = (subst P f h.1.0, (subst P e h.0, h.1.1))
All-Permᴰ P (Permᴰ.trans p q) h = All-Permᴰ P q (All-Permᴰ P p h)

module _ {Test : Type 0} where
  idle_held : (ws : List (Worker Test)) → All IsDone ws → held ws ≡ []
  idle_held [] h = refl
  idle_held (done ∷ ws) h = idle_held ws h.1
  idle_held (ready ∷ ws) h = absurd h.0
  idle_held (running p ∷ ws) h = absurd h.0

  pub new_held : (n : ℕ) → held {Test = Test} (replicate n ready) ≡ []
  new_held zero = refl
  new_held (suc n) = new_held n

-- What came of a turn is what `run_turn` makes of it, in some world and with some timing.
pub record IsTurn {W Test : Type 0} (files : LogFiles W) (engine : Engine W)
    (executor : TestExecutorParallelizer) (q : ParallelTestParams Test × Attempt) : Type 0 where
  pub race : Race W
  pub deferred : List Deferred
  pub before : W
  pub turn : Turn W
  pub runs : run_turn files engine executor q.0 race deferred before ≡ some turn
  pub same : turn.attempt ≡ q.1

module _ {W Test : Type 0} (files : LogFiles W) (engine : Engine W)
    (executor : TestExecutorParallelizer) where
  reported :
      (p : ParallelTestParams Test) (turn : Turn W) (deferred : List Deferred) (name : Text)
      (r : Result Bool) (v : W)
      → after_run files name deferred (some (r, v)) ≡ some turn
      → IsPass (report_of p turn.attempt)
      → (result_err r ≡ none) × (result_passed r ≡ true)
  unfolding report_of
  reported p turn deferred name r v e pass =
      let shown = subst (λ (t : Turn W). IsPass (report_of p t.attempt)) (sym (some-inj e)) pass in
      (shown.no_error, shown.success)

  run-Passes :
      (p : ParallelTestParams Test) (race : Race W) (name : Text) (deferred : List Deferred) (w : W)
      (o : Option (Result Bool × W)) (turn : Turn W)
      → run_test engine (test_executor_of executor p) race w ≡ o
      → after_run files name deferred o ≡ some turn
      → IsPass (report_of p turn.attempt)
      → Passes engine (test_executor_of executor p)
  run-Passes p race name deferred w none turn ran_to e pass = cc
  run-Passes p race name deferred w (some (ok true, v)) turn ran_to e pass =
      (run_test-Passes engine (test_executor_of executor p) race w v ran_to).1
  run-Passes p race name deferred w (some (ok false, v)) turn ran_to e pass =
      let shown = reported p turn deferred name (ok false) v e pass in cc shown.1
  run-Passes p race name deferred w (some (err x, v)) turn ran_to e pass =
      let shown = reported p turn deferred name (err x) v e pass in cc shown.0

  turn-Passes :
      (p : ParallelTestParams Test) (race : Race W) (deferred : List Deferred)
      (temp : Result Text × W) (turn : Turn W)
      → with_temp_file files engine executor p race deferred temp ≡ some turn
      → IsPass (report_of p turn.attempt)
      → Passes engine (test_executor_of executor p)
  unfolding report_of
  turn-Passes p race deferred (err x, w) turn e pass =
      let shown : IsPass (report_of p (no_temp_file x)) =
        subst (λ (t : Turn W). IsPass (report_of p t.attempt)) (sym (some-inj e)) pass in
      cc shown.no_error
  turn-Passes p race deferred (ok name, w) turn e pass =
      run-Passes p race name (remove_file name ∷ deferred) w _ turn refl e pass

  -- A turn whose report passes is of a test that passes.
  IsTurn-Passes :
      (q : ParallelTestParams Test × Attempt)
      → IsTurn files engine executor q
      → IsPass (made q)
      → Passes engine (test_executor_of executor q.0)
  unfolding run_turn
  IsTurn-Passes (p, attempt) t pass =
      turn-Passes p t.race t.deferred _ t.turn t.runs
        (subst (λ a. IsPass (report_of p a)) (sym t.same) pass)

  all_turns-Pass :
      (qs : List (ParallelTestParams Test × Attempt))
      → All (IsTurn files engine executor) qs
      → All IsPass (map made qs)
      → All (λ p. Passes engine (test_executor_of executor p)) (tests_of qs)
  all_turns-Pass [] t h = tt
  all_turns-Pass (q ∷ qs) t h = (IsTurn-Passes q t.0 h.0, all_turns-Pass qs t.1 h.1)

-- With at least one worker and tests of different names, from a standard logger that is not the
-- interceptor, when all workers have finished, in whatever order they took their turns: if every
-- attempt is what a turn of the worker's loop makes of its test, with any timing and in any state of
-- the world, and RunInParallelAndPrintResults returns true, then for each of the tests a network with
-- a gateway address was created and a controller container was started in it, at an address that is
-- not the gateway's, and exited with code 0.
pub true_verdict-Passes :
    {W Test : Type 0} (files : LogFiles W) (engine : Engine W) (executor : TestExecutorParallelizer)
    (ps : Dict Text (ParallelTestParams Test)) (s : Workers Test) (w t : System)
    (run : Steps (launched ps executor.parallelism) s)
    → 0 < executor.parallelism
    → ((k : Text) → occ k (chan_names (map (λ e. e.1) ps)) ≤ 1)
    → w.std_logger.out ≢ interceptor
    → Finished s
    → All (IsTurn files engine executor) (turns run)
    → run_in_parallel_and_print_results s.reports w ≡ some (true, t)
    → All (λ p. Passes engine (test_executor_of executor p)) (map (λ e. e.1) ps)
unfolding launched
true_verdict-Passes files engine executor ps s w t run pos once outside f real verdict =
    let (_, (passed, u, returns, correct, _)) =
      run_verdict ps executor.parallelism s w pos once outside run f in
    let passes : All IsPass s.reports =
      correct.0 (ap (λ q. q.0) (some-inj (sym returns ∙ verdict))) in
    let ended : All (λ p. Passes engine (test_executor_of executor p)) (tests_of (turns run)) =
      all_turns-Pass files engine executor (turns run) real
        (subst (All IsPass) (Steps-reports run) passes) in
    let closed : open_tests s ≡ [] =
      ap (λ l. held s.workers ++ l) (Finished-drained ps executor.parallelism s pos run f)
      ∙ (append-nil (held s.workers) ∙ idle_held s.workers f) in
    let before : open_tests (launched ps executor.parallelism) ≡ map (λ e. e.1) ps =
      ap (λ l. l ++ map (λ e. e.1) ps) (new_held executor.parallelism) in
    let order : Permᴰ (tests_of (turns run)) (map (λ e. e.1) ps) =
      subst (Permᴰ (tests_of (turns run))) before (
        subst (λ l. Permᴰ l (open_tests (launched ps executor.parallelism)))
          (ap (λ l. tests_of (turns run) ++ l) closed ∙ append-nil (tests_of (turns run)))
          (Steps-tests run)) in
    All-Permᴰ (λ p. Passes engine (test_executor_of executor p)) order ended
