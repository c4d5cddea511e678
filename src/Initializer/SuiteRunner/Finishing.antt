-- ===== src/Initializer/SuiteRunner/Finishing.antt =====
-- Lemmas on the workers of initializer/parallelism/test_executor_parallelizer.go, on the tests of
-- initializer/test_suite_runner.go: that they finish.
use mathlib.Core.List.Permᴰ
use zz_deprecated_kurtosis.Base.{
  ℕ, zero, suc, ◌+◌, ◌*◌, ◌^◌, ◌<◌, ◌≤◌, ◌≡◌, refl, sym, ap, subst, ◌∙◌, ◌⊎◌, inl, inr, List, [],
  ◌∷◌, ◌++◌, map, some, Text, Dict, lookup, IsDict, length, ==_iff, text_eq, All, All-append, arith,
  ok, ok-inj, parse_error,
}
use zz_deprecated_kurtosis.Net.Defs.{u32_mod}
use zz_deprecated_kurtosis.Initializer.TestParams.{ParallelTestParams, build_test_params}
use zz_deprecated_kurtosis.Initializer.TestParams.Subnets.{Converts, subnet_start, build-ok}
use zz_deprecated_kurtosis.Initializer.TestParams.Isolation.{subnet-Allocates}
use zz_deprecated_kurtosis.Initializer.TestExecutor.{Engine}
use zz_deprecated_kurtosis.Initializer.TestExecutor.RunTest.{Race}
use zz_deprecated_kurtosis.Initializer.TestExecutor.Returns.{Roomy}
use zz_deprecated_kurtosis.Initializer.Parallelizer.{
  Attempt, no_temp_file, Worker, ready, running, done, Workers, Step, take_test, report, leave,
  Steps, here, next, launched,
}
use zz_deprecated_kurtosis.Initializer.Parallelizer.Pool.{IsDone, Finished, measure, measure-Step}
use zz_deprecated_kurtosis.Initializer.Parallelizer.Progress.{first-Active}
use zz_deprecated_kurtosis.Initializer.Parallelizer.Executors.{TestExecutorParallelizer}
use zz_deprecated_kurtosis.Initializer.Parallelizer.Turns.{LogFiles, run_turn, temp_filename}
use zz_deprecated_kurtosis.Initializer.Parallelizer.Turns.Leftovers.{turn-returns}
use zz_deprecated_kurtosis.Initializer.Parallelizer.Turns.CleanUp.{Roomy-Runs}
use zz_deprecated_kurtosis.Initializer.Parallelizer.Turns.Ended.{
  ended, turns, open_tests, tests_of, Step-tests, Steps-tests,
}
use zz_deprecated_kurtosis.Initializer.Parallelizer.Turns.Verified.{IsTurn, All-Permᴰ, new_held}
use zz_deprecated_kurtosis.Initializer.SuiteRunner.Whole.{loop-IsDict}

-- What holds of all that lookups find holds of all values of a map.
All-values :
    {V : Type 0} (P : V → Type 0) (m : Dict Text V)
    → IsDict m
    → ((k : Text) (v : V) → lookup k m ≡ some v → P v)
    → All P (map (λ e. e.1) m)
unfolding lookup
All-values P [] d h = tt
All-values P ((i, v) ∷ m) d h = (
  h i v (ground (arith, ==_iff i i)),
  All-values P m d.1 (λ k u e. h k u (ground (arith, ==_iff i k))),
)

All-right : {A : Type 0} (P : A → Type 0) (xs ys : List A) → All P (xs ++ ys) → All P ys
All-right P [] ys h = h
All-right P (x ∷ xs) ys h = All-right P xs ys h.1

module _ {W Test : Type 0} (files : LogFiles W) (engine : Engine W)
    (executor : TestExecutorParallelizer) (meets : ParallelTestParams Test → Race W × W) where
  -- What came of a test is what a turn of the worker's loop makes of it, in the world and with the
  -- timing that the test meets.
  abbrev pub Met : ParallelTestParams Test × Attempt → Type 0
  Met q =
      (t : IsTurn files engine executor q) × (t.race ≡ (meets q.0).0) × (t.before ≡ (meets q.0).1)

  abbrev AllRoomy : List (ParallelTestParams Test) → Type 0
  AllRoomy ps = All (λ p. Roomy p.subnet_mask) ps

  -- The turn of a test returns.
  real_turn : (p : ParallelTestParams Test) → Roomy p.subnet_mask → (a : Attempt) × Met (p, a)
  unfolding run_turn
  real_turn p room =
      let (race, w) = meets p in
      let (turn, e) =
        turn-returns files engine executor p race []
          (files.temp_file (temp_filename files engine executor p) w)
          (Roomy-Runs files engine executor p race room) in
      (
        turn.attempt,
        (
          record { race = race; deferred = []; before = w; turn = turn; runs = e; same = refl },
          refl,
          refl,
        ),
      )

  Step-AllRoomy :
      {s t : Workers Test} → Step s t → AllRoomy (open_tests s) → AllRoomy (open_tests t)
  Step-AllRoomy {s} {t} st h =
      All-right (λ p. Roomy p.subnet_mask) (tests_of (ended st)) (open_tests t)
        (All-Permᴰ (λ p. Roomy p.subnet_mask) (Permᴰ.symm (Step-tests st)) h)

  -- A worker that has not left can move, by the end of a real turn if it has a test.
  move :
      (s : Workers Test) (before after : List (Worker Test)) (w : Worker Test)
      (chan : List (ParallelTestParams Test))
      → s.workers ≡ before ++ w ∷ after
      → s.test_params_chan ≡ chan
      → AllRoomy (open_tests s)
      → ¬ IsDone w
      → (t : Workers Test) × (st : Step s t) × All Met (ended st)
  move s before after ready [] e c h active = (_, leave before after c e refl, tt)
  move s before after ready (p ∷ rest) e c h active =
      (_, take_test before after p rest c e refl, tt)
  move s before after (running p) chan e c h active =
      let tests = Step-tests {s = s} (report before after p (no_temp_file parse_error) e refl) in
      let room = (All-Permᴰ (λ q. Roomy q.subnet_mask) (Permᴰ.symm tests) h).0 in
      let (a, met) = real_turn p room in (_, report before after p a e refl, (met, tt))
  move s before after done chan e c h active = absurd (active tt)

  step :
      (s : Workers Test)
      → AllRoomy (open_tests s)
      → Finished s ⊎ ((t : Workers Test) × (st : Step s t) × All Met (ended st))
  step s h = elim (first-Active s.workers) [
    | inl f ↦ inl f
    | inr a ↦ inr (move s a.before a.after a.worker s.test_params_chan a.place refl h a.active)
  ]

  finish :
      (n : ℕ) (r s : Workers Test) (run : Steps r s)
      → measure s ≤ n
      → AllRoomy (open_tests s)
      → All Met (turns run)
      → (t : Workers Test) × (all : Steps r t) × Finished t × All Met (turns all)
  finish zero r s run h room met = elim (step s room) [
    | inl f ↦ (s, run, f, met)
    | inr (t, st, end) ↦ absurd (omega (arith, measure-Step st))
  ]
  finish (suc n) r s run h room met = elim (step s room) [
    | inl f ↦ (s, run, f, met)
    | inr (t, st, end) ↦
        finish n r t (next run st) (omega (arith, measure-Step st)) (Step-AllRoomy st room)
          (All-append Met (turns run) (ended st) met end)
  ]

-- For tests that buildTestParams made, with subnets of `2 ^ w` addresses each that fit below
-- 255.255.255.255, and whatever Docker and the file system answer: from every state that the workers
-- have reached they can go on until all of them have finished, where what comes of each test that
-- has no report yet is what a turn of the worker's loop makes of it, in any world and with any timing
-- that the test may meet: with a result in time, with one after the cancellation, or with none.
pub workers_can_finish :
    {W Test : Type 0} (files : LogFiles W) (engine : Engine W) (executor : TestExecutorParallelizer)
    (meets : ParallelTestParams Test → Race W × W) (to : ℕ → ℕ) (w : ℕ) (id : Text)
    (suite : Dict Text Test) (params : Dict Text (ParallelTestParams Test)) (s : Workers Test)
    → Converts to
    → 0 < w
    → w < 32
    → IsDict suite
    → subnet_start + length suite * 2 ^ w < u32_mod
    → build_test_params to w id suite ≡ ok params
    → Steps (launched params executor.parallelism) s
    → (t : Workers Test) × (later : Steps s t) × Finished t
      × All (Met files engine executor meets) (turns later)
unfolding launched
workers_can_finish files engine executor meets to w id suite params s c h v d r e run =
    let dict : IsDict params =
      subst IsDict (ok-inj (sym (build-ok to w id suite) ∙ e))
        (loop-IsDict to w id subnet_start 0 suite [] tt) in
    let all : All (λ p. Roomy p.subnet_mask) (map (λ q. q.1) params) =
      All-values (λ p. Roomy p.subnet_mask) params dict
        (λ name p found t made.
          subnet-Allocates to w id suite params c h v d r e name p found [] t made) in
    let start : map (λ q. q.1) params ≡ open_tests (launched params executor.parallelism) =
      ap (λ l. l ++ map (λ q. q.1) params) (sym (new_held executor.parallelism)) in
    let room : All (λ p. Roomy p.subnet_mask) (open_tests s) =
      All-right (λ p. Roomy p.subnet_mask) (tests_of (turns run)) (open_tests s)
        (All-Permᴰ (λ p. Roomy p.subnet_mask) (Permᴰ.symm (Steps-tests run))
          (subst (All (λ p. Roomy p.subnet_mask)) start all)) in
    finish files engine executor meets (measure s) s s here (omega arith) room tt
