-- ===== src/Initializer/Parallelizer/Turns/Leftovers.antt =====
-- Lemmas on runTestWorkerGoroutine of initializer/parallelism/test_executor_parallelizer.go: what a
-- worker leaves in the file system.
use zz_deprecated_kurtosis.Base.{
  ◌≡◌, refl, sym, ap, ◌∙◌, List, [], ◌∷◌, Bool, false, Option, none, some, Text, Result, ok, err,
  All, Option-cases, ok-inj, ok-ne-err, subst, length, suc, ◌⊎◌, inl, inr, some-inj,
}
use zz_deprecated_kurtosis.Initializer.TestParams.{ParallelTestParams}
use zz_deprecated_kurtosis.Initializer.TestExecutor.{Engine}
use zz_deprecated_kurtosis.Initializer.TestExecutor.RunTest.{Race, run_test}
use zz_deprecated_kurtosis.Initializer.Parallelizer.{LogFile, opened, unreadable, Attempt}
use zz_deprecated_kurtosis.Initializer.Parallelizer.Executors.{
  TestExecutorParallelizer, test_executor_of,
}
use zz_deprecated_kurtosis.Initializer.Parallelizer.Turns.{
  LogFiles, Deferred, remove_file, close_file, Turn, after_run, run_deferred, with_temp_file,
  run_turn, temp_filename, defer_close, add_attempt, then_turns, worker_loop,
  run_test_worker_goroutine,
}

-- What the worker relies on of the file system, by a test of whether a file is there: Remove removes
-- its file, and neither Remove nor Close makes one.
pub record FileSystem {W : Type 0} (files : LogFiles W) (exists : Text → W → Bool) : Type 0 where
  pub removed : (name : Text) (w : W) → exists name (files.remove name w) ≡ false
  pub remove_keeps :
      (name other : Text) (w : W)
      → exists name w ≡ false
      → exists name (files.remove other w) ≡ false
  pub close_keeps :
      (name other : Text) (w : W)
      → exists name w ≡ false
      → exists name (files.close_reading other w) ≡ false

-- The removal of a file is among what is deferred.
abbrev Removes : Text → List Deferred → Type 0
Removes name [] = ⊥
Removes name (remove_file other ∷ more) = (other ≡ name) ⊎ Removes name more
Removes name (close_file other ∷ more) = Removes name more

module _ {W : Type 0} (files : LogFiles W) (exists : Text → W → Bool)
    (system : FileSystem files exists) where
  run_deferred-keeps :
      (name : Text) (deferred : List Deferred) (w : W)
      → exists name w ≡ false
      → exists name (run_deferred files deferred w) ≡ false
  run_deferred-keeps name [] w h = h
  run_deferred-keeps name (remove_file other ∷ more) w h =
      run_deferred-keeps name more _ (system.remove_keeps name other w h)
  run_deferred-keeps name (close_file other ∷ more) w h =
      run_deferred-keeps name more _ (system.close_keeps name other w h)

  run_deferred-Removes :
      (name : Text) (deferred : List Deferred) (w : W)
      → Removes name deferred
      → exists name (run_deferred files deferred w) ≡ false
  run_deferred-Removes name [] w h = absurd h
  run_deferred-Removes name (remove_file other ∷ more) w (inl e) =
      run_deferred-keeps name more _
        (subst (λ n. exists name (files.remove n w) ≡ false) (sym e) (system.removed name w))
  run_deferred-Removes name (remove_file other ∷ more) w (inr later) =
      run_deferred-Removes name more _ later
  run_deferred-Removes name (close_file other ∷ more) w h = run_deferred-Removes name more _ h

add_attempt-eq-some :
    {W : Type 0} (o : Option (List Attempt × W)) (attempt : Attempt) (attempts : List Attempt)
    (v : W)
    → add_attempt attempt o ≡ some (attempts, v)
    → (rest : List Attempt) × (o ≡ some (rest, v)) × (attempt ∷ rest ≡ attempts)
add_attempt-eq-some none attempt attempts v e = cc
add_attempt-eq-some (some (rest, u)) attempt attempts v e = (rest, cc, cc)

module _ {W : Type 0} (files : LogFiles W) where
  after_run-Removes :
      (name file : Text) (deferred : List Deferred) (o : Option (Result Bool × W)) (turn : Turn W)
      → after_run files file deferred o ≡ some turn
      → Removes name deferred
      → Removes name turn.deferred
  after_run-Removes name file deferred none turn e h = cc
  after_run-Removes name file deferred (some (r, w)) turn e h =
      subst (Removes name) (ap (λ (t : Turn W). t.deferred) (some-inj e))
        (by_file (files.open_file file (files.close_writing file w)).0)
    where
      by_file : (log_file : LogFile) → Removes name (defer_close file log_file deferred)
      by_file (opened logs) = h
      by_file (unreadable message) = h

  module _ {Test : Type 0} (engine : Engine W) (executor : TestExecutorParallelizer) where
    -- A turn drops nothing that is deferred, and adds the removal of its own file.
    temp_file-Removes :
        (name : Text) (p : ParallelTestParams Test) (race : Race W) (deferred : List Deferred)
        (r : Result Text × W) (turn : Turn W)
        → with_temp_file files engine executor p race deferred r ≡ some turn
        → (r.0 ≡ ok name) ⊎ Removes name deferred
        → Removes name turn.deferred
    temp_file-Removes name p race deferred (err x, w) turn e (inl made) =
        absurd (ok-ne-err (sym made))
    temp_file-Removes name p race deferred (err x, w) turn e (inr old) =
        subst (Removes name) (ap (λ (t : Turn W). t.deferred) (some-inj e)) old
    temp_file-Removes name p race deferred (ok file, w) turn e h =
        after_run-Removes name file (remove_file file ∷ deferred) _ turn e
          (elim h [ inl same ↦ inl (ok-inj same) | inr old ↦ inr old ])

    -- One of the worker's turns creates a temporary file of this name for the log of its test.
    -- The file that runTest creates for the logs of the controller does not count.
    abbrev pub Creates : List (ParallelTestParams Test × Race W) → List Deferred → W → Text → Type 0
    Creates [] deferred w name = ⊥
    Creates ((p, race) ∷ more) deferred w name =
        ((files.temp_file (temp_filename files engine executor p) w).0 ≡ ok name)
        ⊎ ((turn : Turn W) × (run_turn files engine executor p race deferred w ≡ some turn)
            × Creates more turn.deferred turn.world name)

    -- What a turn leaves to be done about a file.
    pending :
        (p : ParallelTestParams Test) (race : Race W)
        (more : List (ParallelTestParams Test × Race W)) (deferred : List Deferred) (w : W)
        (name : Text) (turn : Turn W)
        → run_turn files engine executor p race deferred w ≡ some turn
        → Creates ((p, race) ∷ more) deferred w name ⊎ Removes name deferred
        → Creates more turn.deferred turn.world name ⊎ Removes name turn.deferred
    unfolding run_turn
    pending p race more deferred w name turn f (inl (inl made)) =
        inr (temp_file-Removes name p race deferred _ turn f (inl made))
    pending p race more deferred w name turn f (inl (inr (t, g, later))) =
        inl (
          subst (λ (u : Turn W). Creates more u.deferred u.world name) (some-inj (sym g ∙ f)) later)
    pending p race more deferred w name turn f (inr old) =
        inr (temp_file-Removes name p race deferred _ turn f (inr old))

    -- runTest returns for a test, in any world.
    abbrev pub Runs : ParallelTestParams Test × Race W → Type 0
    Runs (p, race) =
        (u : W)
        → (result : Result Bool × W) × (run_test engine (test_executor_of executor p) race u
            ≡ some result)

    pub turn-returns :
        (p : ParallelTestParams Test) (race : Race W) (deferred : List Deferred)
        (made : Result Text × W)
        → Runs (p, race)
        → (turn : Turn W) × (with_temp_file files engine executor p race deferred made ≡ some turn)
    turn-returns p race deferred (err e, w) runs = (_, refl)
    turn-returns p race deferred (ok name, w) runs =
        let (result, e) = runs w in (_, ap (after_run files name (remove_file name ∷ deferred)) e)

    loop-returns :
        (tests : List (ParallelTestParams Test × Race W)) (deferred : List Deferred) (w : W)
        → All Runs tests
        → (attempts : List Attempt) × (v : W) × (worker_loop files engine executor tests deferred w
            ≡ some (attempts, v))
    unfolding worker_loop run_turn
    loop-returns [] deferred w h = (_, _, refl)
    loop-returns ((p, race) ∷ more) deferred w h =
        let (turn, e) =
          turn-returns p race deferred (files.temp_file (temp_filename files engine executor p) w)
            h.0 in
        let (attempts, v, later) = loop-returns more turn.deferred turn.world h.1 in
        (
          turn.attempt ∷ attempts,
          v,
          ap (then_turns (worker_loop files engine executor more)) e
              ∙ ap (add_attempt turn.attempt) later,
        )

    -- A worker that returns has returned from its first turn.
    record FirstTurn (p : ParallelTestParams Test) (race : Race W)
        (more : List (ParallelTestParams Test × Race W)) (deferred : List Deferred) (w v : W)
        (attempts : List Attempt) : Type 0 where
      turn : Turn W
      rest : List Attempt
      first : run_turn files engine executor p race deferred w ≡ some turn
      later : worker_loop files engine executor more turn.deferred turn.world ≡ some (rest, v)
      all : turn.attempt ∷ rest ≡ attempts

    first_turn :
        (p : ParallelTestParams Test) (race : Race W)
        (more : List (ParallelTestParams Test × Race W)) (deferred : List Deferred) (w v : W)
        (attempts : List Attempt)
        → worker_loop files engine executor ((p, race) ∷ more) deferred w ≡ some (attempts, v)
        → FirstTurn p race more deferred w v attempts
    unfolding worker_loop
    first_turn p race more deferred w v attempts e =
        elim (Option-cases (run_turn files engine executor p race deferred w)) [
          | inl f ↦ cc
          | inr (turn, f) ↦
              let (rest, later, all) =
                add_attempt-eq-some _ turn.attempt attempts v
                  (sym (ap (then_turns (worker_loop files engine executor more)) f) ∙ e) in
              record { turn = turn; rest = rest; first = f; later = later; all = all }
        ]

    -- One attempt for each test, whether or not it could be run.
    loop-length :
        (tests : List (ParallelTestParams Test × Race W)) (deferred : List Deferred) (w v : W)
        (attempts : List Attempt)
        → worker_loop files engine executor tests deferred w ≡ some (attempts, v)
        → length attempts ≡ length tests
    unfolding worker_loop
    loop-length [] deferred w v attempts e =
        sym (ap (λ (q : List Attempt × W). length q.0) (some-inj e))
    loop-length ((p, race) ∷ more) deferred w v attempts e =
        let f = first_turn p race more deferred w v attempts e in
        let tail = loop-length more f.turn.deferred f.turn.world v f.rest f.later in
        sym (ap length f.all) ∙ ap suc tail

    module _ (exists : Text → W → Bool) (system : FileSystem files exists) where
      loop-Clean :
          (tests : List (ParallelTestParams Test × Race W)) (deferred : List Deferred) (w v : W)
          (attempts : List Attempt) (name : Text)
          → worker_loop files engine executor tests deferred w ≡ some (attempts, v)
          → Creates tests deferred w name ⊎ Removes name deferred
          → exists name v ≡ false
      unfolding worker_loop
      loop-Clean [] deferred w v attempts name e (inl none_made) = absurd none_made
      loop-Clean [] deferred w v attempts name e (inr old) =
          subst (λ u. exists name u ≡ false) (ap (λ q. q.1) (some-inj e))
            (run_deferred-Removes files exists system name deferred w old)
      loop-Clean ((p, race) ∷ more) deferred w v attempts name e h =
          let f = first_turn p race more deferred w v attempts e in
          loop-Clean more f.turn.deferred f.turn.world v f.rest name f.later
            (pending p race more deferred w name f.turn f.first h)

-- What a worker that has returned leaves.
pub record Clean {W Test : Type 0} (files : LogFiles W) (exists : Text → W → Bool)
    (engine : Engine W) (executor : TestExecutorParallelizer)
    (tests : List (ParallelTestParams Test × Race W)) (w : W) : Type 0 where
  pub attempts : List Attempt
  pub after : W
  pub returns : run_test_worker_goroutine files engine executor tests w ≡ some (attempts, after)
  pub one_each : length attempts ≡ length tests
  pub removed :
      (name : Text) → Creates files engine executor tests [] w name → exists name after ≡ false

-- What is left once runTest returns for each test.
pub loop-leaves :
    {W : Type 0} (files : LogFiles W) (exists : Text → W → Bool) {Test : Type 0} (engine : Engine W)
    (executor : TestExecutorParallelizer) (tests : List (ParallelTestParams Test × Race W)) (w : W)
    → FileSystem files exists
    → All (Runs files engine executor) tests
    → Clean files exists engine executor tests w
unfolding run_test_worker_goroutine
loop-leaves files exists engine executor tests w system runs =
    let (attempts, v, e) = loop-returns files engine executor tests [] w runs in
    record {
      attempts = attempts;
      after = v;
      returns = e;
      one_each = loop-length files engine executor tests [] w v attempts e;
      removed = λ name made.
          loop-Clean files engine executor exists system tests [] w v attempts name e (inl made);
    }
