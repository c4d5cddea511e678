-- ===== src/Initializer/Parallelizer/Counts.antt =====
-- Lemmas on the workers of initializer/parallelism/test_executor_parallelizer.go: how often the
-- channel, the workers and the reports have a test.
use mathlib.Core.List.{map-append}
use zz_deprecated_kurtosis.Base.{
  ℕ, suc, ◌+◌, ◌≡◌, refl, ap, ◌∙◌, List, [], ◌∷◌, ◌++◌, map, arith, Text, text_eq, ◌==◌,
  if◌then◌else◌,
}
use zz_deprecated_kurtosis.Initializer.TestParams.{ParallelTestParams}
use zz_deprecated_kurtosis.Initializer.OutputManager.Outcomes.{Report}
use zz_deprecated_kurtosis.Initializer.Parallelizer.{
  Attempt, ran, no_temp_file, report_of, Worker, ready, running, done, Workers, Step, take_test,
  report, leave, Steps, here, next,
}

-- How often a name occurs.
unfoldable pub occ : Text → List Text → ℕ
occ k [] = 0
occ k (x ∷ xs) = if x == k then suc (occ k xs) else occ k xs

occ-append : (k : Text) (xs ys : List Text) → occ k (xs ++ ys) ≡ occ k xs + occ k ys
unfolding occ
occ-append k [] ys = omega arith
occ-append k (x ∷ xs) ys = ground (arith, occ-append k xs ys)

module _ {Test : Type 0} where
  abbrev pub chan_names : List (ParallelTestParams Test) → List Text
  chan_names ps = map (λ (p : ParallelTestParams Test). p.test_name) ps

  -- The tests that workers hold.
  abbrev pub busy : List (Worker Test) → List Text
  busy [] = []
  busy (ready ∷ ws) = busy ws
  busy (done ∷ ws) = busy ws
  busy (running p ∷ ws) = p.test_name ∷ busy ws

  busy-append : (vs ws : List (Worker Test)) → busy (vs ++ ws) ≡ busy vs ++ busy ws
  busy-append [] ws = refl
  busy-append (ready ∷ vs) ws = busy-append vs ws
  busy-append (done ∷ vs) ws = busy-append vs ws
  busy-append (running p ∷ vs) ws = ap (λ l. p.test_name ∷ l) (busy-append vs ws)

abbrev pub report_names : List Report → List Text
report_names rs = map (λ (r : Report). r.test_name) rs

module _ {Test : Type 0} (k : Text) where
  abbrev pub total : Workers Test → ℕ
  total s =
      occ k (report_names s.reports)
      + occ k (busy s.workers)
      + occ k (chan_names s.test_params_chan)

  report_name :
      (p : ParallelTestParams Test) (a : Attempt) → (report_of p a).test_name ≡ p.test_name
  unfolding report_of
  report_name p (no_temp_file e) = refl
  report_name p (ran b e f) = refl

  -- A worker's place among the others.
  busy_at :
      (before after : List (Worker Test)) (w : Worker Test)
      → occ k (busy (before ++ w ∷ after)) ≡ occ k (busy before) + occ k (busy (w ∷ after))
  busy_at before after w =
      ap (occ k) (busy-append before (w ∷ after)) ∙ occ-append k (busy before) (busy (w ∷ after))

  Step-total : {s t : Workers Test} → Step s t → total t ≡ total s
  unfolding occ
  Step-total (take_test before after p rest c w e) =
      rw (e, c, w, busy_at before after ready, busy_at before after (running p)) (ground arith)
  Step-total {s} (report before after p attempt w e) =
      rw
        (
          e,
          w,
          map-append (λ (r : Report). r.test_name) s.reports (report_of p attempt ∷ []),
          report_name p attempt,
          occ-append k (report_names s.reports) (p.test_name ∷ []),
          busy_at before after ready,
          busy_at before after (running p),
        )
        (ground arith)
  Step-total (leave before after c w e) =
      rw (e, w, busy_at before after ready, busy_at before after done)

  pub Steps-total : {s t : Workers Test} → Steps s t → total t ≡ total s
  Steps-total here = refl
  Steps-total (next r st) = Step-total st ∙ Steps-total r
