-- ===== src/Initializer/Parallelizer/Pool.antt =====
-- Lemmas on the workers of initializer/parallelism/test_executor_parallelizer.go: what their steps
-- keep, and what they report.
use zz_deprecated_kurtosis.Base.{
  ℕ, zero, suc, ◌+◌, ◌*◌, ◌<◌, ◌≡◌, refl, sym, ap, ◌∙◌, List, [], ◌∷◌, ◌++◌, map, arith, Text, Dict,
  text_eq, length, All, replicate,
}
use zz_deprecated_kurtosis.Initializer.TestParams.{ParallelTestParams}
use zz_deprecated_kurtosis.Initializer.Parallelizer.{
  Worker, ready, running, done, Workers, Step, take_test, report, leave, Steps, here, next,
  launched,
}
use zz_deprecated_kurtosis.Initializer.Parallelizer.Counts.{
  occ, chan_names, report_names, busy, total, Steps-total,
}

module _ {Test : Type 0} where
  abbrev weigh : (Worker Test → ℕ) → List (Worker Test) → ℕ
  weigh f [] = 0
  weigh f (w ∷ ws) = f w + weigh f ws

  weigh-append :
      (f : Worker Test → ℕ) (vs ws : List (Worker Test))
      → weigh f (vs ++ ws) ≡ weigh f vs + weigh f ws
  weigh-append f [] ws = omega arith
  weigh-append f (v ∷ vs) ws = omega (arith, weigh-append f vs ws)

  abbrev one : Worker Test → ℕ
  one w = 1

  abbrev gone : Worker Test → ℕ
  gone ready = 0
  gone (running p) = 0
  gone done = 1

  -- How many moves a worker has left before it is at the head of its loop for the last time.
  abbrev effort : Worker Test → ℕ
  effort ready = 1
  effort (running p) = 2
  effort done = 0

  -- The moves left in all.
  abbrev pub measure : Workers Test → ℕ
  measure s = 2 * length s.test_params_chan + weigh effort s.workers

  -- No worker leaves before the channel is empty, and none is lost.
  record Inv (n : ℕ) (s : Workers Test) : Type 0 where
    closed : 0 < weigh gone s.workers → length s.test_params_chan ≡ 0
    crew : weigh one s.workers ≡ n

  -- Both sums change only at the worker that moves.
  record Moved (s t : Workers Test) (from to : Worker Test) : Type 0 where
    gone_moved : weigh gone t.workers + gone from ≡ weigh gone s.workers + gone to
    one_kept : weigh one t.workers ≡ weigh one s.workers

  moved :
      (s t : Workers Test) (before after : List (Worker Test)) (from to : Worker Test)
      → s.workers ≡ before ++ from ∷ after
      → t.workers ≡ before ++ to ∷ after
      → Moved s t from to
  moved s t before after from to e f = record {
    gone_moved =
        rw (e, f, weigh-append gone before (from ∷ after), weigh-append gone before (to ∷ after))
          (omega arith);
    one_kept =
        rw (e, f, weigh-append one before (from ∷ after), weigh-append one before (to ∷ after))
          (omega arith);
  }

  workers_of : {s t : Workers Test} → s ≡ t → s.workers ≡ t.workers
  workers_of e = ap (λ (u : Workers Test). u.workers) e

  chan_of : {s t : Workers Test} → s ≡ t → s.test_params_chan ≡ t.test_params_chan
  chan_of e = ap (λ (u : Workers Test). u.test_params_chan) e

  Step-Inv : {n : ℕ} {s t : Workers Test} → Step s t → Inv n s → Inv n t
  Step-Inv {n} {s} {t} (take_test before after p rest c w e) v =
      let m = moved s t before after ready (running p) w (workers_of e) in
      let full : length s.test_params_chan ≡ length rest + 1 = rw c (omega arith) in
      let closed = v.closed in
      record {
        closed = λ h. absurd (omega (arith, m.gone_moved));
        crew = omega (arith, m.one_kept, v.crew);
      }
  Step-Inv {n} {s} {t} (report before after p attempt w e) v =
      let m = moved s t before after (running p) ready w (workers_of e) in
      let same : length t.test_params_chan ≡ length s.test_params_chan = ap length (chan_of e) in
      record {
        closed = λ h. omega (arith, same, m.gone_moved, v.closed);
        crew = omega (arith, m.one_kept, v.crew);
      }
  Step-Inv {n} {s} {t} (leave before after c w e) v =
      let m = moved s t before after ready done w (workers_of e) in
      let empty : length t.test_params_chan ≡ 0 = ap length (chan_of e ∙ c) in
      record { closed = λ h. empty; crew = omega (arith, m.one_kept, v.crew) }

  Steps-Inv : {n : ℕ} {s t : Workers Test} → Steps s t → Inv n s → Inv n t
  Steps-Inv here v = v
  Steps-Inv (next r st) v = Step-Inv st (Steps-Inv r v)

  pub measure-Step : {s t : Workers Test} → Step s t → measure t < measure s
  measure-Step (take_test before after p rest c w e) =
      rw
        (
          e,
          c,
          w,
          weigh-append effort before (ready ∷ after),
          weigh-append effort before (running p ∷ after),
        )
        (omega arith)
  measure-Step (report before after p attempt w e) =
      rw
        (
          e,
          w,
          weigh-append effort before (ready ∷ after),
          weigh-append effort before (running p ∷ after),
        )
        (omega arith)
  measure-Step (leave before after c w e) =
      rw
        (
          e,
          w,
          weigh-append effort before (ready ∷ after),
          weigh-append effort before (done ∷ after),
        )
        (omega arith)

  abbrev pub IsDone : Worker Test → Type 0
  IsDone ready = ⊥
  IsDone (running p) = ⊥
  IsDone done = Unit {0}

  -- `waitGroup.Wait()` has returned.
  abbrev pub Finished : Workers Test → Type 0
  Finished s = All IsDone s.workers

  All-gone :
      (ws : List (Worker Test)) → All IsDone ws → (weigh gone ws ≡ weigh one ws) × (busy ws ≡ [])
  All-gone [] h = (refl, refl)
  All-gone (ready ∷ ws) h = absurd h.0
  All-gone (running p ∷ ws) h = absurd h.0
  All-gone (done ∷ ws) h = let (g, b) = All-gone ws h.1 in (omega arith, b)

abbrev crew_of : (Test : Type 0) → ℕ → List (Worker Test)
crew_of Test n = replicate n ready

weigh-crew :
    (Test : Type 0) (n : ℕ)
    → (weigh one (crew_of Test n) ≡ n)
      × (weigh gone (crew_of Test n) ≡ 0)
      × (busy (crew_of Test n) ≡ [])
weigh-crew Test zero = (refl, refl, refl)
weigh-crew Test (suc n) = let (o, g, b) = weigh-crew Test n in (omega arith, omega arith, b)

module _ {Test : Type 0} where
  launched-Inv : (ps : Dict Text (ParallelTestParams Test)) (n : ℕ) → Inv n (launched ps n)
  unfolding launched
  launched-Inv ps n =
      let (o, g, b) = weigh-crew Test n in record { closed = λ h. absurd (omega arith); crew = o }

  launched-total :
      (ps : Dict Text (ParallelTestParams Test)) (n : ℕ) (k : Text)
      → total k (launched ps n) ≡ occ k (chan_names (map (λ e. e.1) ps))
  unfolding launched occ
  launched-total ps n k = let (o, g, b) = weigh-crew Test n in rw b (omega arith)

  length-eq-zero : (ps : List (ParallelTestParams Test)) → length ps ≡ 0 → ps ≡ []
  length-eq-zero [] h = refl
  length-eq-zero (p ∷ ps) h = absurd (omega arith)

-- With at least one worker: when all workers have finished, the channel is empty.
pub Finished-drained :
    {Test : Type 0} (ps : Dict Text (ParallelTestParams Test)) (n : ℕ) (s : Workers Test)
    → 0 < n
    → Steps (launched ps n) s
    → Finished s
    → s.test_params_chan ≡ []
Finished-drained ps n s pos r f =
    let (left, idle) = All-gone s.workers f in
    let inv = Steps-Inv r (launched-Inv ps n) in
    length-eq-zero s.test_params_chan (inv.closed (omega (arith, left, inv.crew)))

-- With at least one worker: when all workers have finished, in whatever order they took their
-- turns, each test of the channel has been reported exactly as often as it was put there.
pub Finished-reports_all :
    {Test : Type 0} (ps : Dict Text (ParallelTestParams Test)) (n : ℕ) (s : Workers Test) (k : Text)
    → 0 < n
    → Steps (launched ps n) s
    → Finished s
    → occ k (report_names s.reports) ≡ occ k (chan_names (map (λ e. e.1) ps))
unfolding occ
Finished-reports_all ps n s k pos r f =
    let (left, idle) = All-gone s.workers f in
    let empty = Finished-drained ps n s pos r f in
    let now : total k s ≡ occ k (report_names s.reports) = rw (idle, empty) (omega arith) in
    sym now ∙ (Steps-total k r ∙ launched-total ps n k)
