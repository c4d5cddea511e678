-- ===== src/Initializer/Parallelizer/Turns/Ended.antt =====
-- Lemmas on initializer/parallelism/test_executor_parallelizer.go: the turns that the
-- workers have ended, and the tests that they have not reported yet.
use mathlib.Core.List.{map-append, append-nil, append_assoc, Permᴰ}
use mathlib.Core.List.Permᴰ
use zz_deprecated_kurtosis.Base.{◌≡◌, refl, sym, ap, subst, ◌∙◌, List, [], ◌∷◌, ◌++◌, map, text_eq}
use zz_deprecated_kurtosis.Initializer.TestParams.{ParallelTestParams}
use zz_deprecated_kurtosis.Initializer.OutputManager.Outcomes.{Report}
use zz_deprecated_kurtosis.Initializer.Parallelizer.{
  Attempt, report_of, Worker, ready, running, done, Workers, Step, take_test, report, leave, Steps,
  here, next,
}

module _ {Test : Type 0} where
  -- The turn that a step ends, with what came of it.
  abbrev pub ended : {s t : Workers Test} → Step s t → List (ParallelTestParams Test × Attempt)
  ended (take_test before after p rest c w e) = []
  ended (report before after p attempt w e) = (p, attempt) ∷ []
  ended (leave before after c w e) = []

  -- The turns that the workers ended, in the order of the reports.
  abbrev pub turns : {s t : Workers Test} → Steps s t → List (ParallelTestParams Test × Attempt)
  turns here = []
  turns (next r st) = turns r ++ ended st

  -- The tests that workers hold.
  abbrev pub held : List (Worker Test) → List (ParallelTestParams Test)
  held [] = []
  held (ready ∷ ws) = held ws
  held (done ∷ ws) = held ws
  held (running p ∷ ws) = p ∷ held ws

  held-append : (vs ws : List (Worker Test)) → held (vs ++ ws) ≡ held vs ++ held ws
  held-append [] ws = refl
  held-append (ready ∷ vs) ws = held-append vs ws
  held-append (done ∷ vs) ws = held-append vs ws
  held-append (running p ∷ vs) ws = ap (λ l. p ∷ l) (held-append vs ws)

  -- The tests that have no report yet.
  abbrev pub open_tests : Workers Test → List (ParallelTestParams Test)
  open_tests s = held s.workers ++ s.test_params_chan

  abbrev pub tests_of : List (ParallelTestParams Test × Attempt) → List (ParallelTestParams Test)
  tests_of l = map (λ q. q.0) l

  -- A test in the middle comes first.
  to_front :
      (xs ys zs : List (ParallelTestParams Test)) (p : ParallelTestParams Test)
      → Permᴰ ((xs ++ p ∷ ys) ++ zs) (p ∷ ((xs ++ ys) ++ zs))
  to_front xs ys zs p = Permᴰ.append_right zs (Permᴰ.middle p xs ys)

  taken :
      (s t : Workers Test) (before after : List (Worker Test)) (p : ParallelTestParams Test)
      (rest : List (ParallelTestParams Test))
      → open_tests t ≡ (held before ++ p ∷ held after) ++ rest
      → open_tests s ≡ (held before ++ held after) ++ p ∷ rest
      → Permᴰ (open_tests t) (open_tests s)
  taken s t before after p rest e f =
      subst (λ l. Permᴰ l (open_tests s)) (sym e)
        (subst (Permᴰ ((held before ++ p ∷ held after) ++ rest)) (sym f) (
          Permᴰ.trans (to_front (held before) (held after) rest p)
            (Permᴰ.symm (Permᴰ.middle p (held before ++ held after) rest))))

  open_at :
      (s : Workers Test) (before after : List (Worker Test)) (v : Worker Test)
      (ps : List (ParallelTestParams Test))
      → held (v ∷ after) ≡ ps ++ held after
      → s.workers ≡ before ++ v ∷ after
      → open_tests s ≡ (held before ++ (ps ++ held after)) ++ s.test_params_chan
  open_at s before after v ps e w =
      ap (λ l. l ++ s.test_params_chan)
        (ap held w ∙ (held-append before (v ∷ after) ∙ ap (λ l. held before ++ l) e))

  same_tests : {l m : List (ParallelTestParams Test)} → l ≡ m → Permᴰ l m
  same_tests {l} e = subst (Permᴰ l) e (Permᴰ.refl l)

  pub Step-tests :
      {s t : Workers Test} (st : Step s t)
      → Permᴰ (tests_of (ended st) ++ open_tests t) (open_tests s)
  Step-tests {s} {t} (take_test before after p rest c w e) =
      taken s t before after p rest
        (ap open_tests e ∙ ap (λ l. l ++ rest) (held-append before (running p ∷ after)))
        (open_at s before after ready [] refl w ∙ ap (λ l. (held before ++ held after) ++ l) c)
  Step-tests {s} {t} (report before after p attempt w e) =
      let was : open_tests s ≡ (held before ++ p ∷ held after) ++ s.test_params_chan =
        open_at s before after (running p) (p ∷ []) refl w in
      let is : open_tests t ≡ (held before ++ held after) ++ s.test_params_chan =
        ap open_tests e ∙ ap (λ l. l ++ s.test_params_chan) (held-append before (ready ∷ after)) in
      subst (λ l. Permᴰ (p ∷ l) (open_tests s)) (sym is)
        (subst (Permᴰ (p ∷ ((held before ++ held after) ++ s.test_params_chan))) (sym was)
          (Permᴰ.symm (to_front (held before) (held after) s.test_params_chan p)))
  Step-tests {s} {t} (leave before after c w e) = same_tests (
      ap open_tests e
      ∙ (ap (λ l. l ++ s.test_params_chan) (held-append before (done ∷ after))
          ∙ sym (open_at s before after ready [] refl w)))

  tests_of-append :
      (l m : List (ParallelTestParams Test × Attempt))
      → tests_of (l ++ m) ≡ tests_of l ++ tests_of m
  tests_of-append l m = map-append (λ q. q.0) l m

  -- Every test is open, or a turn on it has ended.
  pub Steps-tests :
      {s t : Workers Test} (r : Steps s t)
      → Permᴰ (tests_of (turns r) ++ open_tests t) (open_tests s)
  Steps-tests {s} here = Permᴰ.refl (open_tests s)
  Steps-tests {s} {t} (next r st) =
      subst (λ l. Permᴰ l (open_tests s))
        (sym (
          ap (λ l. l ++ open_tests t) (tests_of-append (turns r) (ended st))
          ∙ append_assoc (tests_of (turns r)) (tests_of (ended st)) (open_tests t)))
        (Permᴰ.trans (Permᴰ.append_left (tests_of (turns r)) (Step-tests st)) (Steps-tests r))

  abbrev pub made : ParallelTestParams Test × Attempt → Report
  made (p, attempt) = report_of p attempt

  Step-reports : {s t : Workers Test} (st : Step s t) → t.reports ≡ s.reports ++ map made (ended st)
  Step-reports {s} (take_test before after p rest c w e) =
      ap (λ (u : Workers Test). u.reports) e ∙ sym (append-nil s.reports)
  Step-reports (report before after p attempt w e) = ap (λ (u : Workers Test). u.reports) e
  Step-reports {s} (leave before after c w e) =
      ap (λ (u : Workers Test). u.reports) e ∙ sym (append-nil s.reports)

  pub Steps-reports :
      {s t : Workers Test} (r : Steps s t) → t.reports ≡ s.reports ++ map made (turns r)
  Steps-reports {s} here = sym (append-nil s.reports)
  Steps-reports {s} (next r st) =
      Step-reports st
      ∙ (ap (λ l. l ++ map made (ended st)) (Steps-reports r)
          ∙ (append_assoc s.reports (map made (turns r)) (map made (ended st))
              ∙ ap (λ l. s.reports ++ l) (sym (map-append made (turns r) (ended st)))))
