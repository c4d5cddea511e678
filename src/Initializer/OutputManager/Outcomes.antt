-- ===== src/Initializer/OutputManager/Outcomes.antt =====
-- Lemmas on initializer/parallelism/parallel_test_output_manager.go: reports and the verdict.
use zz_deprecated_kurtosis.Base.{
  ◌≡◌, refl, subst, sym, ap, ◌≢◌, ◌↔◌, inl, inr, Bool, true, false, ◌&&◌, Option, none, some, List,
  [], ◌∷◌, arith, Text, Dict, lookup, insert, found, lookup-insert, lookup_empty, text_eq, ==_iff,
  Option-cases, All, All-map, Error,
}
use zz_deprecated_kurtosis.Initializer.OutputManager.{
  print_to, print_or_panic, ParallelTestOutputManager, Logger, System, output_logger, recorded,
  log_test_output, all_passed_loop, had_no_issues, get_all_tests_passed,
}
use zz_deprecated_kurtosis.Initializer.OutputLines.{
  Line, ParallelTestOutput, TestLogs, get_test_status_from_result,
}

-- One call of logTestOutput.
pub record Report : Type 0 where
  pub test_name : Text
  pub execution_err : Option Error
  pub test_passed : Bool
  pub logs : TestLogs

abbrev pub log_report : Report → System → Option System
log_report r = log_test_output r.test_name r.execution_err r.test_passed r.logs

abbrev pub then_log : (System → Option System) → Option System → Option System
then_log later none = none
then_log later (some s) = later s

-- The calls in the order in which the lock admits them.
unfoldable pub log_all : List Report → System → Option System
log_all [] s = some s
log_all (r ∷ more) s = then_log (log_all more) (log_report r s)

-- A test that ran and passed.
pub record IsPass (r : Report) : Type 0 where
  pub no_error : r.execution_err ≡ none
  pub success : r.test_passed ≡ true

abbrev pub DistinctNames : List Report → Type 0
DistinctNames [] = Unit {0}
DistinctNames (r ∷ more) = All (λ (o : Report). r.test_name ≢ o.test_name) more × DistinctNames more

-- All the outputs of a map are without issues.
abbrev all_ok : Dict Text ParallelTestOutput → Bool
all_ok [] = true
all_ok ((k, o) ∷ m) = had_no_issues o && all_ok m

all_passed_loop-eq :
    (b : Bool) (m : Dict Text ParallelTestOutput) → all_passed_loop b m ≡ b && all_ok m
unfolding all_passed_loop
all_passed_loop-eq b [] = ground arith
all_passed_loop-eq b ((k, o) ∷ m) = ground (arith, all_passed_loop-eq (b && had_no_issues o) m)

get_all-eq : (m : ParallelTestOutputManager) → get_all_tests_passed m ≡ all_ok m.test_outputs
unfolding get_all_tests_passed
get_all-eq m = all_passed_loop-eq true m.test_outputs

all_ok-insert_bad :
    (k : Text) (o : ParallelTestOutput) (m : Dict Text ParallelTestOutput)
    → had_no_issues o ≡ false
    → all_ok (insert k o m) ≡ false
unfolding insert
all_ok-insert_bad k o [] h = ground arith
all_ok-insert_bad k o ((j, p) ∷ m) h = ground (arith, all_ok-insert_bad k o m h)

all_ok-insert_new :
    (k : Text) (o : ParallelTestOutput) (m : Dict Text ParallelTestOutput)
    → lookup k m ≡ none
    → all_ok (insert k o m) ≡ had_no_issues o && all_ok m
unfolding insert lookup
all_ok-insert_new k o [] h = refl
all_ok-insert_new k o ((j, p) ∷ m) h = ground (arith, all_ok-insert_new k o m)

-- A report that is a test's first, and a pass.
record IsGood (m : Dict Text ParallelTestOutput) (r : Report) : Type 0 where
  pass : IsPass r
  first : lookup r.test_name m ≡ none

abbrev pub output_of : Dict Text ParallelTestOutput → Report → ParallelTestOutput
output_of m r = recorded r.test_name r.execution_err r.test_passed (found (lookup r.test_name m))

abbrev after_report : Dict Text ParallelTestOutput → Report → Dict Text ParallelTestOutput
after_report m r = insert r.test_name (output_of m r) m

had_no_issues-first :
    (n : Text) (e : Option Error) (p : Bool)
    → (had_no_issues (recorded n e p false) ≡ true) ↔ ((e ≡ none) × (p ≡ true))
unfolding recorded get_test_status_from_result
had_no_issues-first n none true = ((λ h. (refl, refl)), (λ h. refl))
had_no_issues-first n none false = ground arith
had_no_issues-first n (some x) p = ground arith

had_no_issues-twice :
    (n : Text) (e : Option Error) (p : Bool) → had_no_issues (recorded n e p true) ≡ false
unfolding recorded get_test_status_from_result
had_no_issues-twice n e p = refl

-- One report keeps the verdict exactly when it is good.
module _ (m : Dict Text ParallelTestOutput) (r : Report) where
  abbrev Verdict : Type 0
  Verdict = (all_ok (after_report m r) ≡ true) ↔ ((all_ok m ≡ true) × IsGood m r)

  verdict_first : lookup r.test_name m ≡ none → Verdict
  verdict_first new = ground (
    arith,
    ap found new,
    all_ok-insert_new r.test_name (output_of m r) m,
    had_no_issues-first r.test_name r.execution_err r.test_passed,
  )

  verdict_again : (old : ParallelTestOutput) → lookup r.test_name m ≡ some old → Verdict
  verdict_again old e = ground (
    arith,
    ap found e,
    all_ok-insert_bad r.test_name (output_of m r) m,
    had_no_issues-twice r.test_name r.execution_err r.test_passed,
  )

  verdict_step : Verdict
  verdict_step = elim (Option-cases (lookup r.test_name m)) [
    | inl new ↦ verdict_first new
    | inr (old, e) ↦ verdict_again old e
  ]

pub print_or_panic-eq-some :
    (lines : List Line) (s t : System) (o : Option Logger)
    → print_or_panic lines s o ≡ some t
    → (logger : Logger) × (o ≡ some logger) × (print_to logger lines s ≡ t)
print_or_panic-eq-some lines s t none e = cc
print_or_panic-eq-some lines s t (some logger) e = (logger, refl, cc)

log_report-outputs :
    (r : Report) (s t : System)
    → log_report r s ≡ some t
    → t.manager.test_outputs ≡ after_report s.manager.test_outputs r
unfolding log_test_output
log_report-outputs r s t e =
    let (logger, _, same) = print_or_panic-eq-some _ _ t (output_logger s) e in
    sym (ap (λ (u : System). u.manager.test_outputs) same)

-- All the reports are good for the outputs so far, and no two are of one test.
abbrev AllGood : Dict Text ParallelTestOutput → List Report → Type 0
AllGood m rs = All (IsGood m) rs × DistinctNames rs

module _ (m : Dict Text ParallelTestOutput) (r : Report) where
  IsGood-after :
      (o : Report) → IsGood (after_report m r) o ↔ (IsGood m o × (r.test_name ≢ o.test_name))
  IsGood-after o = ground (
    arith,
    lookup-insert r.test_name o.test_name (output_of m r) m,
    ==_iff r.test_name o.test_name,
  )

  All-IsGood_after :
      (rs : List Report)
      → All (IsGood (after_report m r)) rs
        ↔ (All (IsGood m) rs × All (λ (o : Report). r.test_name ≢ o.test_name) rs)
  All-IsGood_after [] = ((λ _. (tt, tt)), (λ _. tt))
  All-IsGood_after (o ∷ rs) = (
    (λ h.
        let (g, ne) = (IsGood-after o).0 h.0 in
        let (gs, nes) = (All-IsGood_after rs).0 h.1 in ((g, gs), (ne, nes))),
    (λ h. ((IsGood-after o).1 (h.0.0, h.1.0), (All-IsGood_after rs).1 (h.0.1, h.1.1))),
  )

  AllGood-cons :
      (rs : List Report)
      → ((all_ok (after_report m r) ≡ true) × AllGood (after_report m r) rs)
        ↔ ((all_ok m ≡ true) × AllGood m (r ∷ rs))
  AllGood-cons rs = (
    (λ (fine, (all, distinct)).
        let (before, good) = (verdict_step m r).0 fine in
        let (rest, new) = (All-IsGood_after rs).0 all in (before, ((good, rest), (new, distinct)))),
    (λ (before, ((good, rest), (new, distinct))).
        ((verdict_step m r).1 (before, good), ((All-IsGood_after rs).1 (rest, new), distinct))),
  )

log_all-verdict :
    (rs : List Report) (s t : System)
    → log_all rs s ≡ some t
    → (all_ok t.manager.test_outputs ≡ true)
      ↔ ((all_ok s.manager.test_outputs ≡ true) × AllGood s.manager.test_outputs rs)
unfolding log_all
log_all-verdict [] s t e = ground arith
log_all-verdict (r ∷ rs) s t e = elim (Option-cases (log_report r s)) [
  | inl f ↦ cc
  | inr (u, f) ↦
      let later : log_all rs u ≡ some t = cc (ap (then_log (log_all rs)) f) in
      let cons = AllGood-cons s.manager.test_outputs r rs in
      let verdict =
        subst (λ m. (all_ok t.manager.test_outputs ≡ true) ↔ ((all_ok m ≡ true) × AllGood m rs))
          (log_report-outputs r s u f) (log_all-verdict rs u t later) in
      ((λ h. cons.0 (verdict.0 h)), (λ h. verdict.1 (cons.1 h)))
]

-- After any sequence of reports to a new manager, the suite has passed exactly when every report is
-- of a test that ran without an error and passed, and no test was reported twice.
pub get_all_tests_passed_iff :
    (rs : List Report) (s t : System)
    → s.manager.test_outputs ≡ []
    → log_all rs s ≡ some t
    → (get_all_tests_passed t.manager ≡ true) ↔ (All IsPass rs × DistinctNames rs)
get_all_tests_passed_iff rs s t new e =
    rw (get_all-eq t.manager)
      ((λ h. to ((log_all-verdict rs s t e).0 h)), (λ h. (log_all-verdict rs s t e).1 (from h)))
  where
    to :
        (all_ok s.manager.test_outputs ≡ true) × AllGood s.manager.test_outputs rs
        → All IsPass rs × DistinctNames rs
    to (_, (all, distinct)) = (All-map _ IsPass (λ r g. g.pass) rs all, distinct)

    fresh : (r : Report) → lookup r.test_name s.manager.test_outputs ≡ none
    fresh r = rw new (lookup_empty r.test_name)

    from :
        All IsPass rs × DistinctNames rs
        → (all_ok s.manager.test_outputs ≡ true) × AllGood s.manager.test_outputs rs
    from (all, distinct) =
        (rw new, (All-map IsPass _ (λ r p. record { pass = p; first = fresh r }) rs all, distinct))
