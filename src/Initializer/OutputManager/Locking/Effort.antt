-- ===== src/Initializer/OutputManager/Locking/Effort.antt =====
-- Lemmas on concurrent calls of logTestOutput of
-- initializer/parallelism/parallel_test_output_manager.go: how far they are from their end.
use zz_deprecated_kurtosis.Base.{
  ℕ, ◌+◌, ◌≤◌, ◌<◌, ◌≡◌, List, [], ◌∷◌, ◌++◌, arith, Bool, true, false, length,
}
use zz_deprecated_kurtosis.Initializer.OutputManager.{System}
use zz_deprecated_kurtosis.Initializer.OutputLines.{report_lines}
use zz_deprecated_kurtosis.Initializer.OutputManager.Outcomes.{Report}
use zz_deprecated_kurtosis.Initializer.OutputManager.Locking.{
  output_for, Caller, waiting, checking, storing, choosing, printing, returned, LogCalls, BodyStep,
  check, store, choose, print, LogStep, lock, body, unlock,
}

-- The lines of a report, whether or not it is its test's first.
abbrev line_bound : Report → ℕ
line_bound r =
    length (report_lines (output_for true r) r.logs)
    + length (report_lines (output_for false r) r.logs)

-- More than the steps that a call has left.
abbrev effort : Caller → ℕ
effort (waiting r) = 5 + line_bound r
effort (checking r) = 4 + line_bound r
effort (storing twice r) = 3 + line_bound r
effort (choosing lines) = 2 + length lines
effort (printing logger lines) = 1 + length lines
effort returned = 0

abbrev pub efforts : List Caller → ℕ
efforts [] = 0
efforts (c ∷ cs) = effort c + efforts cs

efforts-append : (cs ds : List Caller) → efforts (cs ++ ds) ≡ efforts cs + efforts ds
efforts-append [] ds = omega arith
efforts-append (c ∷ cs) ds = omega (arith, efforts-append cs ds)

line_bound-le :
    (twice : Bool) (r : Report) → length (report_lines (output_for twice r) r.logs) ≤ line_bound r
line_bound-le true r = omega arith
line_bound-le false r = omega arith

BodyStep-effort : {s t : System} {c d : Caller} → BodyStep s c t d → effort d < effort c
BodyStep-effort check = omega arith
BodyStep-effort (store {twice} {r}) = omega (arith, line_bound-le twice r)
BodyStep-effort (choose logger e) = omega arith
BodyStep-effort print = omega arith

efforts_at :
    (before after : List Caller) (c d : Caller)
    → effort d < effort c
    → efforts (before ++ d ∷ after) < efforts (before ++ c ∷ after)
efforts_at before after c d h =
    omega (arith, efforts-append before (c ∷ after), efforts-append before (d ∷ after))

-- Every step brings the calls nearer to their end.
pub LogStep-efforts : {s t : LogCalls} → LogStep s t → efforts t.callers < efforts s.callers
LogStep-efforts {s} {t} (lock before after r free e f) =
    rw (e, f) (efforts_at before after (waiting r) (checking r) (omega arith))
LogStep-efforts {s} {t} (body before after {c} {d} st e f) =
    rw (e, f) (efforts_at before after c d (BodyStep-effort st))
LogStep-efforts {s} {t} (unlock before after logger e f) =
    rw (e, f) (efforts_at before after (printing logger []) returned (omega arith))
