-- ===== src/Initializer/OutputManager/Locking/Admitted.antt =====
-- Lemmas on concurrent calls of logTestOutput of
-- initializer/parallelism/parallel_test_output_manager.go: which reports the mutex has admitted, and
-- what the calls come to.
use mathlib.Core.List.{append_assoc, Perm, perm_middle}
use mathlib.Core.List.Perm
use zz_deprecated_kurtosis.Base.{
  ◌≤◌, ◌≡◌, refl, sym, ap, subst, ◌∙◌, List, [], ◌∷◌, ◌++◌, map, false, some, if◌then◌else◌,
}
use zz_deprecated_kurtosis.Initializer.OutputManager.{System}
use zz_deprecated_kurtosis.Initializer.OutputManager.Outcomes.{Report, log_all}
use zz_deprecated_kurtosis.Initializer.OutputManager.Locking.{
  Caller, waiting, checking, storing, choosing, printing, returned, LogCalls, BodyStep, check,
  store, choose, print, LogStep, lock, body, unlock, LogSteps, here, next, calling,
}
use zz_deprecated_kurtosis.Initializer.OutputManager.Locking.Serial.{
  holders, settled-free, at_most_one, LogSteps-IsSerial, calling-IsSerial,
}

abbrev pub waiting_reports : List Caller → List Report
waiting_reports [] = []
waiting_reports (waiting r ∷ cs) = r ∷ waiting_reports cs
waiting_reports (checking r ∷ cs) = waiting_reports cs
waiting_reports (storing b r ∷ cs) = waiting_reports cs
waiting_reports (choosing lines ∷ cs) = waiting_reports cs
waiting_reports (printing logger lines ∷ cs) = waiting_reports cs
waiting_reports (returned ∷ cs) = waiting_reports cs

waiting-append :
    (cs ds : List Caller) → waiting_reports (cs ++ ds) ≡ waiting_reports cs ++ waiting_reports ds
waiting-append [] ds = refl
waiting-append (waiting r ∷ cs) ds = ap (λ l. r ∷ l) (waiting-append cs ds)
waiting-append (checking r ∷ cs) ds = waiting-append cs ds
waiting-append (storing b r ∷ cs) ds = waiting-append cs ds
waiting-append (choosing lines ∷ cs) ds = waiting-append cs ds
waiting-append (printing logger lines ∷ cs) ds = waiting-append cs ds
waiting-append (returned ∷ cs) ds = waiting-append cs ds

waiting_at :
    (before after : List Caller) (c d : Caller)
    → waiting_reports (c ∷ after) ≡ waiting_reports (d ∷ after)
    → waiting_reports (before ++ c ∷ after) ≡ waiting_reports (before ++ d ∷ after)
waiting_at before after c d e =
    waiting-append before (c ∷ after)
    ∙ (ap (λ l. waiting_reports before ++ l) e ∙ sym (waiting-append before (d ∷ after)))

BodyStep-waiting :
    {s t : System} {c d : Caller} (after : List Caller)
    → BodyStep s c t d
    → waiting_reports (c ∷ after) ≡ waiting_reports (d ∷ after)
BodyStep-waiting after check = refl
BodyStep-waiting after store = refl
BodyStep-waiting after (choose logger e) = refl
BodyStep-waiting after print = refl

-- The reports admitted and those that still wait.
abbrev pub all_reports : LogCalls → List Report
all_reports s = s.admitted ++ waiting_reports s.callers

same_reports : {l m : List Report} → l ≡ m → Perm l m
same_reports {l} e = subst (Perm l) e (Perm.refl l)

LogStep-all_reports : {s t : LogCalls} → LogStep s t → Perm (all_reports t) (all_reports s)
LogStep-all_reports {s} {t} (lock before after r free e f) =
    let was : all_reports s ≡ s.admitted ++ (waiting_reports before ++ r ∷ waiting_reports after) =
      ap (λ cs. s.admitted ++ waiting_reports cs) e
      ∙ ap (λ l. s.admitted ++ l) (waiting-append before (waiting r ∷ after)) in
    let is : all_reports t ≡ s.admitted ++ r ∷ (waiting_reports before ++ waiting_reports after) =
      ap all_reports f
      ∙ (append_assoc s.admitted (r ∷ []) _
          ∙ ap (λ l. s.admitted ++ r ∷ l) (waiting-append before (checking r ∷ after))) in
    subst (λ l. Perm l (all_reports s)) (sym is)
      (subst (λ l. Perm (s.admitted ++ r ∷ (waiting_reports before ++ waiting_reports after)) l)
        (sym was)
        (Perm.append_left s.admitted
          (Perm.symm (perm_middle (waiting_reports before) (waiting_reports after)))))
LogStep-all_reports {s} {t} (body before after {c} {d} st e f) = same_reports (
    ap all_reports f
    ∙ ap (λ l. s.admitted ++ l)
        (sym (waiting_at before after c d (BodyStep-waiting after st))
          ∙ sym (ap waiting_reports e)))
LogStep-all_reports {s} {t} (unlock before after logger e f) = same_reports (
    ap all_reports f
    ∙ ap (λ l. s.admitted ++ l)
        (sym (waiting_at before after (printing logger []) returned refl)
          ∙ sym (ap waiting_reports e)))

LogSteps-all_reports : {s t : LogCalls} → LogSteps s t → Perm (all_reports t) (all_reports s)
LogSteps-all_reports {s} here = Perm.refl (all_reports s)
LogSteps-all_reports (next r st) = Perm.trans (LogStep-all_reports st) (LogSteps-all_reports r)

waiting_all : (rs : List Report) → waiting_reports (map waiting rs) ≡ rs
waiting_all [] = refl
waiting_all (r ∷ rs) = ap (λ l. r ∷ l) (waiting_all rs)

-- What concurrent calls come to.
pub record Serialised (reports : List Report) (start : System) (s : LogCalls) : Type 0 where
  pub exclusive : holders s.callers ≤ 1
  pub each_once : Perm (s.admitted ++ waiting_reports s.callers) reports
  pub serial : s.locked ≡ false → log_all s.admitted start ≡ some s.system

-- For any number of calls that run at once, in every state that their steps can reach: at most one
-- call is between its Lock and its Unlock; the reports admitted by the mutex and those that still
-- wait for it are the reports of the calls, each once; and while the mutex is free the manager, the
-- loggers and all that was written are what whole calls give, made one after the other in the order
-- in which the mutex admitted them.
pub log_calls-Serialised :
    (reports : List Report) (start : System) (s : LogCalls)
    → LogSteps (calling reports start) s
    → Serialised reports start s
unfolding calling
log_calls-Serialised reports start s r =
    let v = LogSteps-IsSerial r (calling-IsSerial reports start) in
    record {
      exclusive = at_most_one s.locked _ v.exclusive;
      each_once =
          subst (λ l. Perm (all_reports s) l) (waiting_all reports) (LogSteps-all_reports r);
      serial = λ free.
          v.serial
          ∙ settled-free s.callers s.system (v.exclusive ∙ ap (λ b. if b then 1 else 0) free);
    }
