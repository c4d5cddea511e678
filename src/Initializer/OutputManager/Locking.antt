-- ===== src/Initializer/OutputManager/Locking.antt =====
-- logTestOutput of initializer/parallelism/parallel_test_output_manager.go, called by several
-- goroutines at once: each call step by step, under the manager's mutex. A step looks a name up,
-- stores an output, chooses the logger, or writes one line; the steps of the calls interleave in
-- any order that the mutex allows.
pub mod Serial
pub mod Admitted
pub mod Effort
pub mod Ending
mod Tests
use zz_deprecated_kurtosis.Base.{
  List, [], ◌∷◌, ◌++◌, map, Bool, true, false, some, ◌≡◌, lookup, found, text_eq,
}
use zz_deprecated_kurtosis.Initializer.OutputManager.{
  Logger, System, recorded, store_output, output_logger, print_to,
}
use zz_deprecated_kurtosis.Initializer.OutputLines.{ParallelTestOutput, Line, report_lines}
use zz_deprecated_kurtosis.Initializer.OutputManager.Outcomes.{Report}

-- Where a call stands: before `mutex.Lock()` returns; in the body, with the locals that are live
-- there; after the deferred `mutex.Unlock()`.
pub data Caller : Type 0 where
  waiting : Report → Caller
  checking : Report → Caller
  storing : (twice : Bool) → Report → Caller
  choosing : List Line → Caller
  printing : Logger → List Line → Caller
  returned : Caller

-- The manager and its loggers, the mutex, the calls, and the reports in the order in which the mutex
-- admitted them.
pub record LogCalls : Type 0 where
  pub system : System
  pub locked : Bool
  pub callers : List Caller
  pub admitted : List Report

abbrev pub output_for : Bool → Report → ParallelTestOutput
output_for twice r = recorded r.test_name r.execution_err r.test_passed twice

-- One step inside the body, which acts on the manager and its loggers.
pub data BodyStep (s : System) : Caller → System → Caller → Type 0 where
  check :
      {r : Report}
      → BodyStep s (checking r) s (storing (found (lookup r.test_name s.manager.test_outputs)) r)
  store :
      {twice : Bool} {r : Report}
      → BodyStep s
          (storing twice r)
          (store_output r.test_name (output_for twice r) s)
          (choosing (report_lines (output_for twice r) r.logs))
  choose :
      {lines : List Line} (logger : Logger)
      → output_logger s ≡ some logger
      → BodyStep s (choosing lines) s (printing logger lines)
  print :
      {logger : Logger} {line : Line} {lines : List Line}
      → BodyStep s
          (printing logger (line ∷ lines))
          (print_to logger (line ∷ []) s)
          (printing logger lines)

-- One call, wherever it stands among the others, makes its next step. Only `mutex.Lock()` waits.
pub data LogStep (s t : LogCalls) : Type 0 where
  lock :
      (before after : List Caller) (r : Report)
      → s.locked ≡ false
      → s.callers ≡ before ++ waiting r ∷ after
      → t ≡ record s {
        locked = true;
        callers = before ++ checking r ∷ after;
        admitted = s.admitted ++ r ∷ [];
      }
      → LogStep s t
  body :
      (before after : List Caller) {c d : Caller} {u : System}
      → BodyStep s.system c u d
      → s.callers ≡ before ++ c ∷ after
      → t ≡ record s { system = u; callers = before ++ d ∷ after }
      → LogStep s t
  unlock :
      (before after : List Caller) (logger : Logger)
      → s.callers ≡ before ++ printing logger [] ∷ after
      → t ≡ record s { locked = false; callers = before ++ returned ∷ after }
      → LogStep s t

pub data LogSteps (s : LogCalls) : LogCalls → Type 0 where
  here : LogSteps s s
  next : {t u : LogCalls} → LogSteps s t → LogStep t u → LogSteps s u

-- The calls for the given reports, all at `mutex.Lock()`.
unfoldable pub calling : List Report → System → LogCalls
calling reports s = record {
  system = s;
  locked = false;
  callers = map waiting reports;
  admitted = [];
}
