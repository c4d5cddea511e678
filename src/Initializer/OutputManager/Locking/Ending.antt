-- ===== src/Initializer/OutputManager/Locking/Ending.antt =====
-- Lemmas on concurrent calls of logTestOutput of
-- initializer/parallelism/parallel_test_output_manager.go: all calls return.
use mathlib.Core.List.{Perm, append-nil}
use zz_deprecated_kurtosis.Base.{
  ℕ, zero, suc, ◌≤◌, ◌≡◌, refl, ap, subst, ◌∙◌, ◌⊎◌, inl, inr, List, [], ◌∷◌, ◌++◌, arith, Bool,
  true, false, some, if◌then◌else◌, All,
}
use zz_deprecated_kurtosis.Initializer.OutputManager.{Logger, System, output_logger}
use zz_deprecated_kurtosis.Initializer.OutputManager.Outcomes.{Report, log_all}
use zz_deprecated_kurtosis.Initializer.OutputManager.Locking.{
  Caller, waiting, checking, storing, choosing, printing, returned, LogCalls, BodyStep, check,
  store, choose, print, LogStep, lock, body, unlock, LogSteps, here, next, calling,
}
use zz_deprecated_kurtosis.Initializer.OutputManager.Locking.Serial.{
  inside, holders, IsSerial, LogStep-IsSerial, LogSteps-IsSerial, calling-IsSerial, settled-free,
}
use zz_deprecated_kurtosis.Initializer.OutputManager.Locking.Admitted.{
  log_calls-Serialised, waiting_reports,
}
use zz_deprecated_kurtosis.Initializer.OutputManager.Locking.Effort.{efforts, LogStep-efforts}

abbrev pub IsReturned : Caller → Type 0
IsReturned returned = Unit {0}
IsReturned (waiting r) = ⊥
IsReturned (checking r) = ⊥
IsReturned (storing b r) = ⊥
IsReturned (choosing lines) = ⊥
IsReturned (printing logger lines) = ⊥

-- A call among the others.
record Place (P : Caller → Type 0) (cs : List Caller) : Type 0 where
  before : List Caller
  caller : Caller
  after : List Caller
  place : cs ≡ before ++ caller ∷ after
  holds : P caller

Place-cons : {P : Caller → Type 0} (c : Caller) (cs : List Caller) → Place P cs → Place P (c ∷ cs)
Place-cons c cs p = record {
  before = c ∷ p.before;
  caller = p.caller;
  after = p.after;
  place = ap (λ l. c ∷ l) p.place;
  holds = p.holds;
}

Place-head : {P : Caller → Type 0} (c : Caller) (cs : List Caller) → P c → Place P (c ∷ cs)
Place-head c cs h = record { before = []; caller = c; after = cs; place = refl; holds = h }

-- Two kinds of calls that can move: one that holds the mutex, one that waits for it.
abbrev IsInside : Caller → Type 0
IsInside c = inside c ≡ 1

abbrev IsWaiting : Caller → Type 0
IsWaiting c = (r : Report) × (c ≡ waiting r)

inside_cases : (c : Caller) → (inside c ≡ 0) ⊎ (inside c ≡ 1)
inside_cases (waiting r) = inl refl
inside_cases returned = inl refl
inside_cases (checking r) = inr refl
inside_cases (storing b r) = inr refl
inside_cases (choosing lines) = inr refl
inside_cases (printing logger lines) = inr refl

find-IsInside : (cs : List Caller) → (holders cs ≡ 0) ⊎ Place IsInside cs
find-IsInside [] = inl refl
find-IsInside (c ∷ cs) = elim (inside_cases c) [
  | inl out ↦ elim (find-IsInside cs) [
    | inl none_inside ↦ inl (omega arith)
    | inr p ↦ inr (Place-cons c cs p)
  ]
  | inr held ↦ inr (Place-head c cs held)
]

find-IsWaiting : (cs : List Caller) → holders cs ≡ 0 → All IsReturned cs ⊎ Place IsWaiting cs
find-IsWaiting [] h = inl tt
find-IsWaiting (waiting r ∷ cs) h = inr (Place-head (waiting r) cs (r, refl))
find-IsWaiting (returned ∷ cs) h = elim (find-IsWaiting cs (omega arith)) [
  | inl all ↦ inl (tt, all)
  | inr p ↦ inr (Place-cons returned cs p)
]
find-IsWaiting (checking r ∷ cs) h = absurd (omega arith)
find-IsWaiting (storing b r ∷ cs) h = absurd (omega arith)
find-IsWaiting (choosing lines ∷ cs) h = absurd (omega arith)
find-IsWaiting (printing logger lines ∷ cs) h = absurd (omega arith)

-- No step touches the logger that the manager chooses.
BodyStep-output_logger :
    {s t : System} {c d : Caller} → BodyStep s c t d → output_logger t ≡ output_logger s
BodyStep-output_logger check = refl
BodyStep-output_logger store = refl
BodyStep-output_logger (choose logger e) = refl
BodyStep-output_logger print = refl

LogStep-output_logger :
    {s t : LogCalls} → LogStep s t → output_logger t.system ≡ output_logger s.system
LogStep-output_logger (lock before after r free e f) =
    ap (λ (c : LogCalls). output_logger c.system) f
LogStep-output_logger (body before after st e f) =
    ap (λ (c : LogCalls). output_logger c.system) f ∙ BodyStep-output_logger st
LogStep-output_logger (unlock before after logger e f) =
    ap (λ (c : LogCalls). output_logger c.system) f

LogSteps-output_logger :
    {s t : LogCalls} → LogSteps s t → output_logger t.system ≡ output_logger s.system
LogSteps-output_logger here = refl
LogSteps-output_logger (next r st) = LogStep-output_logger st ∙ LogSteps-output_logger r

LogSteps-trans : {r s t : LogCalls} → LogSteps r s → LogSteps s t → LogSteps r t
LogSteps-trans run here = run
LogSteps-trans run (next later st) = next (LogSteps-trans run later) st

unlocked : (b : Bool) (n : ℕ) → n ≡ 0 → n ≡ (if b then 1 else 0) → b ≡ false
unlocked true n z e = absurd (omega arith)
unlocked false n z e = refl

first_step : {s t u : LogCalls} → LogStep s t → LogSteps t u → LogSteps s u
first_step st here = next here st
first_step st (next r last) = next (first_step st r) last

module _ (logger : Logger) where
  holder_moves :
      (s : LogCalls) (before after : List Caller) (c : Caller)
      → output_logger s.system ≡ some logger
      → s.callers ≡ before ++ c ∷ after
      → inside c ≡ 1
      → (t : LogCalls) × LogStep s t
  holder_moves s before after (waiting r) o e h = absurd (omega arith)
  holder_moves s before after returned o e h = absurd (omega arith)
  holder_moves s before after (checking r) o e h = (_, body before after check e refl)
  holder_moves s before after (storing b r) o e h = (_, body before after store e refl)
  holder_moves s before after (choosing lines) o e h =
      (_, body before after (choose logger o) e refl)
  holder_moves s before after (printing l []) o e h = (_, unlock before after l e refl)
  holder_moves s before after (printing l (line ∷ lines)) o e h =
      (_, body before after print e refl)

  -- With a free mutex, a call that waits gets it.
  waiter_moves :
      (s : LogCalls) (p : Place IsWaiting s.callers)
      → s.locked ≡ false
      → (t : LogCalls) × LogStep s t
  waiter_moves s p free =
      let (r, e) = p.holds in
      (_, lock p.before p.after r free (p.place ∙ ap (λ c. p.before ++ c ∷ p.after) e) refl)

  -- Nobody waits for a mutex that nobody holds.
  progress :
      (start : System) (s : LogCalls)
      → IsSerial start s
      → output_logger s.system ≡ some logger
      → All IsReturned s.callers ⊎ ((t : LogCalls) × LogStep s t)
  progress start s v o = elim (find-IsInside s.callers) [
    | inr p ↦ inr (holder_moves s p.before p.after p.caller o p.place p.holds)
    | inl h ↦ elim (find-IsWaiting s.callers h) [
      | inl all ↦ inl all
      | inr p ↦ inr (waiter_moves s p (unlocked s.locked _ h v.exclusive))
    ]
  ]

  finish :
      (n : ℕ) (start : System) (s : LogCalls)
      → efforts s.callers ≤ n
      → IsSerial start s
      → output_logger s.system ≡ some logger
      → (t : LogCalls) × LogSteps s t × All IsReturned t.callers
  finish zero start s h v o = elim (progress start s v o) [
    | inl all ↦ (s, here, all)
    | inr (t, st) ↦ absurd (omega (arith, LogStep-efforts st))
  ]
  finish (suc n) start s h v o = elim (progress start s v o) [
    | inl all ↦ (s, here, all)
    | inr (t, st) ↦
        let (u, later, all) =
          finish n start t (omega (arith, LogStep-efforts st)) (LogStep-IsSerial st v)
            (LogStep-output_logger st ∙ o) in
        (u, first_step st later, all)
  ]

all_waited : (cs : List Caller) → All IsReturned cs → (holders cs ≡ 0) × (waiting_reports cs ≡ [])
all_waited [] h = (refl, refl)
all_waited (returned ∷ cs) h = let (out, w) = all_waited cs h.1 in (omega arith, w)
all_waited (waiting r ∷ cs) h = absurd h.0
all_waited (checking r ∷ cs) h = absurd h.0
all_waited (storing b r ∷ cs) h = absurd h.0
all_waited (choosing lines ∷ cs) h = absurd h.0
all_waited (printing logger lines ∷ cs) h = absurd h.0

-- How calls end: all have returned, and some order of their reports, handled one after the other,
-- gives the state that they leave.
pub record Ended (reports : List Report) (start : System) (s : LogCalls) : Type 0 where
  pub end : LogCalls
  pub run : LogSteps s end
  pub all_returned : All IsReturned end.callers
  pub order : List Report
  pub each_once : Perm order reports
  pub serial : log_all order start ≡ some end.system

-- When the manager has a logger to print to: from every state that concurrent calls have reached,
-- whatever steps they took so far, they can go on until all of them have returned, so no call waits
-- for a mutex that is never unlocked; and in the end the reports of all the calls, each once and in
-- some order, have been handled one after the other.
pub log_calls-Ended :
    (reports : List Report) (start : System) (logger : Logger) (s : LogCalls)
    → output_logger start ≡ some logger
    → LogSteps (calling reports start) s
    → Ended reports start s
unfolding calling
log_calls-Ended reports start logger s o r =
    let v = LogSteps-IsSerial r (calling-IsSerial reports start) in
    let (t, run, all) =
      finish logger (efforts s.callers) start s (omega arith) v (LogSteps-output_logger r ∙ o) in
    let whole = log_calls-Serialised reports start t (LogSteps-trans r run) in
    let (out, none_waits) = all_waited t.callers all in
    record {
      end = t;
      run = run;
      all_returned = all;
      order = t.admitted;
      each_once =
          subst (λ l. Perm l reports) (ap (λ l. t.admitted ++ l) none_waits ∙ append-nil t.admitted)
            whole.each_once;
      serial = (LogSteps-IsSerial run v).serial ∙ settled-free t.callers t.system out;
    }
