-- ===== src/Initializer/OutputManager/Locking/Serial.antt =====
-- Lemmas on concurrent calls of logTestOutput of
-- initializer/parallelism/parallel_test_output_manager.go: what the mutex makes of them.
use mathlib.Core.List.{append-nil, append_assoc}
use zz_deprecated_kurtosis.Base.{
  ℕ, zero, suc, ◌+◌, ◌≤◌, ◌≡◌, refl, sym, ap, subst, ◌∙◌, List, [], ◌∷◌, ◌++◌, map, arith, Bool,
  true, false, Option, none, some, if◌then◌else◌,
}
use zz_deprecated_kurtosis.Initializer.OutputManager.{
  Logger, System, store_output, output_logger, print_to, print_or_panic, log_test_output,
}
use zz_deprecated_kurtosis.Initializer.OutputLines.{Line, report_lines}
use zz_deprecated_kurtosis.Initializer.OutputManager.Outcomes.{
  Report, log_report, log_all, then_log,
}
use zz_deprecated_kurtosis.Initializer.OutputManager.Locking.{
  output_for, Caller, waiting, checking, storing, choosing, printing, returned, LogCalls, BodyStep,
  check, store, choose, print, LogStep, lock, body, unlock, LogSteps, here, next, calling,
}

-- A call that holds the mutex counts 1.
abbrev pub inside : Caller → ℕ
inside (waiting r) = 0
inside returned = 0
inside (checking r) = 1
inside (storing b r) = 1
inside (choosing lines) = 1
inside (printing logger lines) = 1

abbrev pub holders : List Caller → ℕ
holders [] = 0
holders (c ∷ cs) = inside c + holders cs

-- What is left of a call, done at once.
abbrev rest : Caller → System → Option System
rest (waiting r) s = some s
rest returned s = some s
rest (checking r) s = log_report r s
rest (storing twice r) s =
    print_or_panic (report_lines (output_for twice r) r.logs)
      (store_output r.test_name (output_for twice r) s) (output_logger s)
rest (choosing lines) s = print_or_panic lines s (output_logger s)
rest (printing logger lines) s = some (print_to logger lines s)

abbrev choose_by : ℕ → Option System → Option System → Option System
choose_by zero others own = others
choose_by (suc n) others own = own

-- The state once the call that holds the mutex, if there is one, has ended.
abbrev settled : List Caller → System → Option System
settled [] s = some s
settled (c ∷ cs) s = choose_by (inside c) (settled cs s) (rest c s)

print_to-more :
    (logger : Logger) (line : Line) (lines : List Line) (s : System)
    → print_to logger lines (print_to logger (line ∷ []) s) ≡ print_to logger (line ∷ lines) s
print_to-more logger line lines s =
    ap (λ w. record s { written = w })
      (append_assoc s.written ((logger.out, line) ∷ []) (map (λ l. (logger.out, l)) lines))

print_to-none : (logger : Logger) (s : System) → print_to logger [] s ≡ s
print_to-none logger s = ap (λ w. record s { written = w }) (append-nil s.written)

-- A step inside the body is by the call that holds the mutex, which still holds it, and does not
-- change what the call comes to.
BodyStep-rest :
    {s t : System} {c d : Caller}
    → BodyStep s c t d
    → (inside c ≡ 1) × (inside d ≡ 1) × (rest d t ≡ rest c s)
unfolding log_test_output
BodyStep-rest check = (refl, refl, refl)
BodyStep-rest store = (refl, refl, refl)
BodyStep-rest {s} (choose {lines} logger e) = (refl, refl, sym (ap (print_or_panic lines s) e))
BodyStep-rest {s} (print {logger} {line} {lines}) =
    (refl, refl, ap some (print_to-more logger line lines s))

holders-append : (cs ds : List Caller) → holders (cs ++ ds) ≡ holders cs + holders ds
holders-append [] ds = omega arith
holders-append (c ∷ cs) ds = omega (arith, holders-append cs ds)

-- With nobody inside, nothing is left to do.
pub settled-free : (cs : List Caller) (s : System) → holders cs ≡ 0 → settled cs s ≡ some s
settled-free [] s h = refl
settled-free (waiting r ∷ cs) s h = settled-free cs s (omega arith)
settled-free (returned ∷ cs) s h = settled-free cs s (omega arith)
settled-free (checking r ∷ cs) s h = absurd (omega arith)
settled-free (storing b r ∷ cs) s h = absurd (omega arith)
settled-free (choosing lines ∷ cs) s h = absurd (omega arith)
settled-free (printing logger lines ∷ cs) s h = absurd (omega arith)

settled-at :
    (before after : List Caller) (c : Caller) (s : System)
    → holders before ≡ 0
    → inside c ≡ 1
    → settled (before ++ c ∷ after) s ≡ rest c s
settled-at [] after c s h i = ap (λ n. choose_by n (settled after s) (rest c s)) i
settled-at (b ∷ before) after c s h i =
    let out : inside b ≡ 0 = omega arith in
    ap (λ n. choose_by n (settled (before ++ c ∷ after) s) (rest b s)) out
    ∙ settled-at before after c s (omega arith) i

log_all-snoc :
    (rs : List Report) (r : Report) (s : System)
    → log_all (rs ++ r ∷ []) s ≡ then_log (log_report r) (log_all rs s)
unfolding log_all
log_all-snoc [] r s = last (log_report r s)
  where
    last : (o : Option System) → then_log (λ t. some t) o ≡ o
    last none = refl
    last (some t) = refl
log_all-snoc (q ∷ rs) r s = more (log_report q s) (log_all-snoc rs r)
  where
    more :
        (o : Option System)
        → ((t : System) → log_all (rs ++ r ∷ []) t ≡ then_log (log_report r) (log_all rs t))
        → then_log (log_all (rs ++ r ∷ [])) o ≡ then_log (log_report r) (then_log (log_all rs) o)
    more none h = refl
    more (some t) h = h t

-- The mutex is locked while one call holds it; and once that call has ended, the state is the one
-- that whole calls, one after the other in the order of the mutex, make.
pub record IsSerial (start : System) (s : LogCalls) : Type 0 where
  pub exclusive : holders s.callers ≡ (if s.locked then 1 else 0)
  pub serial : log_all s.admitted start ≡ settled s.callers s.system

pub at_most_one : (b : Bool) (n : ℕ) → n ≡ (if b then 1 else 0) → n ≤ 1
at_most_one true n e = omega arith
at_most_one false n e = omega arith

-- A call that holds the mutex is the only one.
alone :
    (before after : List Caller) (c : Caller) (s : LogCalls)
    → s.callers ≡ before ++ c ∷ after
    → inside c ≡ 1
    → holders s.callers ≡ (if s.locked then 1 else 0)
    → (holders before ≡ 0) × (holders after ≡ 0)
alone before after c s e held x =
    let split = sym (ap holders e) ∙ x in
    let parts = holders-append before (c ∷ after) in
    let few = at_most_one s.locked _ split in
    (omega (arith, parts, few, held), omega (arith, parts, few, held))

module _ {start : System} where
  lock-IsSerial :
      (s : LogCalls) (before after : List Caller) (r : Report)
      → s.locked ≡ false
      → s.callers ≡ before ++ waiting r ∷ after
      → IsSerial start s
      → IsSerial start (record s {
        locked = true;
        callers = before ++ checking r ∷ after;
        admitted = s.admitted ++ r ∷ [];
      })
  lock-IsSerial s before after r free e v =
      let none_inside : holders s.callers ≡ 0 = v.exclusive ∙ ap (λ b. if b then 1 else 0) free in
      let split = sym (ap holders e) ∙ none_inside in
      let parts = holders-append before (waiting r ∷ after) in
      record {
        exclusive = omega (arith, split, parts, holders-append before (checking r ∷ after));
        serial =
            log_all-snoc s.admitted r start
            ∙ (ap (then_log (log_report r)) (v.serial ∙ settled-free s.callers s.system none_inside)
                ∙ sym (
                    settled-at before after (checking r) s.system (omega (arith, split, parts))
                      refl));
      }

  body-IsSerial :
      (s : LogCalls) (before after : List Caller) {c d : Caller} {u : System}
      → BodyStep s.system c u d
      → s.callers ≡ before ++ c ∷ after
      → IsSerial start s
      → IsSerial start (record s { system = u; callers = before ++ d ∷ after })
  body-IsSerial s before after {c} {d} {u} st e v =
      let (held, holds, same) = BodyStep-rest st in
      let split = sym (ap holders e) ∙ v.exclusive in
      let parts = holders-append before (c ∷ after) in
      let (first, last) = alone before after c s e held v.exclusive in
      record {
        exclusive = omega (arith, split, parts, holders-append before (d ∷ after), held, holds);
        serial =
            v.serial
            ∙ (ap (λ cs. settled cs s.system) e
                ∙ (settled-at before after c s.system first held
                    ∙ (sym same ∙ sym (settled-at before after d u first holds))));
      }

  unlock-IsSerial :
      (s : LogCalls) (before after : List Caller) (logger : Logger)
      → s.callers ≡ before ++ printing logger [] ∷ after
      → IsSerial start s
      → IsSerial start (record s { locked = false; callers = before ++ returned ∷ after })
  unlock-IsSerial s before after logger e v =
      let (first, last) = alone before after (printing logger []) s e refl v.exclusive in
      let left : holders (before ++ returned ∷ after) ≡ 0 =
        omega (arith, first, last, holders-append before (returned ∷ after)) in
      record {
        exclusive = left;
        serial =
            v.serial
            ∙ (ap (λ cs. settled cs s.system) e
                ∙ (settled-at before after (printing logger []) s.system first refl
                    ∙ (ap some (print_to-none logger s.system)
                        ∙ sym (settled-free (before ++ returned ∷ after) s.system left))));
      }

  pub LogStep-IsSerial : {s t : LogCalls} → LogStep s t → IsSerial start s → IsSerial start t
  LogStep-IsSerial {s} (lock before after r free e f) v =
      subst (IsSerial start) (sym f) (lock-IsSerial s before after r free e v)
  LogStep-IsSerial {s} (body before after st e f) v =
      subst (IsSerial start) (sym f) (body-IsSerial s before after st e v)
  LogStep-IsSerial {s} (unlock before after logger e f) v =
      subst (IsSerial start) (sym f) (unlock-IsSerial s before after logger e v)

  pub LogSteps-IsSerial : {s t : LogCalls} → LogSteps s t → IsSerial start s → IsSerial start t
  LogSteps-IsSerial here v = v
  LogSteps-IsSerial (next r st) v = LogStep-IsSerial st (LogSteps-IsSerial r v)

holders-none : (rs : List Report) → holders (map waiting rs) ≡ 0
holders-none [] = refl
holders-none (r ∷ rs) = omega (arith, holders-none rs)

pub calling-IsSerial : (rs : List Report) (s : System) → IsSerial s (calling rs s)
unfolding calling log_all
calling-IsSerial rs s = record {
  exclusive = holders-none rs;
  serial = sym (settled-free (map waiting rs) s (holders-none rs));
}
