-- ===== src/Initializer/OutputManager/Interception.antt =====
-- Lemmas on initializer/parallelism/parallel_test_output_manager.go: the standard logger before,
-- during and after a run.
use mathlib.Core.List.{append-nil, append_assoc}
use zz_deprecated_kurtosis.Base.{
  ◌≡◌, refl, sym, ap, ◌∙◌, ◌≢◌, true, false, Option, none, some, List, [], ◌∷◌, ◌++◌, map, arith,
  All, All-append,
}
use zz_deprecated_kurtosis.Initializer.OutputManager.{
  Writer, interceptor, Logger, System, print_to, print_or_panic, output_logger, log_test_output,
  store_output, start_intercepting_std_logger, stop_intercepting_std_logger,
}
use zz_deprecated_kurtosis.Initializer.OutputLines.{Line}
use zz_deprecated_kurtosis.Initializer.OutputManager.Outcomes.{
  Report, output_of, log_report, log_all,
}

-- Interception is off, and the standard logger is any logger but the interceptor.
pub record IsOff (s : System) : Type 0 where
  pub flag : s.manager.is_intercepting_std_logger ≡ false
  pub outside : s.std_logger.out ≢ interceptor

-- Interception is on, with `logger` the standard logger from before.
pub record IsOn (logger : Logger) (s : System) : Type 0 where
  pub flag : s.manager.is_intercepting_std_logger ≡ true
  pub captured : s.std_logger ≡ record logger { out = interceptor }
  pub side : s.manager.side_channel_logger ≡ some logger
  pub before : s.manager.writer_before_management ≡ logger.out

start-IsOn : (s : System) → IsOff s → IsOn s.std_logger (start_intercepting_std_logger s)
unfolding start_intercepting_std_logger
start-IsOn s off = ground arith

-- What has been written since `s`, all of it to `w`.
pub record WroteTo (w : Writer) (s t : System) : Type 0 where
  pub lines : List (Writer × Line)
  pub added : t.written ≡ s.written ++ lines
  pub target : All (λ (l : Writer × Line). l.0 ≡ w) lines

to_writer :
    (w : Writer) (lines : List Line)
    → All (λ (l : Writer × Line). l.0 ≡ w) (map (λ l. (w, l)) lines)
to_writer w [] = tt
to_writer w (l ∷ lines) = (refl, to_writer w lines)

WroteTo-refl : (w : Writer) (s : System) → WroteTo w s s
WroteTo-refl w s = record { lines = []; added = sym (append-nil s.written); target = tt }

WroteTo-trans : (w : Writer) {s t u : System} → WroteTo w s t → WroteTo w t u → WroteTo w s u
WroteTo-trans w {s} first second = record {
  lines = first.lines ++ second.lines;
  added =
      second.added
      ∙ (ap (λ l. l ++ second.lines) first.added ∙ append_assoc s.written first.lines second.lines);
  target = All-append _ first.lines second.lines first.target second.target;
}

logger-IsOn : (logger : Logger) (s : System) → IsOn logger s → output_logger s ≡ some logger
logger-IsOn logger s on = ground arith

-- What a method that prints leaves: no panic, the interception as it was, all lines to `logger`.
record Printed (logger : Logger) (s : System) (result : Option System) : Type 0 where
  after : System
  returns : result ≡ some after
  still_on : IsOn logger after
  wrote : WroteTo logger.out s after

print-Printed :
    (logger : Logger) (lines : List Line) (s u : System)
    → IsOn logger s
    → IsOn logger u
    → u.written ≡ s.written
    → Printed logger s (print_or_panic lines u (output_logger s))
print-Printed logger lines s u on on' same = record {
  after = print_to logger lines u;
  returns = rw (logger-IsOn logger s on);
  still_on = record {
    flag = on'.flag;
    captured = on'.captured;
    side = on'.side;
    before = on'.before;
  };
  wrote = record {
    lines = map (λ l. (logger.out, l)) lines;
    added = ap (λ l. l ++ map (λ (l : Line). (logger.out, l)) lines) same;
    target = to_writer logger.out lines;
  };
}

-- A report during interception never meets a nil logger, and goes to the logger from before.
log_report-Printed :
    (logger : Logger) (s : System) (r : Report) → IsOn logger s → Printed logger s (log_report r s)
unfolding log_test_output
log_report-Printed logger s r on =
    print-Printed logger _ s (store_output r.test_name (output_of s.manager.test_outputs r) s) on
      (record { flag = on.flag; captured = on.captured; side = on.side; before = on.before }) refl

log_all-Printed :
    (logger : Logger) (rs : List Report) (s : System)
    → IsOn logger s
    → Printed logger s (log_all rs s)
unfolding log_all
log_all-Printed logger [] s on = record {
  after = s;
  returns = refl;
  still_on = on;
  wrote = WroteTo-refl logger.out s;
}
log_all-Printed logger (r ∷ rs) s on =
    let one = log_report-Printed logger s r on in
    let more = log_all-Printed logger rs one.after one.still_on in
    record {
      after = more.after;
      returns = rw one.returns more.returns;
      still_on = more.still_on;
      wrote = WroteTo-trans logger.out one.wrote more.wrote;
    }

abbrev pub then_stop : Option System → Option System
then_stop none = none
then_stop (some t) = some (stop_intercepting_std_logger t)

-- The run of the tests: interception on, the reports, interception off.
abbrev pub session : List Report → System → Option System
session rs s = then_stop (log_all rs (start_intercepting_std_logger s))

start-written : (s : System) → (start_intercepting_std_logger s).written ≡ s.written
unfolding start_intercepting_std_logger
start-written s = ground arith

stop-IsOn :
    (logger : Logger) (s : System)
    → IsOn logger s
    → ((stop_intercepting_std_logger s).std_logger ≡ logger)
      × ((stop_intercepting_std_logger s).manager.is_intercepting_std_logger ≡ false)
      × ((stop_intercepting_std_logger s).written ≡ s.written)
unfolding stop_intercepting_std_logger
stop-IsOn logger s on = ground arith

-- What a whole run leaves.
pub record Restored (s : System) (result : Option System) : Type 0 where
  pub after : System
  pub returns : result ≡ some after
  pub logger : after.std_logger ≡ s.std_logger
  pub off : IsOff after
  pub wrote : WroteTo s.std_logger.out s after

-- From a standard logger that is not intercepted, a run never meets a nil logger; all that the
-- manager prints during it goes to the writer of the standard logger from before; and in the end
-- the standard logger is what it was, with interception off.
pub session-Restored : (rs : List Report) (s : System) → IsOff s → Restored s (session rs s)
session-Restored rs s off =
    let printed =
      log_all-Printed s.std_logger rs (start_intercepting_std_logger s) (start-IsOn s off) in
    let (logger, flag, written) = stop-IsOn s.std_logger printed.after printed.still_on in
    record {
      after = stop_intercepting_std_logger printed.after;
      returns = rw printed.returns;
      logger = logger;
      off = record { flag = flag; outside = rw logger off.outside };
      wrote = record {
        lines = printed.wrote.lines;
        added =
            written ∙ (printed.wrote.added ∙ ap (λ l. l ++ printed.wrote.lines) (start-written s));
        target = printed.wrote.target;
      };
    }
