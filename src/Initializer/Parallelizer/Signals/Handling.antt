-- ===== src/Initializer/Parallelizer/Signals/Handling.antt =====
-- Lemmas on the exit signals of initializer/parallelism/test_executor_parallelizer.go: what signals
-- do, and when.
use zz_deprecated_kurtosis.Base.{ℕ, ◌<◌, ◌≡◌, refl, ap, true, false, Option, none, some, arith}
use zz_deprecated_kurtosis.Initializer.Parallelizer.Signals.{
  Listener, receiving, handling, gone, Stage, testing, closed_sigs, returned, Process, sigs_closed,
  SignalStep, receive, receive_closed, cancel, close_sigs, cancel_func, SignalSteps, here, next,
  listening,
}
use zz_deprecated_kurtosis.Initializer.Parallelizer.Signals.Sound.{
  holds_signal, is_handling, is_gone, is_returned, IsSound, SignalStep-IsSound, SignalSteps-IsSound,
}

-- A signal that was sent is on its way to the context.
reach_cancel :
    (s : Process)
    → IsSound s
    → s.panicked ≡ false
    → s.stage ≡ testing
    → 0 < s.delivered
    → (t : Process) × SignalSteps s t × (t.stage ≡ testing) × (t.cancelled ≡ true)
reach_cancel s v p g d = by_listener s.listener s.sigs refl refl
  where
    open_yet : sigs_closed s.stage ≡ false
    open_yet = ap sigs_closed g

    by_listener :
        (l : Listener) (o : Option ℕ)
        → s.listener ≡ l
        → s.sigs ≡ o
        → (t : Process) × SignalSteps s t × (t.stage ≡ testing) × (t.cancelled ≡ true)
    by_listener (handling sig) o e f = (_, next here (cancel sig p e refl), g, refl)
    by_listener gone o e f = (s, here, g, v.acted open_yet (ap is_gone e))
    by_listener receiving (some sig) e f =
        (_, next (next here (receive sig p e f refl)) (cancel sig p refl refl), g, refl)
    by_listener receiving none e f =
        let here_now : s.cancelled ≡ true =
          ground (arith, v.kept open_yet d, ap is_handling e, ap holds_signal f) in
        (s, here, g, here_now)

-- The function returns, and the listener with it.
pub record Over (s : Process) : Type 0 where
  pub end : Process
  pub run : SignalSteps s end
  pub returned_now : end.stage ≡ returned
  pub listener_gone : end.listener ≡ gone
  pub context_cancelled : end.cancelled ≡ true

Over-next : {s t : Process} → SignalStep s t → Over t → Over s
Over-next st o = record {
  end = o.end;
  run = before_all st o.run;
  returned_now = o.returned_now;
  listener_gone = o.listener_gone;
  context_cancelled = o.context_cancelled;
}
  where
    before_all : {s t u : Process} → SignalStep s t → SignalSteps t u → SignalSteps s u
    before_all first here = next here first
    before_all first (next r last) = next (before_all first r) last

Over-handling :
    (sig : ℕ) (s : Process)
    → s.panicked ≡ false
    → s.stage ≡ returned
    → s.listener ≡ handling sig
    → Over s
Over-handling sig s p g l = record {
  end = record s { cancelled = true; listener = gone };
  run = next here (cancel sig p l refl);
  returned_now = g;
  listener_gone = refl;
  context_cancelled = refl;
}

Over-returned : (s : Process) → IsSound s → s.panicked ≡ false → s.stage ≡ returned → Over s
Over-returned s v p g = by_listener s.listener s.sigs refl refl
  where
    cancelled_now : s.cancelled ≡ true
    cancelled_now = v.cleaned (ap is_returned g)

    by_listener : (l : Listener) (o : Option ℕ) → s.listener ≡ l → s.sigs ≡ o → Over s
    by_listener (handling sig) o e f = Over-handling sig s p g e
    by_listener gone o e f = record {
      end = s;
      run = here;
      returned_now = g;
      listener_gone = e;
      context_cancelled = cancelled_now;
    }
    by_listener receiving (some sig) e f =
        Over-next (receive sig p e f refl) (Over-handling sig _ p g refl)
    by_listener receiving none e f = record {
      end = record s { listener = gone };
      run = next here (receive_closed p e f (ap sigs_closed g) refl);
      returned_now = g;
      listener_gone = refl;
      context_cancelled = cancelled_now;
    }

Over-closed : (s : Process) → IsSound s → s.panicked ≡ false → s.stage ≡ closed_sigs → Over s
Over-closed s v p g =
    let st = cancel_func p g refl in Over-next st (Over-returned _ (SignalStep-IsSound st v) p refl)

Over-any : (s : Process) (stage : Stage) → IsSound s → s.panicked ≡ false → s.stage ≡ stage → Over s
Over-any s testing v p g =
    let st = close_sigs p g refl in Over-next st (Over-closed _ (SignalStep-IsSound st v) p refl)
Over-any s closed_sigs v p g = Over-closed s v p g
Over-any s returned v p g = Over-returned s v p g

-- What exit signals do to a run that has not crashed.
pub record Handled (s : Process) : Type 0 where
  pub caused : s.stage ≡ testing → s.cancelled ≡ true → 0 < s.delivered
  pub effective :
      s.stage ≡ testing
      → 0 < s.delivered
      → (t : Process) × SignalSteps s t × (t.stage ≡ testing) × (t.cancelled ≡ true)
  pub over : Over s

-- In every state that a run reaches without a crash, however many signals were sent and whenever:
-- while the tests are running their context is cancelled only if a signal was sent; once one was
-- sent, the listener can take it and cancel the context before the tests end, even if it had to wait
-- in the channel or others were dropped; and the function can return, with its context cancelled and
-- the listener returned as well.
pub signals-Handled : (s : Process) → SignalSteps listening s → s.panicked ≡ false → Handled s
signals-Handled s r p =
    let v = SignalSteps-IsSound r in
    record {
      caused = λ g. v.caused (ap sigs_closed g);
      effective = λ g. reach_cancel s v p g;
      over = Over-any s s.stage v p refl;
    }
