-- ===== src/Initializer/Parallelizer/Signals/Sound.antt =====
-- Lemmas on the exit signals of initializer/parallelism/test_executor_parallelizer.go: what holds in
-- every state.
use zz_deprecated_kurtosis.Base.{
  ℕ, ◌<◌, ◌≡◌, sym, ap, subst, Bool, true, false, Option, none, some, arith, ◌||◌,
}
use zz_deprecated_kurtosis.Initializer.Parallelizer.Signals.{
  Listener, receiving, handling, gone, Stage, testing, closed_sigs, returned, Process, sigs_closed,
  SignalStep, send, drop, send_closed, receive, receive_closed, cancel, close_sigs, cancel_func,
  SignalSteps, here, next, listening,
}

abbrev pub holds_signal : Option ℕ → Bool
holds_signal none = false
holds_signal (some sig) = true

abbrev pub is_handling : Listener → Bool
is_handling receiving = false
is_handling (handling sig) = true
is_handling gone = false

abbrev pub is_gone : Listener → Bool
is_gone receiving = false
is_gone (handling sig) = false
is_gone gone = true

abbrev pub is_returned : Stage → Bool
is_returned testing = false
is_returned closed_sigs = false
is_returned returned = true

-- What holds in every state that the process reaches.
pub record IsSound (s : Process) : Type 0 where
  pub queued : holds_signal s.sigs ≡ true → 0 < s.delivered
  pub held : is_handling s.listener ≡ true → 0 < s.delivered
  pub caused : sigs_closed s.stage ≡ false → s.cancelled ≡ true → 0 < s.delivered
  pub acted : sigs_closed s.stage ≡ false → is_gone s.listener ≡ true → s.cancelled ≡ true
  pub kept :
      sigs_closed s.stage ≡ false
      → 0 < s.delivered
      → s.cancelled || (is_handling s.listener || holds_signal s.sigs) ≡ true
  pub cleaned : is_returned s.stage ≡ true → s.cancelled ≡ true
  pub late : s.panicked ≡ true → sigs_closed s.stage ≡ true

pub SignalStep-IsSound : {s t : Process} → SignalStep s t → IsSound s → IsSound t
SignalStep-IsSound {s} (send sig p c e f) v = subst IsSound (sym f) (record {
  queued = ground (arith, v.queued);
  held = ground (arith, v.held);
  caused = ground (arith, v.caused);
  acted = ground (arith, v.acted);
  kept = ground (arith, v.kept);
  cleaned = v.cleaned;
  late = v.late;
})
SignalStep-IsSound {s} (drop sig x p c e f) v = subst IsSound (sym f) (record {
  queued = ground (arith, v.queued);
  held = ground (arith, v.held);
  caused = ground (arith, v.caused);
  acted = ground (arith, v.acted);
  kept = ground (arith, ap holds_signal e);
  cleaned = v.cleaned;
  late = v.late;
})
SignalStep-IsSound {s} (send_closed sig p c f) v = subst IsSound (sym f) (record {
  queued = ground (arith, v.queued);
  held = ground (arith, v.held);
  caused = ground (arith, v.caused);
  acted = ground (arith, v.acted);
  kept = ground (arith, v.kept);
  cleaned = v.cleaned;
  late = λ h. c;
})
SignalStep-IsSound {s} (receive sig p l e f) v = subst IsSound (sym f) (record {
  queued = ground arith;
  held = ground (arith, v.queued, ap holds_signal e);
  caused = v.caused;
  acted = ground arith;
  kept = ground arith;
  cleaned = v.cleaned;
  late = v.late;
})
SignalStep-IsSound {s} (receive_closed p l e c f) v = subst IsSound (sym f) (record {
  queued = v.queued;
  held = ground arith;
  caused = v.caused;
  acted = ground arith;
  kept = ground arith;
  cleaned = v.cleaned;
  late = v.late;
})
SignalStep-IsSound {s} (cancel sig p l f) v = subst IsSound (sym f) (record {
  queued = v.queued;
  held = ground arith;
  caused = ground (arith, v.held, ap is_handling l);
  acted = ground arith;
  kept = ground arith;
  cleaned = ground arith;
  late = v.late;
})
SignalStep-IsSound {s} (close_sigs p g f) v = subst IsSound (sym f) (record {
  queued = v.queued;
  held = v.held;
  caused = ground arith;
  acted = ground arith;
  kept = ground arith;
  cleaned = ground arith;
  late = ground arith;
})
SignalStep-IsSound {s} (cancel_func p g f) v = subst IsSound (sym f) (record {
  queued = v.queued;
  held = v.held;
  caused = ground arith;
  acted = ground arith;
  kept = ground arith;
  cleaned = ground arith;
  late = ground arith;
})

listening-IsSound : IsSound listening
unfolding listening
listening-IsSound = record {
  queued = ground arith;
  held = ground arith;
  caused = ground arith;
  acted = ground arith;
  kept = λ c h. absurd (omega arith);
  cleaned = ground arith;
  late = ground arith;
}

pub SignalSteps-IsSound : {s : Process} → SignalSteps listening s → IsSound s
SignalSteps-IsSound here = listening-IsSound
SignalSteps-IsSound (next r st) = SignalStep-IsSound st (SignalSteps-IsSound r)
