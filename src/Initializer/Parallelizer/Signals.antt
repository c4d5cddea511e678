-- ===== src/Initializer/Parallelizer/Signals.antt =====
-- RunInParallelAndPrintResults of initializer/parallelism/test_executor_parallelizer.go: the channel
-- of exit signals, the goroutine that listens to it, and the context that the tests run in. The
-- operating system sends signals at any time; the channel has room for one, and signal.Notify drops
-- a signal that finds no room. The channel is never unregistered, so a signal that comes after the
-- deferred `close(sigs)` is sent on a closed channel, which panics.
pub mod Sound
pub mod Handling
use zz_deprecated_kurtosis.Base.{ℕ, suc, Bool, true, false, Option, none, some, ◌≡◌}

-- The listener: at `<-sigs`, past it with a signal, and after its return.
pub data Listener : Type 0 where
  receiving : Listener
  handling : (sig : ℕ) → Listener
  gone : Listener

-- The function: up to the return of getAllTestsPassed, and after each of its deferred calls, which
-- run last first, `close(sigs)` and then `cancelFunc()`.
pub data Stage : Type 0 where
  testing closed_sigs returned : Stage

-- `delivered` counts the signals that were sent, whether or not they found room.
pub record Process : Type 0 where
  pub sigs : Option ℕ
  pub listener : Listener
  pub cancelled : Bool
  pub stage : Stage
  pub panicked : Bool
  pub delivered : ℕ

-- Only the deferred call closes the channel.
abbrev pub sigs_closed : Stage → Bool
sigs_closed testing = false
sigs_closed closed_sigs = true
sigs_closed returned = true

-- A step of the operating system, the listener or the function; after a panic there is none.
pub data SignalStep (s t : Process) : Type 0 where
  send :
      (sig : ℕ)
      → s.panicked ≡ false
      → sigs_closed s.stage ≡ false
      → s.sigs ≡ none
      → t ≡ record s { sigs = some sig; delivered = suc s.delivered }
      → SignalStep s t
  drop :
      (sig waiting : ℕ)
      → s.panicked ≡ false
      → sigs_closed s.stage ≡ false
      → s.sigs ≡ some waiting
      → t ≡ record s { delivered = suc s.delivered }
      → SignalStep s t
  send_closed :
      (sig : ℕ)
      → s.panicked ≡ false
      → sigs_closed s.stage ≡ true
      → t ≡ record s { panicked = true; delivered = suc s.delivered }
      → SignalStep s t
  receive :
      (sig : ℕ)
      → s.panicked ≡ false
      → s.listener ≡ receiving
      → s.sigs ≡ some sig
      → t ≡ record s { sigs = none; listener = handling sig }
      → SignalStep s t
  receive_closed :
      s.panicked ≡ false
      → s.listener ≡ receiving
      → s.sigs ≡ none
      → sigs_closed s.stage ≡ true
      → t ≡ record s { listener = gone }
      → SignalStep s t
  cancel :
      (sig : ℕ)
      → s.panicked ≡ false
      → s.listener ≡ handling sig
      → t ≡ record s { cancelled = true; listener = gone }
      → SignalStep s t
  close_sigs :
      s.panicked ≡ false → s.stage ≡ testing → t ≡ record s { stage = closed_sigs } → SignalStep s t
  cancel_func :
      s.panicked ≡ false
      → s.stage ≡ closed_sigs
      → t ≡ record s { cancelled = true; stage = returned }
      → SignalStep s t

pub data SignalSteps (s : Process) : Process → Type 0 where
  here : SignalSteps s s
  next : {t u : Process} → SignalSteps s t → SignalStep t u → SignalSteps s u

-- Once the listener is started.
unfoldable pub listening : Process
listening = record {
  sigs = none;
  listener = receiving;
  cancelled = false;
  stage = testing;
  panicked = false;
  delivered = 0;
}
