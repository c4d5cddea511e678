-- ===== src/Initializer/LogWriter/Laws.antt =====
-- Lemmas on initializer/parallelism/capturing_log_writer.go: the buffer loop and the messages.
use mathlib.Core.List.{append-nil, append_assoc}
use zz_deprecated_kurtosis.Base.{
  ℕ, zero, suc, ◌*◌, ◌^◌, ◌<◌, ◌≡◌, ap, sym, ◌∙◌, [], ◌∷◌, ◌++◌, List, some, arith, Text, length,
  dec_lt, take_all, length-take_full,
}
use native.Mathlib.Nat.{pow-suc}
use zz_deprecated_kurtosis.Initializer.LogWriter.{
  ErroneousSystemLogInfo, ErroneousSystemLogCaptureWriter, stacktrace_loop, get_stacktrace_bytes,
  write, copy_messages, get_captured_messages,
}

stacktrace_loop_whole :
    (fuel size : ℕ) (trace : Text)
    → length trace < size * 2 ^ fuel
    → stacktrace_loop (suc fuel) size trace ≡ some trace
unfolding stacktrace_loop
stacktrace_loop_whole zero size trace h = ground (arith, take_all size trace)
stacktrace_loop_whole (suc fuel) size trace h = elim (dec_lt (length trace) size) [
  | yes small ↦ ground (arith, take_all size trace)
  | no large ↦ ground (
    arith,
    length-take_full size trace,
    stacktrace_loop_whole fuel (2 * size) trace,
    doubled size fuel,
  )
]
  where
    doubled : (s f : ℕ) → 2 * s * 2 ^ f ≡ s * 2 ^ suc f
    doubled s f = omega (arith, pow-suc 2 f, ap (λ (t : ℕ). s * t) (pow-suc 2 f))

-- With fuel for `rounds + 1` buffers, of which the last has 1024 * 2 ^ rounds bytes, more than the
-- trace, the loop ends and gives the whole trace.
get_stacktrace_bytes_whole :
    (rounds : ℕ) (trace : Text)
    → length trace < 1024 * 2 ^ rounds
    → get_stacktrace_bytes (suc rounds) trace ≡ some trace
unfolding get_stacktrace_bytes
get_stacktrace_bytes_whole rounds trace h = stacktrace_loop_whole rounds 1024 trace h

copy_messages-append :
    (result l : List ErroneousSystemLogInfo) → copy_messages result l ≡ result ++ l
unfolding copy_messages
copy_messages-append result [] = sym (append-nil result)
copy_messages-append result (info ∷ more) =
    copy_messages-append (result ++ info ∷ []) more ∙ append_assoc result (info ∷ []) more

get_captured_messages-eq :
    (writer : ErroneousSystemLogCaptureWriter) → get_captured_messages writer ≡ writer.log_messages
unfolding get_captured_messages
get_captured_messages-eq writer = copy_messages-append [] writer.log_messages

-- With fuel for a buffer larger than the trace a write succeeds: it adds its message, with the
-- whole trace, behind all that were captured before, and reports all its bytes as written.
pub captured-write :
    (rounds : ℕ) (trace : Text) (writer : ErroneousSystemLogCaptureWriter) (bytes : Text)
    → length trace < 1024 * 2 ^ rounds
    → (after : ErroneousSystemLogCaptureWriter) × (write (suc rounds) trace writer bytes
        ≡ some (after, length bytes))
      × (get_captured_messages after
          ≡ get_captured_messages writer ++ record { message = bytes; stacktrace = trace } ∷ [])
unfolding write
captured-write rounds trace writer bytes h = (
  record writer {
    log_messages = writer.log_messages ++ record { message = bytes; stacktrace = trace } ∷ [];
  },
  rw (get_stacktrace_bytes_whole rounds trace h),
  simp get_captured_messages-eq,
)
