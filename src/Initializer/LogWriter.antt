-- ===== src/Initializer/LogWriter.antt =====
-- initializer/parallelism/capturing_log_writer.go: the writer that captures what is logged to the
-- system-wide logger while tests run, with the stack trace of each message.
pub mod Laws
use zz_deprecated_kurtosis.Base.{
  ℕ, zero, suc, ◌*◌, List, [], ◌∷◌, ◌++◌, Option, none, some, ltb, if◌then◌else◌, Text, length,
  take,
}

pub record ErroneousSystemLogInfo : Type 0 where
  pub message : Text
  pub stacktrace : Text

pub record ErroneousSystemLogCaptureWriter : Type 0 where
  pub log_messages : List ErroneousSystemLogInfo

unfoldable pub new_erroneous_system_log_capture_writer : ErroneousSystemLogCaptureWriter
new_erroneous_system_log_capture_writer = record { log_messages = [] }

-- runtime.Stack fills a buffer of `size` bytes with the start of the trace.
abbrev runtime_stack : Text → ℕ → Text
runtime_stack trace size = take size trace

-- The loop over growing buffers, with fuel for the rounds.
unfoldable pub stacktrace_loop : ℕ → ℕ → Text → Option Text
stacktrace_loop zero size trace = none
stacktrace_loop (suc fuel) size trace =
    let larger = stacktrace_loop fuel (2 * size) trace in
    let written = runtime_stack trace size in
    if ltb (length written) size then some written else larger

unfoldable pub get_stacktrace_bytes : ℕ → Text → Option Text
get_stacktrace_bytes fuel trace = stacktrace_loop fuel 1024 trace

-- What Write makes of the stack trace that it took.
abbrev record_message :
    ErroneousSystemLogCaptureWriter
    → Text
    → Option Text
    → Option (ErroneousSystemLogCaptureWriter × ℕ)
record_message writer bytes none = none
record_message writer bytes (some stacktrace_bytes) =
    let log_info : ErroneousSystemLogInfo = record {
      message = bytes;
      stacktrace = stacktrace_bytes;
    } in
    some (record writer { log_messages = writer.log_messages ++ log_info ∷ [] }, length bytes)

-- A write under the lock; `trace` is the stack at the time of the call. It returns the number of
-- bytes, and no error; `none` only where the fuel for the buffer loop runs out.
unfoldable pub write :
    ℕ → Text → ErroneousSystemLogCaptureWriter → Text → Option (ErroneousSystemLogCaptureWriter × ℕ)
write fuel trace writer bytes = record_message writer bytes (get_stacktrace_bytes fuel trace)

copy_messages :
    List ErroneousSystemLogInfo → List ErroneousSystemLogInfo → List ErroneousSystemLogInfo
copy_messages result [] = result
copy_messages result (info ∷ more) = copy_messages (result ++ info ∷ []) more

unfoldable pub get_captured_messages : ErroneousSystemLogCaptureWriter → List ErroneousSystemLogInfo
unfolding copy_messages
get_captured_messages writer = copy_messages [] writer.log_messages
