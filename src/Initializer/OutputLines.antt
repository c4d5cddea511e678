-- ===== src/Initializer/OutputLines.antt =====
-- initializer/parallelism/parallel_test_output_manager.go: the lines that it prints of a test, of a
-- run, and of the messages that the system-wide logger was given meanwhile.
use zz_deprecated_kurtosis.Base.{
  ℕ, suc, List, [], ◌∷◌, ◌++◌, map, Bool, true, false, not, Option, none, some, if◌then◌else◌, Text,
  codes, text_eq, Error,
}
use zz_deprecated_kurtosis.Net.Decimal.{dec_text}
use zz_deprecated_kurtosis.Initializer.LogWriter.{ErroneousSystemLogInfo}

-- Where a logger writes to: nowhere yet, the interceptor of the manager, or some other writer.

pub data TestStatus : Type 0 where
  passed failed_test errored : TestStatus

pub record ParallelTestOutput : Type 0 where
  pub test_name : Text
  pub execution_err : Option Error
  pub test_passed : Bool

-- Calls made to a logger: Info, Error, and direct writes to its `Out`. An error value is printed by
-- its own code, so the lines that print one hold the error.
pub data Line : Type 0 where
  info error_line raw : Text → Line
  error_reason raw_error : Error → Line

-- `log_test_name_banner_as_error`, `log_all_test_results_as_error`
abbrev pub banner_as_error : Bool
banner_as_error = false

abbrev erroneous_logs_as_error : Bool
erroneous_logs_as_error = true

abbrev banner_string : Text
banner_string =
    codes
      "=================================================================================================="

abbrev banner_indent : Text
banner_indent = codes "                                     "

unfoldable pub print_banner : Text → Bool → List Line
print_banner contents is_error =
    let content_string = banner_indent ++ contents in
    if not is_error
    then info [] ∷ info banner_string ∷ info content_string ∷ info banner_string ∷ []
    else error_line []
      ∷ error_line banner_string
      ∷ error_line content_string
      ∷ error_line banner_string
      ∷ []

unfoldable pub get_test_status_from_result : Option Error → Bool → TestStatus
get_test_status_from_result (some e) test_passed = errored
get_test_status_from_result none true = passed
get_test_status_from_result none false = failed_test

abbrev pub status_text : TestStatus → Text
status_text passed = codes "PASSED"
status_text failed_test = codes "FAILED"
status_text errored = codes "ERRORED"

-- "Test %v %v"
abbrev pub test_line : Text → TestStatus → Text
test_line test_name status = codes "Test " ++ (test_name ++ (codes " " ++ status_text status))

abbrev reason_lines : Option Error → List Line
reason_lines none = []
reason_lines (some e) = error_reason e ∷ []

-- The `switch` on the status of the test.
abbrev status_lines : Text → Option Error → TestStatus → List Line
status_lines test_name execution_err errored =
    error_line (test_line test_name errored) ∷ reason_lines execution_err
status_lines test_name execution_err passed = info (test_line test_name passed) ∷ []
status_lines test_name execution_err failed_test = error_line (test_line test_name failed_test) ∷ []

-- The logs of a test as its reader gives them: what io.Copy copies, and its error.
pub record TestLogs : Type 0 where
  pub content : Text
  pub copy_err : Option Error

abbrev copy_lines : TestLogs → List Line
copy_lines logs = raw logs.content ∷ (elim logs.copy_err [
  | none ↦ []
  | some e ↦
      error_line (
        codes
          "An error occurred copying the test's logfile to STDOUT; the logs above may not be complete!")
      ∷ raw_error e
      ∷ []
])

abbrev pub report_lines : ParallelTestOutput → TestLogs → List Line
report_lines output logs =
    print_banner output.test_name banner_as_error
    ++ (copy_lines logs
        ++ status_lines output.test_name output.execution_err
            (get_test_status_from_result output.execution_err output.test_passed))

-- "- %v: %v"
abbrev summary_text : Text → TestStatus → Text
summary_text test_name status = codes "- " ++ (test_name ++ (codes ": " ++ status_text status))

abbrev pub is_passed : TestStatus → Bool
is_passed passed = true
is_passed failed_test = false
is_passed errored = false

unfoldable pub summary_line : Text × ParallelTestOutput → Line
summary_line (test_name, output) =
    let status = get_test_status_from_result output.execution_err output.test_passed in
    let log_str = summary_text test_name status in
    if is_passed status then info log_str else error_line log_str

-- One captured message with its number.
abbrev captured_lines : ℕ → ErroneousSystemLogInfo → List Line
captured_lines number message_info =
    error_line (
      codes "----------------- Erroneous Message #"
      ++ (dec_text number ++ codes " -------------------"))
    ∷ error_line (codes "Message:")
    ∷ raw message_info.message
    ∷ raw (10 ∷ [])
    ∷ error_line []
    ∷ error_line (codes "Stacktrace:")
    ∷ raw message_info.stacktrace
    ∷ raw (10 ∷ [])
    ∷ []

unfoldable pub all_captured_lines : ℕ → List ErroneousSystemLogInfo → List Line
all_captured_lines number [] = []
all_captured_lines number (message_info ∷ more) =
    captured_lines number message_info ++ all_captured_lines (suc number) more

abbrev warning_lines : List Line
warning_lines = map error_line (
    codes
      "There were log messages printed to the system-level logger during parallel test execution!"
    ∷ codes
        "Because the system-level logger is shared and the tests run in parallel, the messages cannot be"
    ∷ codes " attributed to any specific test. This is:"
    ∷ codes
        "   1) A bug in Kurtosis, and a system-level logger call was used when a test-specific logger"
    ∷ codes "       should have been used (likely)"
    ∷ codes
        "   2) Third-party code calling logrus independently, and there's nothing we can do (unlikely, but possible)"
    ∷ []
    ∷ codes
        "The log message(s) attempted, and the stacktrace(s) of origination, are as follows in the order they were logged:"
    ∷ []
    ∷ [])

unfoldable pub log_erroneous_system_logging : List ErroneousSystemLogInfo → List Line
log_erroneous_system_logging [] = []
log_erroneous_system_logging (message_info ∷ more) =
    print_banner (codes "Erroneous Logs") erroneous_logs_as_error
    ++ (warning_lines ++ all_captured_lines 1 (message_info ∷ more))
