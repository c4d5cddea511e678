-- ===== src/Controller/Context.antt =====
-- commons/testsuite/test_context.go: how a test ends. An error is an option, since Go's may be nil.
use zz_deprecated_kurtosis.Base.{Bool, true, false, Option, none, some, Error}

-- A test returns, or it panics: with an error, with nil, or with a value that is no error.
pub data Ending : Type 0 where
  returned panicked_nil panicked_other : Ending
  panicked : Error → Ending

-- panic(err)
unfoldable pub fail_test : Option Error → Ending
fail_test none = panicked_nil
fail_test (some e) = panicked e

abbrev pub fatal : Option Error → Ending
fatal e = fail_test e

-- `rest` is how the test ends after an assertion that holds.
abbrev pub assert_true : Bool → Option Error → Ending → Ending
assert_true true e rest = rest
assert_true false e rest = fail_test e
