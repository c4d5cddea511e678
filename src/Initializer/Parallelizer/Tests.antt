-- ===== src/Initializer/Parallelizer/Tests.antt =====
-- Runs of the parallelizer with one worker, and its exit signals.
use zz_deprecated_kurtosis.Base.{
  ◌≡◌, refl, List, [], ◌∷◌, Bool, true, false, some, text_eq, ℕ, Text, Dict, codes, lookup, insert,
  text_beq, IsDict, All, ok, arith,
}
use zz_deprecated_kurtosis.Net.Defs.{u32, uint32, put_uint32}
use zz_deprecated_kurtosis.Net.Decimal.{dec_text, dtoi}
use zz_deprecated_kurtosis.Net.Cidr.{quad_text, parse_ip, parse_ipv4, parse_byte, skip_dot}
use zz_deprecated_kurtosis.Initializer.TestParams.{
  ParallelTestParams, new_parallel_test_params, subnet_cidr_str, params_loop, build_test_params,
  subnet_start_addr,
}
use zz_deprecated_kurtosis.Initializer.TestParams.Subnets.{Converts}
use zz_deprecated_kurtosis.Initializer.TestExecutor.RunTest.{Race, in_time, lost}
use zz_deprecated_kurtosis.Initializer.Parallelizer.Signals.{
  Process, receiving, testing, SignalStep, SignalSteps, send, drop, listening,
}
use zz_deprecated_kurtosis.Initializer.Parallelizer.Signals as Signals
use zz_deprecated_kurtosis.Initializer.Parallelizer.Signals.Handling.{Handled, signals-Handled}
use zz_deprecated_kurtosis.Initializer.Parallelizer.Turns.Leftovers.{Clean}
use zz_deprecated_kurtosis.Initializer.Parallelizer.Turns.CleanUp.{Among, worker_goroutine-Clean}
use zz_deprecated_kurtosis.Initializer.Parallelizer.Sample.{
  engine, files, exists, one_file, params, parallelizer,
}

-- A conversion that wraps.
u32-Converts : Converts u32
u32-Converts n h = omega arith

abbrev suite : Dict Text ℕ
suite = (codes "a", 1) ∷ []

suite-IsDict : IsDict suite
unfolding lookup
suite-IsDict = (refl, tt)

built : build_test_params u32 2 (codes "run") suite ≡ ok ((codes "a", params) ∷ [])
unfolding build_test_params params_loop new_parallel_test_params subnet_cidr_str lookup insert
    text_beq quad_text dec_text put_uint32 parse_ip parse_ipv4 parse_byte dtoi subnet_start_addr
    skip_dot uint32
built = refl

abbrev turns : List (ParallelTestParams ℕ × Race Bool)
turns = (params, in_time) ∷ (params, lost true) ∷ []

turns-Among : All (Among ((codes "a", params) ∷ [])) turns
unfolding lookup text_beq
turns-Among = ((codes "a", refl), ((codes "a", refl), tt))

-- A worker takes a test that passes, and then one that never ends.
worker_goroutine-Clean_example : Clean files exists engine parallelizer turns false
worker_goroutine-Clean_example =
    worker_goroutine-Clean u32 2 (codes "run") suite ((codes "a", params) ∷ []) files exists engine
      parallelizer turns false u32-Converts (omega arith) (omega arith) suite-IsDict (omega arith)
      built one_file turns-Among

-- Two signals while the tests run: the first waits in the channel, the second is dropped.
abbrev two_sent : Process
two_sent = record listening { sigs = some 2; delivered = 2 }

two_signals : SignalSteps listening two_sent
unfolding listening
two_signals =
    Signals.next (Signals.next Signals.here (send 2 refl refl refl refl))
      (drop 15 2 refl refl refl refl)

not_panicked : two_sent.panicked ≡ false
unfolding listening
not_panicked = refl

signals-Handled_example : Handled two_sent
signals-Handled_example = signals-Handled two_sent two_signals not_panicked
