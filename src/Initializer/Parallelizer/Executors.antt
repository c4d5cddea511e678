-- ===== src/Initializer/Parallelizer/Executors.antt =====
-- initializer/parallelism/test_executor_parallelizer.go: the parallelizer, and the executor that a
-- worker makes for each test.
use mathlib.Core.List.{append_cancel_left}
use zz_deprecated_kurtosis.Base.{
  some-inj, ℕ, ◌+◌, ◌*◌, ◌^◌, ◌<◌, ◌≡◌, ◌≢◌, sym, ap, ◌∙◌, Bool, Option, none, some, ◌∷◌, Text,
  Dict, lookup, IsDict, length, text_eq, ok, All,
}
use zz_deprecated_kurtosis.Net.Defs.{u32_mod}
use zz_deprecated_kurtosis.Networks.IpTracker.{FreeIpAddrTracker, new_free_ip_addr_tracker}
use zz_deprecated_kurtosis.Networks.IpTracker.History.{handed_out}
use zz_deprecated_kurtosis.Initializer.TestParams.{ParallelTestParams, build_test_params}
use zz_deprecated_kurtosis.Initializer.TestParams.Subnets.{
  Converts, subnet_start, place, placed, lookup-build_test_params,
}
use zz_deprecated_kurtosis.Initializer.TestParams.Isolation.{tests_share_no_address}
use zz_deprecated_kurtosis.Initializer.TestExecutor.{
  TestExecutor, new_test_executor, unique_test_identifier,
}

-- The Docker client is left out: it is the `Engine` of the executors.
pub record TestExecutorParallelizer : Type 0 where
  pub execution_id : Text
  pub test_controller_image_name : Text
  pub test_controller_log_level : Text
  pub custom_test_controller_env_vars : Dict Text Text
  pub parallelism : ℕ

unfoldable pub new_test_executor_parallelizer :
    Text → Text → Text → Dict Text Text → ℕ → TestExecutorParallelizer
new_test_executor_parallelizer execution_id test_controller_image_name test_controller_log_level
      custom_test_controller_env_vars parallelism =
    record {
      execution_id = execution_id;
      test_controller_image_name = test_controller_image_name;
      test_controller_log_level = test_controller_log_level;
      custom_test_controller_env_vars = custom_test_controller_env_vars;
      parallelism = parallelism;
    }

-- The call of newTestExecutor in the worker's loop.
unfoldable pub test_executor_of :
    {Test : Type 0} → TestExecutorParallelizer → ParallelTestParams Test → TestExecutor
test_executor_of executor test_params =
    new_test_executor executor.execution_id test_params.subnet_mask
      executor.test_controller_image_name executor.test_controller_log_level
      executor.custom_test_controller_env_vars test_params.test_name

placed-name :
    (to : ℕ → ℕ) (w : ℕ) {Test : Type 0} (id : Text) (idx : ℕ) (name : Text) (o : Option (ℕ × Test))
    (p : ParallelTestParams Test)
    → placed to w id idx name o none ≡ some p
    → p.test_name ≡ name
placed-name to w id idx name none p e = cc
placed-name to w id idx name (some (i, test)) p e = sym (ap (λ q. q.test_name) (some-inj e))

cons-inj : (c : ℕ) (s t : Text) → c ∷ s ≡ c ∷ t → s ≡ t
cons-inj c s t e = cc

-- What two executors do not share: the name of their network and volume, and every address.
pub record ApartFrom (e f : TestExecutor) : Type 0 where
  pub names : unique_test_identifier e ≢ unique_test_identifier f
  pub addresses :
      (m n : Dict Text Bool) (t u : FreeIpAddrTracker) (k l : ℕ)
      → new_free_ip_addr_tracker e.subnet_mask m ≡ ok t
      → new_free_ip_addr_tracker f.subnet_mask n ≡ ok u
      → All (λ s. All (λ r. s ≢ r) (handed_out l u)) (handed_out k t)

-- For a set of tests whose subnets, of `2 ^ w` addresses each, fit below 255.255.255.255: the
-- executors that the workers make for two different tests give their networks, and their volumes,
-- different names, and whatever trackers made from their subnets hand out, no address is handed out
-- for both.
pub test_executor_of-ApartFrom :
    (to : ℕ → ℕ) (w : ℕ) {Test : Type 0} (id : Text) (tests : Dict Text Test)
    (params : Dict Text (ParallelTestParams Test)) (a b : Text) (p q : ParallelTestParams Test)
    (executor : TestExecutorParallelizer)
    → Converts to
    → 0 < w
    → w < 32
    → IsDict tests
    → subnet_start + length tests * 2 ^ w < u32_mod
    → build_test_params to w id tests ≡ ok params
    → lookup a params ≡ some p
    → lookup b params ≡ some q
    → a ≢ b
    → ApartFrom (test_executor_of executor p) (test_executor_of executor q)
unfolding test_executor_of new_test_executor
test_executor_of-ApartFrom to w id tests params a b p q executor c h v d r e fa fb ne =
    let name_a : p.test_name ≡ a =
      placed-name to w id 0 a (place a tests) p
        (sym (lookup-build_test_params to w id tests params a d e) ∙ fa) in
    let name_b : q.test_name ≡ b =
      placed-name to w id 0 b (place b tests) q
        (sym (lookup-build_test_params to w id tests params b d e) ∙ fb) in
    record {
      names = λ same. ne (
          sym name_a
          ∙ (cons-inj b'-' p.test_name q.test_name
                (append_cancel_left executor.execution_id _ _ same)
              ∙ name_b));
      addresses = λ m n t u k l ma mb.
          tests_share_no_address to w id tests params a b p q m n t u k l c h v d r e fa fb ne ma
            mb;
    }
