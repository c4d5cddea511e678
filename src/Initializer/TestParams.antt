-- ===== src/Initializer/TestParams.antt =====
-- initializer/parallelism/parallel_test_params.go and buildTestParams of
-- initializer/test_suite_runner.go: which test runs on which subnet.
pub mod Subnets
pub mod Isolation
use zz_deprecated_kurtosis.Base.{
  ℕ, suc, ◌+◌, ◌-◌, ◌*◌, ◌^◌, [], ◌∷◌, ◌++◌, none, some, Text, codes, Dict, insert, text_eq, Result,
  ok, err, failed, Site,
}
use zz_deprecated_kurtosis.Net.Defs.{Ip, ip4, ip16, uint32, put_uint32, u32, u32_mod}
use zz_deprecated_kurtosis.Net.Decimal.{dec_text}
use zz_deprecated_kurtosis.Net.Cidr.{ip_text, parse_ip}

pub record ParallelTestParams (Test : Type 0) : Type 0 where
  pub test_name : Text
  pub test : Test
  pub subnet_mask : Text
  pub execution_instance_id : Text

unfoldable pub new_parallel_test_params :
    {Test : Type 0} → Text → Test → Text → Text → ParallelTestParams Test
new_parallel_test_params test_name test subnet_mask execution_instance_id = record {
  test_name = test_name;
  test = test;
  subnet_mask = subnet_mask;
  execution_instance_id = execution_instance_id;
}

unfoldable pub subnet_start_addr : Text
subnet_start_addr = codes "172.23.0.0"

abbrev pub bits_in_ip4_addr : ℕ
bits_in_ip4_addr = 32

-- The address in 4 or 16 bytes.
abbrev subnet_start_int : Ip → ℕ
subnet_start_int (ip4 q) = uint32 q
subnet_start_int (ip16 head q) = uint32 q

-- The language fixes the conversion of a float64 to uint32 only where the value fits, so it is a
-- parameter: `float_to_uint32 n` converts the float64 of the whole number `n`.
module _ (float_to_uint32 : ℕ → ℕ) (network_width_bits : ℕ) where
  -- `BITS_IN_IP4_ADDR - networkWidthBits` on uint32
  abbrev pub subnet_mask_bits : ℕ
  subnet_mask_bits = u32 (bits_in_ip4_addr + u32_mod - network_width_bits)

  -- The text of the subnet of the test with a given index.
  unfoldable pub subnet_cidr_str : ℕ → ℕ → Text
  subnet_cidr_str start test_index =
      let subnet_ip_int =
        u32 (start + u32 (u32 test_index * float_to_uint32 (2 ^ network_width_bits))) in
      ip_text (ip4 (put_uint32 subnet_ip_int)) ++ b'/' ∷ dec_text subnet_mask_bits

  -- The loop over the tests, in the order in which the map is visited.
  unfoldable pub params_loop :
      {Test : Type 0}
      → Text
      → ℕ
      → ℕ
      → Dict Text Test
      → Dict Text (ParallelTestParams Test)
      → Dict Text (ParallelTestParams Test)
  unfolding new_parallel_test_params
  params_loop execution_id start test_index [] params = params
  params_loop execution_id start test_index ((test_name, test) ∷ more) params =
      params_loop execution_id start (suc test_index) more (
        insert test_name
          (new_parallel_test_params test_name test (subnet_cidr_str start test_index) execution_id)
          params)

  unfoldable pub build_test_params :
      {Test : Type 0} → Text → Dict Text Test → Result (Dict Text (ParallelTestParams Test))
  build_test_params execution_instance_id tests_to_run = elim (parse_ip subnet_start_addr) [
    | none ↦ err (failed Site.subnet_start)
    | some ip ↦ ok (params_loop execution_instance_id (subnet_start_int ip) 0 tests_to_run [])
  ]
