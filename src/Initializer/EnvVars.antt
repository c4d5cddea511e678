-- ===== src/Initializer/EnvVars.antt =====
-- initializer/parallelism/test_executor.go: the environment variables of the test controller.
pub mod Laws
use zz_deprecated_kurtosis.Base.{
  List, [], ◌∷◌, if◌then◌else◌, Text, codes, Dict, lookup, insert, found, text_eq, failed, Result,
  ok, err, Site,
}
use zz_deprecated_kurtosis.Net.Defs.{Ip}
use zz_deprecated_kurtosis.Net.Cidr.{ip_text}

-- The arguments of generateTestControllerEnvVariables but the last.
pub record ControllerArgs : Type 0 where
  pub network_id : Text
  pub subnet_mask : Text
  pub gateway_ip : Ip
  pub controller_ip_addr : Ip
  pub test_name : Text
  pub log_level : Text
  pub test_volume_name : Text

abbrev pub controller_log_mount_filepath : Text
controller_log_mount_filepath = codes "/test-controller.log"

abbrev pub test_volume_mountpoint : Text
test_volume_mountpoint = codes "/shared"

unfoldable pub standard_vars : ControllerArgs → Dict Text Text
standard_vars args =
    (codes "TEST_NAME", args.test_name)
    ∷ (codes "SUBNET_MASK", args.subnet_mask)
    ∷ (codes "NETWORK_ID", args.network_id)
    ∷ (codes "GATEWAY_IP", ip_text args.gateway_ip)
    ∷ (codes "LOG_FILEPATH", controller_log_mount_filepath)
    ∷ (codes "LOG_LEVEL", args.log_level)
    ∷ (codes "TEST_CONTROLLER_IP", ip_text args.controller_ip_addr)
    ∷ (codes "TEST_VOLUME", args.test_volume_name)
    ∷ (codes "TEST_VOLUME_MOUNTPOINT", test_volume_mountpoint)
    ∷ []

-- The loop over the custom variables.
unfoldable pub add_custom : Dict Text Text → Dict Text Text → Result (Dict Text Text)
add_custom vars [] = ok vars
add_custom vars ((key, val) ∷ more) =
    let rest = add_custom (insert key val vars) more in
    if found (lookup key vars) then err (failed (Site.env_var_in_use key)) else rest

unfoldable pub generate_test_controller_env_variables :
    ControllerArgs → Dict Text Text → Result (Dict Text Text)
generate_test_controller_env_variables args custom_env_vars =
    add_custom (standard_vars args) custom_env_vars
