-- ===== src/Base/Errors.antt =====
-- Go's `(value, error)` results. A result holds the value or the error, never both.
use mathlib.Core.Option.{Option, none, some}
use mathlib.Core.Path.{◌≡◌}
use Prim.Native.Nat.{ℕ}
use zz_deprecated_kurtosis.Base.Keys.{Text}

-- The places of the source that make or wrap an error, named after their messages.
pub data Site : Type 0 where
  parse_subnet all_taken subnet_start temp_log_file make_service_dir create_file start_command
        start_container new_docker_manager create_tracker gateway_addr create_network
        controller_addr running_test create_volume controller_log_file env_variables run_controller
        wait_for_controller open_controller_log startup_cancelled startup_timeout startup_unknown
        nil_dependencies allocate_ip check_network network_create inspect_network stop_container
        network_remove volume_create check_image list_images pull list_networks pull_image
        container_create connect_container connect start wait_exit nonexistent_loader
        configure_network docker_client initialize_network wrap_network test_timeout
        controller_tracker build_params total_timeout :
      Site
  logged_twice no_configuration service_exists no_dependency creating_service no_service no_test
        network_exists no_network no_such_test startup_of configuration_exists env_var_in_use :
      Text → Site

-- `external` is an error of code outside the repository, `parse_error` is
-- net.ParseError; `failed` is stacktrace.NewError, and
-- `propagated` is stacktrace.Propagate.
pub data Error : Type 0 where
  external : ℕ → Error
  parse_error : Error
  failed : Site → Error
  propagated : Site → Error → Error

pub data Result {ℓ} (A : Type ℓ) : Type ℓ where
  err : Error → Result A
  ok : A → Result A

-- The next call of a chain, which an error leaves.
infixl 5 ◌>>=◌
abbrev pub ◌>>=◌ {ℓ κ} : {V : Type ℓ} {U : Type κ} → Result V → (V → Result U) → Result U
err failure >>= later = err failure
ok value >>= later = later value

-- `if err != nil { return stacktrace.Propagate(err, site) }`
abbrev pub propagate {ℓ} : {A : Type ℓ} → Site → Result A → Result A
propagate s (ok a) = ok a
propagate s (err e) = err (propagated s e)

abbrev pub or_fail {ℓ} : {A : Type ℓ} → Option A → Site → Result A
or_fail none s = err (failed s)
or_fail (some a) s = ok a

-- What equal options and results say of what they hold.
pub some-inj : {A : Type 0} {a b : A} → some a ≡ some b → a ≡ b
some-inj e = cc

pub ok-inj : {A : Type 0} {a b : A} → ok a ≡ ok b → a ≡ b
ok-inj e = cc

pub ok-ne-err : {A : Type 0} {a : A} {x : Error} → ok a ≡ err x → ⊥
ok-ne-err e = cc

pub or_fail-eq-ok :
    {A : Type 0} (o : Option A) (site : Site) (a : A) → or_fail o site ≡ ok a → o ≡ some a
or_fail-eq-ok none site a e = cc
or_fail-eq-ok (some b) site a e = cc
