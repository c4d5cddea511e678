-- ===== src/Services/AvailabilityChecker.antt =====
-- commons/services/service_availability_checker.go: polling a service until it is up or the context
-- ends.
pub mod Laws
use zz_deprecated_kurtosis.Base.{
  ℕ, zero, suc, List, [], ◌∷◌, Bool, true, false, if◌then◌else◌, Option, none, some, Error,
  external, Result, ok, err, Site, propagated,
}
use zz_deprecated_kurtosis.Services.{ServiceAvailabilityCheckerCore}

-- The errors of a context.
pub data ContextErr : Type 0 where
  canceled deadline_exceeded : ContextErr
  other_context_err : ℕ → ContextErr

-- A context as its polls see it: `Err()` at each poll of a child with the given timeout.
pub record Context : Type 0 where
  pub err_at : ℕ → ℕ → Option ContextErr

pub record ServiceAvailabilityChecker (Service : Type 0) : Type 0 where
  pub context : Context
  pub core : ServiceAvailabilityCheckerCore Service
  pub to_check : Service
  pub dependencies : List Service

-- Go's `copy(dst, src)`: as many elements as both slices have.
unfoldable pub copy : {A : Type 0} → List A → List A → List A
copy [] src = []
copy (d ∷ dst) [] = d ∷ dst
copy (d ∷ dst) (s ∷ src) = s ∷ copy dst src

-- The error of WaitForStartup by the context's own.
abbrev pub startup_err : ContextErr → Error
startup_err canceled = propagated Site.startup_cancelled (external 0)
startup_err deadline_exceeded = propagated Site.startup_timeout (external 1)
startup_err (other_context_err code) = propagated Site.startup_unknown (external code)

module _ {Service : Type 0} where
  -- `make([]Service, 0, len(dependencies))` has no elements.
  unfoldable pub new_service_availability_checker :
      Context
      → ServiceAvailabilityCheckerCore Service
      → Service
      → List Service
      → ServiceAvailabilityChecker Service
  new_service_availability_checker context core to_check dependencies = record {
    context = context;
    core = core;
    to_check = to_check;
    dependencies = copy [] dependencies;
  }

  abbrev pub context_err : ServiceAvailabilityChecker Service → ℕ → Option ContextErr
  context_err checker poll = checker.context.err_at checker.core.get_timeout poll

  abbrev pub service_up : ServiceAvailabilityChecker Service → ℕ → Bool
  service_up checker poll = checker.core.is_service_up poll checker.to_check checker.dependencies

  -- The loop from the given poll on, with fuel.
  unfoldable pub wait_loop : ℕ → ServiceAvailabilityChecker Service → ℕ → Option (Result (Unit {0}))
  wait_loop zero checker poll = none
  wait_loop (suc fuel) checker poll =
      let rest = wait_loop fuel checker (suc poll) in
      elim (context_err checker poll) [
        | some e ↦ some (err (startup_err e))
        | none ↦ if service_up checker poll then some (ok tt) else rest
      ]

  unfoldable pub wait_for_startup :
      ℕ → ServiceAvailabilityChecker Service → Option (Result (Unit {0}))
  wait_for_startup fuel checker = wait_loop fuel checker 0
