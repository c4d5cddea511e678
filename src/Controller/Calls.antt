-- ===== src/Controller/Calls.antt =====
-- The developer's code, as commons/networks/network_loader.go and commons/testsuite/test.go declare
-- it: what it calls on the builder or on the network, in order, each call depending on the results of
-- those before. Calls that it makes from several goroutines at once are not covered.
use zz_deprecated_kurtosis.Base.{ℕ, zero, suc, List, Option, none, some, Text, Result}
use zz_deprecated_kurtosis.Services.{Host, ServiceInitializerCore, ServiceAvailabilityCheckerCore}
use zz_deprecated_kurtosis.Services.AvailabilityChecker.{Context, ServiceAvailabilityChecker}
use zz_deprecated_kurtosis.Networks.ServiceNetwork.{
  ServiceNode, ServiceNetwork, get_service, get_size, add_service, remove_service, remove_all,
}
use zz_deprecated_kurtosis.Networks.Builder.{ServiceNetworkBuilder, add_configuration}

-- Calls of AddConfiguration; `configured` is the end.
pub data Configures (W Service A : Type 0) : Type 0 where
  configured : A → Configures W Service A
  configures :
      Text
      → Text
      → ServiceInitializerCore W Service
      → ServiceAvailabilityCheckerCore Service
      → (Result (Unit {0}) → Configures W Service A)
      → Configures W Service A

-- Calls of the methods of ServiceNetwork; `acts` is what the code does to the world by itself, and
-- `hangs` a call that does not return.
pub data Calls (W Service A : Type 0) : Type 0 where
  finished : A → Calls W Service A
  hangs : Calls W Service A
  gets : Text → (Result (ServiceNode Service) → Calls W Service A) → Calls W Service A
  sizes : (ℕ → Calls W Service A) → Calls W Service A
  acts : (W → W) → (W → Calls W Service A) → Calls W Service A
  adds :
      Text
      → Text
      → Option (List Text)
      → (Result (ServiceAvailabilityChecker Service) → Calls W Service A)
      → Calls W Service A
  removes : Text → ℕ → (Result (Unit {0}) → Calls W Service A) → Calls W Service A
  clears : ℕ → (Result (Unit {0}) → Calls W Service A) → Calls W Service A

-- What some calls leave: their value, the network and the world.
pub record Left (W Service A : Type 0) : Type 0 where
  pub value : A
  pub network : ServiceNetwork W Service
  pub world : W

module _ {W Service : Type 0} where
  unfoldable pub run_configures :
      {A : Type 0}
      → Configures W Service A
      → ServiceNetworkBuilder W Service
      → A × ServiceNetworkBuilder W Service
  run_configures (configured a) builder = (a, builder)
  run_configures (configures configuration_id docker_image core checker_core later) builder =
      let (result, after) =
        add_configuration configuration_id docker_image core checker_core builder in
      run_configures (later result) after

  -- One call after another.
  unfoldable pub and_then :
      {A B : Type 0} → Calls W Service A → (A → Calls W Service B) → Calls W Service B
  and_then (finished a) f = f a
  and_then hangs f = hangs
  and_then (gets id later) f = gets id (λ r. and_then (later r) f)
  and_then (sizes later) f = sizes (λ r. and_then (later r) f)
  and_then (acts g later) f = acts g (λ w. and_then (later w) f)
  and_then (adds cid id deps later) f = adds cid id deps (λ r. and_then (later r) f)
  and_then (removes id timeout later) f = removes id timeout (λ r. and_then (later r) f)
  and_then (clears timeout later) f = clears timeout (λ r. and_then (later r) f)

  -- The first calls, at most as many as given; `none` when there was no time for the end. What a
  -- test goes on to do then is left to Controller.Late.
  unfoldable pub cut_off : {A : Type 0} → ℕ → Calls W Service A → Calls W Service (Option A)
  cut_off zero calls = finished none
  cut_off (suc k) (finished a) = finished (some a)
  cut_off (suc k) hangs = finished none
  cut_off (suc k) (gets id later) = gets id (λ r. cut_off k (later r))
  cut_off (suc k) (sizes later) = sizes (λ r. cut_off k (later r))
  cut_off (suc k) (acts g later) = acts g (λ w. cut_off k (later w))
  cut_off (suc k) (adds cid id deps later) = adds cid id deps (λ r. cut_off k (later r))
  cut_off (suc k) (removes id timeout later) = removes id timeout (λ r. cut_off k (later r))
  cut_off (suc k) (clears timeout later) = clears timeout (λ r. cut_off k (later r))

  module _ (host : Host W) (background : Context) where
    -- `none`: a call does not return.
    unfoldable pub run_calls :
        {A : Type 0} → Calls W Service A → ServiceNetwork W Service → W → Option (Left W Service A)
    run_calls (finished a) network w = some (record { value = a; network = network; world = w })
    run_calls hangs network w = none
    run_calls (gets id later) network w = run_calls (later (get_service id network)) network w
    run_calls (sizes later) network w = run_calls (later (get_size network)) network w
    run_calls (acts g later) network w = run_calls (later w) network (g w)
    run_calls (adds configuration_id service_id dependencies later) network w =
        elim (add_service host background configuration_id service_id dependencies network w) [
          | none ↦ none
          | some o ↦ run_calls (later o.result) o.network o.world
        ]
    run_calls (removes id timeout later) network w =
        let o = remove_service host timeout id network w in
        run_calls (later o.result) o.network o.world
    run_calls (clears timeout later) network w =
        let o = remove_all host timeout network w in run_calls (later o.result) o.network o.world
