-- ===== src/Initializer/TestExecutor/Passing.antt =====
-- Lemmas on runTest of initializer/parallelism/test_executor.go: when a test passes.
use zz_deprecated_kurtosis.Base.{
  sym, some-inj, ok-inj, ok-ne-err, ℕ, ◌≡◌, ◌≢◌, refl, ap, ◌∙◌, [], Bool, true, Option, none, some,
  nat_beq, nat_beq_iff, arith, Text, Dict, text_eq, ==_iff, Result, ok, err, Error, Site,
}
use zz_deprecated_kurtosis.Net.Defs.{Ip}
use zz_deprecated_kurtosis.Net.Cidr.{ip_text}
use zz_deprecated_kurtosis.Networks.IpTracker.{
  FreeIpAddrTracker, is_taken, new_free_ip_addr_tracker, get_free_ip_addr,
}
use zz_deprecated_kurtosis.Networks.IpTracker.History.{Step, get-Step}
use zz_deprecated_kurtosis.Networks.IpTracker.Scan.{is_taken-insert}
use zz_deprecated_kurtosis.Actions.{◌>>>=◌, propagating, chain-eq-ok, propagating-eq-ok}
use zz_deprecated_kurtosis.Initializer.TestExecutor.{
  Engine, TestExecutor, unique_test_identifier, controller_request, after_exit, wait_for_controller,
  start_controller, with_log_file, with_volume, run_controller_container, in_network, tear_down,
  with_network, with_gateway, with_tracker, with_manager, run_test_goroutine,
}
use zz_deprecated_kurtosis.Initializer.TestExecutor.RunTest.{
  Race, in_time, after_cancellation, lost, run_test,
}

-- A controller container that was started in a network at an address, and exited with 0.
pub record Succeeded {W : Type 0} (engine : Engine W) (executor : TestExecutor) (network_id : Text)
    (ip : Ip) : Type 0 where
  pub log_file : Text
  pub env_variables : Dict Text Text
  pub container_id : Text
  pub before : W
  pub running : W
  pub after : W
  pub started :
      engine.create_and_start_container
        (controller_request executor network_id ip log_file env_variables)
        before
      ≡ (ok container_id, running)
  pub exited : engine.wait_for_exit container_id running ≡ (ok 0, after)

-- A network with a gateway, and a controller that succeeded at another address of it.
pub record Passes {W : Type 0} (engine : Engine W) (executor : TestExecutor) : Type 0 where
  pub network_id : Text
  pub gateway_ip : Ip
  pub controller_ip : Ip
  pub apart : ip_text gateway_ip ≢ ip_text controller_ip
  pub before : W
  pub after : W
  pub created :
      engine.create_network (unique_test_identifier executor) executor.subnet_mask gateway_ip before
      ≡ (ok network_id, after)
  pub succeeded : Succeeded engine executor network_id controller_ip

-- An error is no success.
not_passed :
    {W : Type 0} {x : Error} {w v : W}
    → ◌≡◌ {A = Option (Result Bool × W)} (some (err x, w)) (some (ok true, v))
    → ⊥
not_passed e = ok-ne-err (sym (ap (λ p. p.0) (some-inj e)))

module _ {W : Type 0} (engine : Engine W) (executor : TestExecutor) where
  -- Only the exit code 0 counts as a success.
  after_exit-zero :
      (file : Text) (code : ℕ) (w v : W)
      → after_exit engine executor file code w ≡ (ok true, v)
      → code ≡ 0
  after_exit-zero file code w v e = by_logs (engine.copy_controller_logs file w) e
    where
      by_logs :
          (r : Result (Unit {0}) × W)
          → propagating Site.open_controller_log r
              >>>= (λ u w₁. (ok (nat_beq code 0), engine.remove_file file w₁))
            ≡ (ok true, v)
          → code ≡ 0
      by_logs (ok u, x) h = (nat_beq_iff code 0).0 (ok-inj (ap (λ p. p.0) h))
      by_logs (err x, y) h = absurd (ok-ne-err (sym (ap (λ p. p.0) h)))

  container-Succeeded :
      (network_id : Text) (gateway ip : Ip) (w v : W)
      → run_controller_container engine executor network_id gateway ip w ≡ (ok true, v)
      → Succeeded engine executor network_id ip
  unfolding run_controller_container
  container-Succeeded network_id gateway ip w v e =
      let volume = chain-eq-ok _ (with_volume engine executor network_id gateway ip) true v e in
      let file =
        chain-eq-ok _ (with_log_file engine executor network_id gateway ip) true v volume.second in
      let env =
        chain-eq-ok _ (start_controller engine executor network_id ip file.value) true v
          file.second in
      let run = chain-eq-ok _ (wait_for_controller engine executor file.value) true v env.second in
      let exit = chain-eq-ok _ (after_exit engine executor file.value) true v run.second in
      let zero = after_exit-zero file.value exit.value exit.world v exit.second in
      record {
        log_file = file.value;
        env_variables = env.value;
        container_id = run.value;
        before = env.world;
        running = run.world;
        after = exit.world;
        started = propagating-eq-ok Site.run_controller _ run.value run.world run.first;
        exited =
            propagating-eq-ok Site.wait_for_controller _ exit.value exit.world exit.first
            ∙ ap (λ c. (ok c, exit.world)) zero;
      }

  -- Two calls in a row hand out different addresses.
  two_apart :
      (t u x : FreeIpAddrTracker) (a b : Ip)
      → Step t (ok a, u)
      → Step u (ok b, x)
      → ip_text a ≢ ip_text b
  two_apart t u x a b (free, marked) (unused, _) same = ground (
    arith,
    ap (λ m. is_taken m (ip_text b)) marked,
    is_taken-insert t.taken_ips (ip_text a) (ip_text b),
    ==_iff (ip_text a) (ip_text b),
  )

  network-Shows :
      (w : W) (id : Text) (gateway : Ip) (t : FreeIpAddrTracker) (x y v : W)
      (call : Option (Result Ip × FreeIpAddrTracker))
      → engine.create_network (unique_test_identifier executor) executor.subnet_mask gateway w
        ≡ (ok id, y)
      → ((ip : Ip) (u : FreeIpAddrTracker) → call ≡ some (ok ip, u) → ip_text gateway ≢ ip_text ip)
      → tear_down engine executor id (in_network engine executor id gateway call y)
        ≡ some (ok true, v)
      → Passes engine executor
  network-Shows w id gateway t x y v none made apart e = cc
  network-Shows w id gateway t x y v (some (err z, u)) made apart e = absurd (not_passed e)
  network-Shows w id gateway t x y v (some (ok ip, u)) made apart e =
      let first : (propagating Site.running_test
            (run_controller_container engine executor id gateway ip y)).0
          ≡ ok true =
        ap (λ p. p.0) (some-inj e) in
      record {
        network_id = id;
        gateway_ip = gateway;
        controller_ip = ip;
        apart = apart ip u refl;
        before = w;
        after = y;
        created = made;
        succeeded =
            container-Succeeded id gateway ip y _
              (propagating-eq-ok Site.running_test _ true _ (pair_of _ first));
      }
    where
      pair_of : (r : Result Bool × W) → r.0 ≡ ok true → r ≡ (ok true, r.1)
      pair_of (r, z) h = ap (λ q. (q, z)) h

  created-Shows :
      (w : W) (gateway : Ip) (t : FreeIpAddrTracker) (r : Result Text × W) (v : W)
      → engine.create_network (unique_test_identifier executor) executor.subnet_mask gateway w ≡ r
      → ((ip : Ip) (u : FreeIpAddrTracker)
          → get_free_ip_addr t ≡ some (ok ip, u)
          → ip_text gateway ≢ ip_text ip)
      → with_network engine executor gateway t r ≡ some (ok true, v)
      → Passes engine executor
  created-Shows w gateway t (err z, y) v made apart e = absurd (not_passed e)
  created-Shows w gateway t (ok id, y) v made apart e =
      network-Shows w id gateway t w y v (get_free_ip_addr t) made apart e

  gateway-Shows :
      (t : FreeIpAddrTracker) (call : Option (Result Ip × FreeIpAddrTracker)) (w v : W)
      → get_free_ip_addr t ≡ call
      → with_gateway engine executor call w ≡ some (ok true, v)
      → Passes engine executor
  gateway-Shows t none w v given e = cc
  gateway-Shows t (some (err z, u)) w v given e = absurd (not_passed e)
  gateway-Shows t (some (ok gateway, u)) w v given e =
      created-Shows w gateway u _ v refl
        (λ ip x second.
          two_apart t u x gateway ip (get-Step t (ok gateway, u) given)
            (get-Step u (ok ip, x) second))
        e

  tracker-Shows :
      (r : Result FreeIpAddrTracker) (w v : W)
      → with_tracker engine executor r w ≡ some (ok true, v)
      → Passes engine executor
  tracker-Shows (err z) w v e = absurd (not_passed e)
  tracker-Shows (ok t) w v e = gateway-Shows t (get_free_ip_addr t) w v refl e

  manager-Shows :
      (r : Result (Unit {0}) × W) (v : W)
      → with_manager engine executor r ≡ some (ok true, v)
      → Passes engine executor
  manager-Shows (err z, w) v e = absurd (not_passed e)
  manager-Shows (ok u, w) v e =
      tracker-Shows (new_free_ip_addr_tracker executor.subnet_mask []) w v e

-- When runTest reports that a test passed: the goroutine's result came before the timeout, a network
-- was created for the test with a gateway address, a controller container was started in this
-- network at an address that is not the gateway's, and this container exited with code 0.
pub run_test-Passes :
    {W : Type 0} (engine : Engine W) (executor : TestExecutor) (race : Race W) (w v : W)
    → run_test engine executor race w ≡ some (ok true, v)
    → (race ≡ in_time) × Passes engine executor
unfolding run_test run_test_goroutine
run_test-Passes engine executor in_time w v e =
    (refl, manager-Shows engine executor (engine.new_docker_manager w) v e)
run_test-Passes engine executor (after_cancellation x) w v e = absurd (not_passed e)
run_test-Passes engine executor (lost x) w v e = absurd (not_passed e)
