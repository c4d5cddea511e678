-- ===== src/Initializer/TestExecutor/Returns.antt =====
-- Lemmas on runTest of initializer/parallelism/test_executor.go: that it returns.
use zz_deprecated_kurtosis.Base.{
  ◌≡◌, refl, sym, subst, [], Bool, Option, none, some, Text, Result, ok, err, ap, ◌∙◌, some-inj,
}
use zz_deprecated_kurtosis.Net.Defs.{Ip}
use zz_deprecated_kurtosis.Networks.IpTracker.{FreeIpAddrTracker, new_free_ip_addr_tracker}
use zz_deprecated_kurtosis.Networks.IpTracker.Room.{Allocates, Allocates-call}
use zz_deprecated_kurtosis.Initializer.TestExecutor.{
  Engine, TestExecutor, in_network, tear_down, with_network, with_gateway, with_tracker,
  with_manager, run_test_goroutine,
}
use zz_deprecated_kurtosis.Initializer.TestExecutor.RunTest.{
  Race, in_time, after_cancellation, lost, run_test,
}

-- The tracker of a subnet, if there is one, hands out addresses.
abbrev pub Roomy : Text → Type 0
Roomy subnet_mask =
    (t : FreeIpAddrTracker) → new_free_ip_addr_tracker subnet_mask [] ≡ ok t → Allocates t.subnet

module _ {W : Type 0} (engine : Engine W) (executor : TestExecutor) where
  abbrev Returns : Option (Result Bool × W) → Type 0
  Returns o = (result : Result Bool × W) × (o ≡ some result)

  network-Returns :
      (id : Text) (gateway : Ip) (call : Option (Result Ip × FreeIpAddrTracker))
      (r : Result Ip × FreeIpAddrTracker) (w : W)
      → call ≡ some r
      → Returns (tear_down engine executor id (in_network engine executor id gateway call w))
  network-Returns id gateway none r w e = cc
  network-Returns id gateway (some (err x, t)) r w e = (_, refl)
  network-Returns id gateway (some (ok ip, t)) r w e = (_, refl)

  created-Returns :
      (gateway : Ip) (t : FreeIpAddrTracker) (made : Result Text × W)
      → Allocates t.subnet
      → Returns (with_network engine executor gateway t made)
  created-Returns gateway t (err x, w) room = (_, refl)
  created-Returns gateway t (ok id, w) room =
      let (r, e, _) = Allocates-call t room in network-Returns id gateway _ r w e

  gateway-Returns :
      (t : FreeIpAddrTracker) (call : Option (Result Ip × FreeIpAddrTracker))
      (r : Result Ip × FreeIpAddrTracker) (w : W)
      → Allocates t.subnet
      → call ≡ some r
      → r.1.subnet ≡ t.subnet
      → Returns (with_gateway engine executor call w)
  gateway-Returns t none r w room e same = cc
  gateway-Returns t (some (err x, u)) r w room e same = (_, refl)
  gateway-Returns t (some (ok ip, u)) r w room e same =
      let kept : u.subnet ≡ t.subnet =
        ap (λ (q : Result Ip × FreeIpAddrTracker). q.1.subnet) (some-inj e) ∙ same in
      created-Returns ip u _ (subst Allocates (sym kept) room)

  tracker-Returns :
      (t : Result FreeIpAddrTracker) (w : W)
      → ((u : FreeIpAddrTracker) → t ≡ ok u → Allocates u.subnet)
      → Returns (with_tracker engine executor t w)
  tracker-Returns (err x) w room = (_, refl)
  tracker-Returns (ok t) w room =
      let (r, e, same) = Allocates-call t (room t refl) in
      gateway-Returns t _ r w (room t refl) e same

  manager-Returns :
      (made : Result (Unit {0}) × W)
      → Roomy executor.subnet_mask
      → Returns (with_manager engine executor made)
  manager-Returns (err x, w) room = (_, refl)
  manager-Returns (ok u, w) room = tracker-Returns _ w room

  -- runTest returns, whatever the race, when the tracker of its subnet hands out addresses.
  pub run_test-Returns :
      (race : Race W) (w : W)
      → Roomy executor.subnet_mask
      → Returns (run_test engine executor race w)
  unfolding run_test run_test_goroutine
  run_test-Returns in_time w room = manager-Returns _ room
  run_test-Returns (after_cancellation v) w room = (_, refl)
  run_test-Returns (lost v) w room = (_, refl)
