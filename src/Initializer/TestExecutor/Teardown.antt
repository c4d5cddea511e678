-- ===== src/Initializer/TestExecutor/Teardown.antt =====
-- Lemmas on runTestGoroutine of initializer/parallelism/test_executor.go: the Docker networks before
-- and after.
use zz_deprecated_kurtosis.Base.{
  ◌≡◌, refl, sym, ap, subst, ◌∙◌, inl, inr, Bool-cases, [], Bool, true, false, Option, none, some,
  if◌then◌else◌, Text, ◌==◌, ==_iff, text_eq, Result, ok, err, Error, Site,
}
use zz_deprecated_kurtosis.Net.Defs.{Ip}
use zz_deprecated_kurtosis.Networks.IpTracker.{
  FreeIpAddrTracker, new_free_ip_addr_tracker, get_free_ip_addr,
}
use zz_deprecated_kurtosis.Actions.{Act, ◌>>>=◌, propagating}
use zz_deprecated_kurtosis.Services.{ContainerRequest}
use zz_deprecated_kurtosis.Initializer.TestExecutor.{
  Engine, TestExecutor, after_exit, wait_for_controller, start_controller, with_log_file,
  with_volume, run_controller_container, in_network, tear_down, with_network, with_gateway,
  with_tracker, with_manager, run_test_goroutine,
}

-- What Docker says of its networks: a network that is created is new and then exists, a network that
-- is removed does not, and nothing else creates or removes one. `exists w id`: in the world `w`
-- there is a network with the ID `id`.
pub record Networked {W : Type 0} (engine : Engine W) (exists : W → Text → Bool) : Type 0 where
  pub created :
      (name mask : Text) (gateway : Ip) (w v : W) (id k : Text)
      → engine.create_network name mask gateway w ≡ (ok id, v)
      → (exists w id ≡ false) × (exists v k ≡ (if id == k then true else exists w k))
  pub not_created :
      (name mask : Text) (gateway : Ip) (w v : W) (e : Error) (k : Text)
      → engine.create_network name mask gateway w ≡ (err e, v)
      → exists v k ≡ exists w k
  pub removed :
      (id k : Text) (w : W)
      → exists (engine.remove_network id w).1 k ≡ (if id == k then false else exists w k)
  pub manager : (w : W) (k : Text) → exists (engine.new_docker_manager w).1 k ≡ exists w k
  pub volume :
      (name : Text) (w : W) (k : Text) → exists (engine.create_volume name w).1 k ≡ exists w k
  pub temp : (name : Text) (w : W) (k : Text) → exists (engine.temp_file name w).1 k ≡ exists w k
  pub container :
      (request : ContainerRequest) (w : W) (k : Text)
      → exists (engine.create_and_start_container request w).1 k ≡ exists w k
  pub exit : (id : Text) (w : W) (k : Text) → exists (engine.wait_for_exit id w).1 k ≡ exists w k
  pub logs :
      (name : Text) (w : W) (k : Text)
      → exists (engine.copy_controller_logs name w).1 k ≡ exists w k
  pub file : (name : Text) (w : W) (k : Text) → exists (engine.remove_file name w) k ≡ exists w k

module _ {W : Type 0} (look : W → Bool) where
  -- A chain keeps what its parts keep.
  chain-keeps :
      {A B : Type 0} (site : Site) (r : Result A × W) (f : A → Act W B) (b : Bool)
      → look r.1 ≡ b
      → ((a : A) (w : W) → look w ≡ b → look (f a w).1 ≡ b)
      → look (propagating site r >>>= f).1 ≡ b
  chain-keeps site (ok a, w) f b first later = later a w first
  chain-keeps site (err e, w) f b first later = first

  propagating-keeps :
      {A : Type 0} (site : Site) (r : Result A × W) → look (propagating site r).1 ≡ look r.1
  propagating-keeps site (ok a, w) = refl
  propagating-keeps site (err e, w) = refl

module _ {W : Type 0} (engine : Engine W) (executor : TestExecutor) (exists : W → Text → Bool)
    (docker : Networked engine exists) (k : Text) where
  container-keeps :
      (id : Text) (gateway ip : Ip) (w : W)
      → exists (run_controller_container engine executor id gateway ip w).1 k ≡ exists w k
  unfolding run_controller_container
  container-keeps id gateway ip w =
      let look : W → Bool = λ v. exists v k in
      chain-keeps look Site.create_volume _ (with_volume engine executor id gateway ip) (look w)
        (docker.volume _ w k)
        (λ u w₁ e₁.
          chain-keeps look Site.controller_log_file _ (with_log_file engine executor id gateway ip)
            (look w) (docker.temp _ w₁ k ∙ e₁)
            (λ file w₂ e₂.
              chain-keeps look Site.env_variables _ (start_controller engine executor id ip file)
                (look w) e₂
                (λ env w₃ e₃.
                  chain-keeps look Site.run_controller _ (wait_for_controller engine executor file)
                    (look w) (docker.container _ w₃ k ∙ e₃)
                    (λ controller w₄ e₄.
                      chain-keeps look Site.wait_for_controller _ (after_exit engine executor file)
                        (look w) (docker.exit _ w₄ k ∙ e₄)
                        (λ code w₅ e₅.
                          chain-keeps look Site.open_controller_log _ _ (look w)
                            (docker.logs _ w₅ k ∙ e₅) (λ v w₆ e₆. docker.file file w₆ k ∙ e₆))))))

  -- What is left of the networks.
  abbrev Kept : W → Option (Result Bool × W) → Type 0
  Kept w none = Unit {0}
  Kept w (some (r, v)) = exists v k ≡ exists w k

  network-Kept :
      (id : Text) (gateway : Ip) (call : Option (Result Ip × FreeIpAddrTracker)) (w : W)
      → Kept w (in_network engine executor id gateway call w)
  network-Kept id gateway none w = tt
  network-Kept id gateway (some (err e, t)) w = refl
  network-Kept id gateway (some (ok ip, t)) w =
      propagating-keeps (λ v. exists v k) Site.running_test _ ∙ container-keeps id gateway ip w

  tear_down-Kept :
      (id : Text) (w v : W) (o : Option (Result Bool × W))
      → exists w id ≡ false
      → exists v k ≡ (if id == k then true else exists w k)
      → Kept v o
      → Kept w (tear_down engine executor id o)
  tear_down-Kept id w v none new now kept = tt
  tear_down-Kept id w v (some (r, u)) new now kept = elim (Bool-cases (id == k)) [
    | inl same ↦
        docker.removed id k u
        ∙ (ap (λ b. if b then false else exists u k) same
            ∙ (sym new ∙ ap (exists w) ((==_iff id k).0 same)))
    | inr other ↦
        docker.removed id k u
        ∙ (ap (λ b. if b then false else exists u k) other
            ∙ (kept ∙ (now ∙ ap (λ b. if b then true else exists w k) other)))
  ]

  created-Kept :
      (gateway : Ip) (t : FreeIpAddrTracker) (name mask : Text) (w : W) (r : Result Text × W)
      → engine.create_network name mask gateway w ≡ r
      → Kept w (with_network engine executor gateway t r)
  created-Kept gateway t name mask w (err e, v) c = docker.not_created name mask gateway w v e k c
  created-Kept gateway t name mask w (ok id, v) c =
      let (new, _) = docker.created name mask gateway w v id k c in
      let (_, now) = docker.created name mask gateway w v id k c in
      tear_down-Kept id w v _ new now (network-Kept id gateway (get_free_ip_addr t) v)

  gateway-Kept :
      (call : Option (Result Ip × FreeIpAddrTracker)) (w : W)
      → Kept w (with_gateway engine executor call w)
  gateway-Kept none w = tt
  gateway-Kept (some (err e, t)) w = refl
  gateway-Kept (some (ok gateway, t)) w = created-Kept gateway t _ _ w _ refl

  tracker-Kept : (r : Result FreeIpAddrTracker) (w : W) → Kept w (with_tracker engine executor r w)
  tracker-Kept (err e) w = refl
  tracker-Kept (ok t) w = gateway-Kept (get_free_ip_addr t) w

  manager-Kept :
      (w : W) (r : Result (Unit {0}) × W)
      → exists r.1 k ≡ exists w k
      → Kept w (with_manager engine executor r)
  manager-Kept w (err e, v) same = same
  manager-Kept w (ok u, v) same =
      Kept-from w v same _ (tracker-Kept (new_free_ip_addr_tracker executor.subnet_mask []) v)
    where
      Kept-from :
          (w v : W) → exists v k ≡ exists w k → (o : Option (Result Bool × W)) → Kept v o → Kept w o
      Kept-from w v same none kept = tt
      Kept-from w v same (some p) kept = kept ∙ same

-- Where Docker's networks behave as `Networked` says, so that the removal of a network succeeds, and
-- whether the test passes, fails or meets an error at any point:
-- when the body of the test's goroutine has returned, exactly the networks exist that existed before
-- it ran. The network that it created is removed.
pub run_test_goroutine-tears_down :
    {W : Type 0} (engine : Engine W) (executor : TestExecutor) (exists : W → Text → Bool) (w v : W)
    (r : Result Bool) (k : Text)
    → Networked engine exists
    → run_test_goroutine engine executor w ≡ some (r, v)
    → exists v k ≡ exists w k
unfolding run_test_goroutine
run_test_goroutine-tears_down engine executor exists w v r k docker e =
    subst (Kept engine executor exists docker k w) e (
      manager-Kept engine executor exists docker k w (engine.new_docker_manager w)
        (docker.manager w k))
