-- ===== src/Docker/Removal.antt =====
-- Lemmas on RemoveNetwork of commons/docker/docker_manager.go.
use mathlib.Core.Option.{some}
use zz_deprecated_kurtosis.Base.{
  ◌≡◌, refl, sym, ap, ◌∙◌, ℕ, List, [], ◌∷◌, Bool-cases, inl, inr, true, false, if◌then◌else◌, Text,
  ◌==◌, ◌||◌, ==_iff, text_eq, named, Site, arith,
}
use zz_deprecated_kurtosis.Actions.{Ends, Ends-wrap, Ends-bind, Ends-returning, Ends-imp}
use zz_deprecated_kurtosis.Docker.{EndpointSettings, DockerClient}
use zz_deprecated_kurtosis.Docker.Manager.{stop_containers, remove_network}
use zz_deprecated_kurtosis.Docker.View.{
  View, Same, SetTo, NetworkRemoved, Stopping, ContainerStopped, Inspected, DockerLaws,
}

module _ {W : Type 0} (view : View W) where
  Stopping-refl : (w : W) → Stopping view w w
  Stopping-refl w = record { none_started = λ k e. e; networks_kept = λ k. refl }

  Stopping-trans : {u v w : W} → Stopping view u v → Stopping view v w → Stopping view u w
  Stopping-trans s t = record {
    none_started = λ k e. t.none_started k (s.none_started k e);
    networks_kept = λ k. t.networks_kept k ∙ s.networks_kept k;
  }

  Same-Stopping : {w v : W} → Same view w v → Stopping view w v
  Same-Stopping s = record {
    none_started = λ k e. s.running_kept k ∙ e;
    networks_kept = s.networks_kept;
  }

  record AllStopped (listed : List Text) (w v : W) : Type 0 where
    all_stopped : (k : Text) → named k listed ≡ true → view.running v k ≡ false
    stopping : Stopping view w v

  -- A network has been removed, with the containers that ran in it.
  pub record Emptied (network_id : Text) (w v : W) : Type 0 where
    pub network_gone : SetTo (view.networks w) (view.networks v) network_id false
    pub members_stopped :
        (k : Text) (settings : EndpointSettings)
        → view.endpoint w network_id k ≡ some settings
        → view.running v k ≡ false
    pub none_started : (k : Text) → view.running w k ≡ false → view.running v k ≡ false

  stopped_one :
      (id : Text) (listed : List Text) {u v w : W}
      → ContainerStopped view id u v
      → AllStopped listed v w
      → AllStopped (id ∷ listed) u w
  unfolding named
  stopped_one id listed s t = record {
    all_stopped = λ k e. elim (Bool-cases (id == k)) [
      | inl same ↦
          let at : id ≡ k = (==_iff id k).0 same in
          t.stopping.none_started k (ap (view.running _) (sym at) ∙ s.stopped)
      | inr other ↦ t.all_stopped k (sym (ap (λ b. b || named k listed) other) ∙ e)
    ];
    stopping = Stopping-trans s.stopping t.stopping;
  }

  emptied :
      (network_id : Text) (listed : List Text) {w u v x : W}
      → Inspected view network_id w listed u
      → AllStopped listed u v
      → NetworkRemoved view network_id v x
      → Emptied network_id w x
  emptied network_id listed i a r = record {
    network_gone = λ k.
        r.network_gone k
        ∙ ap (λ b. if network_id == k then false else b)
            (a.stopping.networks_kept k ∙ i.same.networks_kept k);
    members_stopped = λ k ip e. r.running_kept k ∙ elim (Bool-cases (view.running _ k)) [
      | inl runs ↦ a.all_stopped k (i.lists k ip e runs)
      | inr not_running ↦ a.stopping.none_started k (i.same.running_kept k ∙ not_running)
    ];
    none_started = λ k e. r.running_kept k ∙ a.stopping.none_started k (i.same.running_kept k ∙ e);
  }

module _ {W : Type 0} (client : DockerClient W) (view : View W) (laws : DockerLaws client view)
    (timeout : ℕ) where
  stop_containers-Ends :
      (listed : List Text) (w : W)
      → Ends
          (λ _. AllStopped view listed w)
          (Stopping view w)
          (stop_containers client listed timeout w)
  unfolding stop_containers named
  stop_containers-Ends [] w =
      Ends-returning tt w
        (record { all_stopped = λ k e. absurd (ground arith); stopping = Stopping-refl view w })
  stop_containers-Ends (id ∷ more) w =
      Ends-bind _ _ (λ v s. s) (Ends-wrap Site.stop_container _ (laws.container_stop id timeout w))
        (λ t u s.
          Ends-imp (λ t v a. stopped_one view id more s a) (λ v a. Stopping-trans view s.stopping a)
            (stop_containers-Ends more u))

  Emptied-Ends :
      (network_id : Text) (w : W)
      → Ends
          (λ _. Emptied view network_id w)
          (Stopping view w)
          (remove_network client network_id timeout w)
  unfolding remove_network
  Emptied-Ends network_id w =
      Ends-bind _ _ (λ v s. Same-Stopping view s)
        (Ends-wrap Site.inspect_network _ (laws.network_inspect network_id w))
        (λ listed u i.
          Ends-bind _ _ (λ v s. Stopping-trans view (Same-Stopping view i.same) s)
            (stop_containers-Ends listed u)
            (λ t v a.
              Ends-imp (λ t x r. emptied view network_id listed i a r)
                (λ x s.
                  Stopping-trans view (Same-Stopping view i.same)
                    (Stopping-trans view a.stopping (Same-Stopping view s)))
                (Ends-wrap Site.network_remove _ (laws.network_remove network_id v))))

-- Where Docker's calls do what `DockerLaws` says, and whichever call of RemoveNetwork fails:
-- if it returns no error, the network does not exist any more, every other network is as it was,
-- no container that had an address in the network runs, and nothing has been started; if it returns
-- an error, every network is still there and nothing has been started.
pub remove_network-Emptied :
    {W : Type 0} (client : DockerClient W) (view : View W) (network_id : Text) (timeout : ℕ) (w : W)
    → DockerLaws client view
    → Ends
        (λ _. Emptied view network_id w)
        (Stopping view w)
        (remove_network client network_id timeout w)
remove_network-Emptied client view network_id timeout w laws =
    Emptied-Ends client view laws timeout network_id w
