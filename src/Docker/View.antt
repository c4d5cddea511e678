-- ===== src/Docker/View.antt =====
-- What Docker documents of its calls that commons/docker/docker_manager.go relies on.
use mathlib.Core.Option.{Option, some}
use zz_deprecated_kurtosis.Base.{
  ℕ, List, Bool, true, false, if◌then◌else◌, ◌≡◌, Text, ◌==◌, text_eq, named,
}
use zz_deprecated_kurtosis.Actions.{Ends}
use zz_deprecated_kurtosis.Docker.{
  NetworkCreate, ContainerConfig, HostConfig, EndpointSettings, DockerClient,
}

-- What can be seen of Docker's state in a world: whether a container exists, whether it runs,
-- whether a network exists, and the endpoint settings with which a container was connected to a
-- network, if it is: what was asked for. Which address Docker then gives the container is not said. What happens between the calls is not covered: a container that exits by itself, and what
-- other clients do.
pub record View (W : Type 0) : Type 0 where
  pub containers : W → Text → Bool
  pub running : W → Text → Bool
  pub networks : W → Text → Bool
  pub endpoint : W → Text → Text → Option EndpointSettings

-- `after` is `before` with the entry `key` set to `b`.
abbrev pub SetTo : (before after : Text → Bool) → Text → Bool → Type 0
SetTo before after key b = (k : Text) → after k ≡ (if key == k then b else before k)

abbrev pub AllKept : {A : Type 0} (before after : Text → A) → Type 0
AllKept before after = (k : Text) → after k ≡ before k

module _ {W : Type 0} (view : View W) where
  pub record Same (w v : W) : Type 0 where
    pub containers_kept : AllKept (view.containers w) (view.containers v)
    pub running_kept : AllKept (view.running w) (view.running v)
    pub networks_kept : AllKept (view.networks w) (view.networks v)
    pub endpoint_kept : (n : Text) → AllKept (view.endpoint w n) (view.endpoint v n)

  pub record NetworkCreated (w : W) (id : Text) (v : W) : Type 0 where
    pub network_new : view.networks w id ≡ false
    pub network_added : SetTo (view.networks w) (view.networks v) id true
    pub running_kept : AllKept (view.running w) (view.running v)

  pub record NetworkRemoved (id : Text) (w v : W) : Type 0 where
    pub network_gone : SetTo (view.networks w) (view.networks v) id false
    pub running_kept : AllKept (view.running w) (view.running v)

  pub record ContainerCreated (w : W) (id : Text) (v : W) : Type 0 where
    pub container_new : view.containers w id ≡ false
    pub container_added : SetTo (view.containers w) (view.containers v) id true
    pub running_kept : AllKept (view.running w) (view.running v)
    pub networks_kept : AllKept (view.networks w) (view.networks v)
    pub endpoint_kept : (n : Text) → AllKept (view.endpoint w n) (view.endpoint v n)

  pub record Connected (network_id id : Text) (settings : EndpointSettings) (w v : W) : Type 0 where
    pub endpoint_set : view.endpoint v network_id id ≡ some settings
    pub endpoint_others :
        (n k : Text) → (id == k) ≡ false → view.endpoint v n k ≡ view.endpoint w n k
    pub running_kept : AllKept (view.running w) (view.running v)
    pub networks_kept : AllKept (view.networks w) (view.networks v)

  pub record ContainerStarted (id : Text) (w v : W) : Type 0 where
    pub running_now : SetTo (view.running w) (view.running v) id true
    pub networks_kept : AllKept (view.networks w) (view.networks v)
    pub endpoint_kept : (n : Text) → AllKept (view.endpoint w n) (view.endpoint v n)

  -- A creation that fails, or is cancelled, may still have made a container.
  pub record CreateFailed (w v : W) : Type 0 where
    pub running_kept : AllKept (view.running w) (view.running v)
    pub networks_kept : AllKept (view.networks w) (view.networks v)

  -- A connection that fails may still be made.
  pub record ConnectFailed (w v : W) : Type 0 where
    pub running_kept : AllKept (view.running w) (view.running v)
    pub networks_kept : AllKept (view.networks w) (view.networks v)

  -- A start that fails, or is cancelled, may still start the container.
  pub record StartFailed (id : Text) (w v : W) : Type 0 where
    pub running_others : (k : Text) → (id == k) ≡ false → view.running v k ≡ view.running w k
    pub networks_kept : AllKept (view.networks w) (view.networks v)

  -- A stop whose call fails may still stop the container.
  pub record Stopping (w v : W) : Type 0 where
    pub none_started : (k : Text) → view.running w k ≡ false → view.running v k ≡ false
    pub networks_kept : AllKept (view.networks w) (view.networks v)

  pub record ContainerStopped (id : Text) (w v : W) : Type 0 where
    pub stopped : view.running v id ≡ false
    pub stopping : Stopping w v

  -- The containers that run in a network are listed when it is inspected.
  pub record Inspected (network_id : Text) (w : W) (listed : List Text) (v : W) : Type 0 where
    pub lists :
        (k : Text) (settings : EndpointSettings)
        → view.endpoint w network_id k ≡ some settings
        → view.running w k ≡ true
        → named k listed ≡ true
    pub same : Same w v

module _ {W : Type 0} (client : DockerClient W) (view : View W) where
  pub record DockerLaws : Type 0 where
    -- A container that does not exist does not run.
    pub absent : (w : W) (id : Text) → view.containers w id ≡ false → view.running w id ≡ false
    pub image_list : (image : Text) (w : W) → Same view w (client.image_list image w).1
    pub image_pull : (image : Text) (w : W) → Same view w (client.image_pull image w).1
    pub network_list : (id : Text) (w : W) → Same view w (client.network_list id w).1
    pub volume_create : (name : Text) (w : W) → Same view w (client.volume_create name w).1
    pub network_create :
        (name : Text) (settings : NetworkCreate) (w : W)
        → Ends (NetworkCreated view w) (Same view w) (client.network_create name settings w)
    pub network_inspect :
        (id : Text) (w : W) → Ends (Inspected view id w) (Same view w) (client.network_inspect id w)
    pub network_connect :
        (id container : Text) (settings : EndpointSettings) (w : W)
        → Ends
            (λ _. Connected view id container settings w)
            (ConnectFailed view w)
            (client.network_connect id container settings w)
    pub network_remove :
        (id : Text) (w : W)
        → Ends (λ _. NetworkRemoved view id w) (Same view w) (client.network_remove id w)
    pub container_create :
        (config : ContainerConfig) (host_config : HostConfig) (w : W)
        → Ends
            (ContainerCreated view w)
            (CreateFailed view w)
            (client.container_create config host_config w)
    pub container_start :
        (id : Text) (w : W)
        → Ends
            (λ _. ContainerStarted view id w)
            (StartFailed view id w)
            (client.container_start id w)
    pub container_stop :
        (id : Text) (timeout : ℕ) (w : W)
        → Ends
            (λ _. ContainerStopped view id w)
            (Stopping view w)
            (client.container_stop id timeout w)
    pub container_wait : (id : Text) (w : W) → Stopping view w (client.container_wait id w).1
