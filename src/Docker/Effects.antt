-- ===== src/Docker/Effects.antt =====
-- Lemmas on commons/docker/docker_manager.go: what the manager's methods do to Docker's state.
use mathlib.Core.Option.{some}
use zz_deprecated_kurtosis.Base.{
  ◌≡◌, refl, sym, ap, arith, ==_iff, ◌∙◌, Bool, true, false, not, if◌then◌else◌, Text, ◌==◌,
  text_eq, Site,
}
use zz_deprecated_kurtosis.Actions.{
  Ends, Ends-wrap, Ends-bind, Ends-any, Ends-fail_if, Ends-returning, ◌>>◌, fail_if, wrap,
  returning,
}
use zz_deprecated_kurtosis.Net.Cidr.{ip_text}
use zz_deprecated_kurtosis.Services.{ContainerRequest}
use zz_deprecated_kurtosis.Docker.{EndpointSettings, DockerClient}
use zz_deprecated_kurtosis.Docker.Manager.{
  is_image_available_locally, network_exists, connect_to_network, pull_image, create_container,
  pull_unless, create_and_start_container,
}
use zz_deprecated_kurtosis.Docker.View.{
  View, Same, SetTo, AllKept, ContainerCreated, Connected, ContainerStarted, DockerLaws,
}

-- The endpoint settings that a request asks for.
abbrev pub settings_of : ContainerRequest → EndpointSettings
settings_of request = record { ip_address = ip_text request.static_ip }

module _ {W : Type 0} (view : View W) where
  pub Same-refl : (w : W) → Same view w w
  Same-refl w = record {
    containers_kept = λ k. refl;
    running_kept = λ k. refl;
    networks_kept = λ k. refl;
    endpoint_kept = λ n k. refl;
  }

  pub Same-trans : {u v w : W} → Same view u v → Same view v w → Same view u w
  Same-trans s t = record {
    containers_kept = λ k. t.containers_kept k ∙ s.containers_kept k;
    running_kept = λ k. t.running_kept k ∙ s.running_kept k;
    networks_kept = λ k. t.networks_kept k ∙ s.networks_kept k;
    endpoint_kept = λ n k. t.endpoint_kept n k ∙ s.endpoint_kept n k;
  }

  -- A container has been started in a network.
  pub record Started (request : ContainerRequest) (w : W) (id : Text) (v : W) : Type 0 where
    pub container_new : view.containers w id ≡ false
    pub running_now : SetTo (view.running w) (view.running v) id true
    pub networks_kept : AllKept (view.networks w) (view.networks v)
    pub endpoint_set : view.endpoint v request.network_id id ≡ some (settings_of request)
    pub endpoint_others :
        (n k : Text) → (id == k) ≡ false → view.endpoint v n k ≡ view.endpoint w n k

  -- A container has been created and connected, and does not run yet.
  record Attached (request : ContainerRequest) (w : W) (id : Text) (v : W) : Type 0 where
    container_new : view.containers w id ≡ false
    running_kept : AllKept (view.running w) (view.running v)
    networks_kept : AllKept (view.networks w) (view.networks v)
    endpoint_set : view.endpoint v request.network_id id ≡ some (settings_of request)
    endpoint_others : (n k : Text) → (id == k) ≡ false → view.endpoint v n k ≡ view.endpoint w n k

  attach :
      (request : ContainerRequest) {w u v x : W} (id : Text)
      → Same view w u
      → ContainerCreated view u id v
      → Connected view request.network_id id (settings_of request) v x
      → Attached request w id x
  attach request id s c a = record {
    container_new = sym (s.containers_kept id) ∙ c.container_new;
    running_kept = λ k. a.running_kept k ∙ (c.running_kept k ∙ s.running_kept k);
    networks_kept = λ k. a.networks_kept k ∙ (c.networks_kept k ∙ s.networks_kept k);
    endpoint_set = a.endpoint_set;
    endpoint_others =
        λ n k other. a.endpoint_others n k other ∙ (c.endpoint_kept n k ∙ s.endpoint_kept n k);
  }

  start :
      (request : ContainerRequest) {w u v : W} (id : Text)
      → Attached request w id u
      → ContainerStarted view id u v
      → Started request w id v
  start request id a b = record {
    container_new = a.container_new;
    running_now = λ k. b.running_now k ∙ ap (λ x. if id == k then true else x) (a.running_kept k);
    networks_kept = λ k. b.networks_kept k ∙ a.networks_kept k;
    endpoint_set = b.endpoint_kept request.network_id id ∙ a.endpoint_set;
    endpoint_others = λ n k other. b.endpoint_kept n k ∙ a.endpoint_others n k other;
  }

  -- The containers that existed run as they did. A container that the call created may be left.
  pub record Unstarted (w v : W) : Type 0 where
    pub running_kept : (k : Text) → view.containers w k ≡ true → view.running v k ≡ view.running w k
    pub networks_kept : AllKept (view.networks w) (view.networks v)

  pub Same-Unstarted : {w v : W} → Same view w v → Unstarted w v
  Same-Unstarted s = record {
    running_kept = λ k there. s.running_kept k;
    networks_kept = s.networks_kept;
  }

module _ {W : Type 0} (client : DockerClient W) (view : View W)
    (laws : DockerLaws client view) where
  is_image_available_locally-Same :
      (image : Text) (w : W)
      → Ends (λ _. Same view w) (Same view w) (is_image_available_locally client image w)
  unfolding is_image_available_locally
  is_image_available_locally-Same image w =
      Ends-bind _ _ (λ v s. s) (Ends-wrap Site.list_images _ (Ends-any _ (laws.image_list image w)))
        (λ l v s. Ends-returning _ _ s)

  pub network_exists-Same :
      (id : Text) (w : W) → Ends (λ _. Same view w) (Same view w) (network_exists client id w)
  unfolding network_exists
  network_exists-Same id w =
      Ends-bind _ _ (λ v s. s)
        (Ends-wrap Site.list_networks _ (Ends-any _ (laws.network_list id w)))
        (λ l v s. Ends-returning _ _ s)

  pull_unless-Same :
      (b : Bool) (image : Text) (w : W)
      → Ends (λ _. Same view w) (Same view w) (pull_unless client b image w)
  unfolding pull_unless pull_image
  pull_unless-Same true image w = Ends-returning _ _ (Same-refl view w)
  pull_unless-Same false image w =
      Ends-wrap Site.pull_image _ (Ends-wrap Site.pull _ (Ends-any _ (laws.image_pull image w)))

  start-Ends :
      (request : ContainerRequest) (w u : W) (id : Text)
      → Attached view request w id u
      → Ends
          (Started view request w)
          (Unstarted view w)
          ((wrap Site.start (client.container_start id) >> returning id) u)
  start-Ends request w u id a =
      Ends-bind _ _
        (λ v t. record {
          running_kept = λ k there.
              t.running_others k (ground (arith, a.container_new, ==_iff id k)) ∙ a.running_kept k;
          networks_kept = λ k. t.networks_kept k ∙ a.networks_kept k;
        })
        (Ends-wrap Site.start _ (laws.container_start id u))
        (λ t v b. Ends-returning id v (start view request id a b))

  -- From the creation of the container on.
  created-Ends :
      (request : ContainerRequest) (w : W) (u : W)
      → Same view w u
      → Ends (Started view request w) (Unstarted view w) (create_container client request u)
  unfolding create_container connect_to_network
  created-Ends request w u s =
      Ends-bind _ _
        (λ v t. record {
          running_kept = λ k there. t.running_kept k ∙ s.running_kept k;
          networks_kept = λ k. t.networks_kept k ∙ s.networks_kept k;
        })
        (Ends-wrap Site.container_create _ (laws.container_create _ _ u))
        (λ id w₁ c.
          Ends-bind _ _
            (λ v t. record {
              running_kept = λ k there. t.running_kept k ∙ (c.running_kept k ∙ s.running_kept k);
              networks_kept = λ k. t.networks_kept k ∙ (c.networks_kept k ∙ s.networks_kept k);
            })
            (Ends-wrap Site.connect_container _ (
              Ends-wrap Site.connect _
                (laws.network_connect request.network_id id (settings_of request) w₁)))
            (λ t w₂ a. start-Ends request w w₂ id (attach view request id s c a)))

  checked-Ends :
      (request : ContainerRequest) (w u : W) (found : Bool)
      → Same view w u
      → Ends (Started view request w) (Unstarted view w) (
          (fail_if (not found) (Site.no_network request.network_id)
              >> create_container client request)
            u)
  checked-Ends request w u found s =
      Ends-bind _ _ (λ v t. Same-Unstarted view t)
        (Ends-fail_if (not found) (Site.no_network request.network_id) u (λ b. s) (λ b. s))
        (λ t v r. created-Ends request w v r)

  Started-Ends :
      (request : ContainerRequest) (w : W)
      → Ends
          (Started view request w)
          (Unstarted view w)
          (create_and_start_container client request w)
  unfolding create_and_start_container connect_to_network
  Started-Ends request w =
      Ends-bind _ _ (λ v s. Same-Unstarted view s)
        (Ends-wrap Site.check_image _ (is_image_available_locally-Same request.docker_image w))
        (λ here w₁ s₁.
          Ends-bind _ _ (λ v s. Same-Unstarted view (Same-trans view s₁ s))
            (pull_unless-Same here request.docker_image w₁)
            (λ t w₂ s₂.
              Ends-bind _ _ (λ v s. Same-Unstarted view (Same-trans view s₁ (Same-trans view s₂ s)))
                (Ends-wrap Site.check_network _ (network_exists-Same request.network_id w₂))
                (λ found w₃ s₃.
                  checked-Ends request w w₃ found (Same-trans view s₁ (Same-trans view s₂ s₃)))))

-- Where Docker's calls do what `DockerLaws` says, and whichever call of CreateAndStartContainer
-- fails:
-- if it returns an ID, the container with this ID is new, it runs, it has been connected to the
-- requested network with endpoint settings whose IPAddress is the requested address, nothing else has been started, stopped or connected, and no network
-- has come or gone; if it returns an error, the containers that existed before run exactly if
-- they ran before, and the networks are those of before, even if the call that failed, or was
-- cancelled, had an effect.
pub create_and_start_container-Started :
    {W : Type 0} (client : DockerClient W) (view : View W) (request : ContainerRequest) (w : W)
    → DockerLaws client view
    → Ends (Started view request w) (Unstarted view w) (create_and_start_container client request w)
create_and_start_container-Started client view request w laws =
    Started-Ends client view laws request w
