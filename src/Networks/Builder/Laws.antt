-- ===== src/Networks/Builder/Laws.antt =====
-- Lemmas on commons/networks/service_network_builder.go: the configurations of a built network.
use zz_deprecated_kurtosis.Base.{
  ◌≡◌, refl, ap, ◌∙◌, List, [], ◌∷◌, Bool, true, false, if◌then◌else◌, Option, none, some, Text,
  Dict, lookup, insert, IsDict, insert-IsDict, lookup-insert, lookup_empty, ◌==◌, ==_iff, text_eq,
  arith,
}
use zz_deprecated_kurtosis.Networks.IpTracker.{FreeIpAddrTracker}
use zz_deprecated_kurtosis.Networks.ServiceNetwork.{ServiceConfig, new_service_network}
use zz_deprecated_kurtosis.Networks.ServiceNetwork.Invariant.{Sound, new-Sound}
use zz_deprecated_kurtosis.Networks.Builder.{
  ServiceNetworkBuilder, new_service_network_builder, add_configuration, copy_configurations, build,
}

module _ {W Service : Type 0} where
  -- Calls of AddConfiguration, whose errors the caller ignores.
  unfoldable pub add_all :
      List (Text × ServiceConfig W Service)
      → ServiceNetworkBuilder W Service
      → ServiceNetworkBuilder W Service
  add_all [] builder = builder
  add_all ((id, config) ∷ more) builder =
      add_all more
        (add_configuration id config.docker_image config.initializer_core
          config.availability_checker_core builder).1

  -- The first configuration of an ID, after those that the builder has.
  abbrev pub or_else :
      Option (ServiceConfig W Service)
      → Option (ServiceConfig W Service)
      → Option (ServiceConfig W Service)
  or_else none other = other
  or_else (some config) other = some config

  add-lookup :
      (id k : Text) (config : ServiceConfig W Service) (b : ServiceNetworkBuilder W Service)
      → lookup k
          (add_configuration id config.docker_image config.initializer_core
            config.availability_checker_core b).1.configurations
        ≡ or_else (lookup k b.configurations) (if id == k then some config else none)
  unfolding add_configuration
  add-lookup id k config b = ground (arith, lookup-insert id k config b.configurations, ==_iff id k)

  add-IsDict :
      (id : Text) (config : ServiceConfig W Service) (b : ServiceNetworkBuilder W Service)
      → IsDict b.configurations
      → IsDict
          (add_configuration id config.docker_image config.initializer_core
            config.availability_checker_core b).1.configurations
  unfolding add_configuration
  add-IsDict id config b h = ground (arith, insert-IsDict id config b.configurations h)

  or_else_if :
      (c : Bool) (config : ServiceConfig W Service) (o later : Option (ServiceConfig W Service))
      → or_else (or_else o (if c then some config else none)) later
        ≡ or_else o (if c then some config else later)
  or_else_if true config none later = refl
  or_else_if true config (some x) later = refl
  or_else_if false config none later = refl
  or_else_if false config (some x) later = refl

  or_else-none : (o : Option (ServiceConfig W Service)) → or_else o none ≡ o
  or_else-none none = refl
  or_else-none (some x) = refl

  all-lookup :
      (k : Text) (regs : List (Text × ServiceConfig W Service))
      (b : ServiceNetworkBuilder W Service)
      → lookup k (add_all regs b).configurations
        ≡ or_else (lookup k b.configurations) (lookup k regs)
  unfolding add_all lookup
  all-lookup k [] b = ground arith
  all-lookup k ((id, config) ∷ more) b =
      all-lookup k more _
      ∙ (ap (λ o. or_else o (lookup k more)) (add-lookup id k config b)
          ∙ or_else_if (id == k) config (lookup k b.configurations) (lookup k more))

  all-IsDict :
      (regs : List (Text × ServiceConfig W Service)) (b : ServiceNetworkBuilder W Service)
      → IsDict b.configurations
      → IsDict (add_all regs b).configurations
  unfolding add_all
  all-IsDict [] b h = h
  all-IsDict ((id, config) ∷ more) b h = all-IsDict more _ (add-IsDict id config b h)

  copy-lookup :
      (k : Text) (m acc : Dict Text (ServiceConfig W Service))
      → IsDict m
      → lookup k (copy_configurations acc m) ≡ or_else (lookup k m) (lookup k acc)
  unfolding copy_configurations lookup
  copy-lookup k [] acc d = refl
  copy-lookup k ((id, config) ∷ m) acc d = ground (
    arith,
    copy-lookup k m (insert id config acc) d.1,
    lookup-insert id k config acc,
    ==_iff id k,
    d.0,
  )

-- After any calls of AddConfiguration to a new builder, the network it builds has, for every ID, the
-- configuration of the first call with that ID, and none where there was no call; and it is sound.
pub build_first_registered :
    {W Service : Type 0} (network_id : Text) (t : FreeIpAddrTracker) (volume dir : Text)
    (regs : List (Text × ServiceConfig W Service)) (k : Text)
    → (lookup k
          (build
            (add_all regs (new_service_network_builder network_id t volume dir))).configurations
        ≡ lookup k regs)
      × Sound (build (add_all regs (new_service_network_builder network_id t volume dir)))
unfolding build new_service_network new_service_network_builder
build_first_registered network_id t volume dir regs k = (
  copy-lookup k _ [] (all-IsDict regs (new_service_network_builder network_id t volume dir) tt)
      ∙ (ap (or_else _) (lookup_empty k)
          ∙ (or_else-none _
              ∙ (all-lookup k regs (new_service_network_builder network_id t volume dir)
                  ∙ ap (λ o. or_else o (lookup k regs)) (lookup_empty k)))),
  new-Sound _ _ _ _ _,
)
