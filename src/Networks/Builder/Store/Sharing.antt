-- ===== src/Networks/Builder/Store/Sharing.antt =====
-- Lemmas on commons/networks/service_network_builder.go: what a builder and the networks that it
-- built share.
use zz_deprecated_kurtosis.Base.{
  ℕ, ◌<◌, ◌≡◌, ◌≢◌, refl, sym, ap, ◌∙◌, nat_beq_iff, List, [], ◌∷◌, Bool, true, false,
  if◌then◌else◌, Text, Dict, lookup, insert, found, text_eq, arith, Result,
}
use zz_deprecated_kurtosis.Networks.IpTracker.{FreeIpAddrTracker}
use zz_deprecated_kurtosis.Networks.ServiceNetwork.{ServiceConfig, new_service_network}
use zz_deprecated_kurtosis.Networks.Builder.{
  ServiceNetworkBuilder, add_configuration, copy_configurations, build,
}
use zz_deprecated_kurtosis.Networks.Builder.Laws.{add_all}
use zz_deprecated_kurtosis.Networks.Builder.Store.{
  Memory, BuilderObject, read_builder, read_network, write_map, make_map, add_configuration_in,
  copy_into, build_in,
}

module _ {W Service : Type 0} where
  -- Calls of AddConfiguration on a builder, whose errors the caller ignores.
  unfoldable pub add_all_in :
      List (Text × ServiceConfig W Service) → BuilderObject → Memory W Service → Memory W Service
  add_all_in [] builder memory = memory
  add_all_in ((id, config) ∷ more) builder memory =
      add_all_in more builder
        (add_configuration_in id config.docker_image config.initializer_core
          config.availability_checker_core builder memory).1

  written :
      (ref : ℕ) (key : Text) (config : ServiceConfig W Service) (m : Memory W Service)
      → (write_map ref key config m).maps ref ≡ insert key config (m.maps ref)
  written ref key config m = ground (arith, nat_beq_iff ref ref)

  not_written :
      (ref other : ℕ) (key : Text) (config : ServiceConfig W Service) (m : Memory W Service)
      → ref ≢ other
      → (write_map ref key config m).maps other ≡ m.maps other
  not_written ref other key config m ne = ground (arith, nat_beq_iff ref other)

  -- AddConfiguration does to the builder what it does to its value, and nothing to other maps.
  add-read :
      (id : Text) (config : ServiceConfig W Service) (b : BuilderObject) (m : Memory W Service)
      → read_builder
          (add_configuration_in id config.docker_image config.initializer_core
            config.availability_checker_core b m).1
          b
        ≡ (add_configuration id config.docker_image config.initializer_core
            config.availability_checker_core
            (read_builder m b)).1
  unfolding add_configuration_in add_configuration
  add-read id config b m = by_guard (found (lookup id (m.maps b.configurations))) _ _
    where
      by_guard :
          (g : Bool) (x y : Result (Unit {0}))
          → read_builder
              (if◌then◌else◌ {A = Result (Unit {0}) × Memory W Service} g
                (x, m)
                (y, write_map b.configurations id config m)).1
              b
            ≡ (if◌then◌else◌ {A = Result (Unit {0}) × ServiceNetworkBuilder W Service} g
                (x, read_builder m b)
                (
                  y,
                  record (read_builder m b) {
                    configurations = insert id config (m.maps b.configurations);
                  },
                )).1
      by_guard true x y = refl
      by_guard false x y =
          ap (λ c. record (read_builder m b) { configurations = c })
            (written b.configurations id config m)

  -- What calls that write to one map keep.
  record Kept (ref : ℕ) (m n : Memory W Service) : Type 0 where
    others : (other : ℕ) → ref ≢ other → n.maps other ≡ m.maps other
    trackers_kept : n.trackers ≡ m.trackers

  Kept-refl : (ref : ℕ) (m : Memory W Service) → Kept ref m m
  Kept-refl ref m = record { others = λ other ne. refl; trackers_kept = refl }

  Kept-trans : (ref : ℕ) (m n o : Memory W Service) → Kept ref m n → Kept ref n o → Kept ref m o
  Kept-trans ref m n o k l = record {
    others = λ other ne. l.others other ne ∙ k.others other ne;
    trackers_kept = l.trackers_kept ∙ k.trackers_kept;
  }

  Kept-write :
      (ref : ℕ) (key : Text) (config : ServiceConfig W Service) (m : Memory W Service)
      → Kept ref m (write_map ref key config m)
  Kept-write ref key config m = record {
    others = λ other ne. not_written ref other key config m ne;
    trackers_kept = refl;
  }

  Kept-add :
      (id : Text) (config : ServiceConfig W Service) (b : BuilderObject) (m : Memory W Service)
      → Kept b.configurations m
          (add_configuration_in id config.docker_image config.initializer_core
            config.availability_checker_core b m).1
  unfolding add_configuration_in
  Kept-add id config b m = by_guard (found (lookup id (m.maps b.configurations))) _ _
    where
      by_guard :
          (g : Bool) (x y : Result (Unit {0}))
          → Kept b.configurations m
              (if◌then◌else◌ {A = Result (Unit {0}) × Memory W Service} g
                (x, m)
                (y, write_map b.configurations id config m)).1
      by_guard true x y = Kept-refl b.configurations m
      by_guard false x y = Kept-write b.configurations id config m

  Kept-add_all :
      (regs : List (Text × ServiceConfig W Service)) (b : BuilderObject) (m : Memory W Service)
      → Kept b.configurations m (add_all_in regs b m)
  unfolding add_all_in
  Kept-add_all [] b m = Kept-refl b.configurations m
  Kept-add_all ((id, config) ∷ more) b m =
      Kept-trans b.configurations m _ _ (Kept-add id config b m) (Kept-add_all more b _)

  add_all-read :
      (regs : List (Text × ServiceConfig W Service)) (b : BuilderObject) (m : Memory W Service)
      → read_builder (add_all_in regs b m) b ≡ add_all regs (read_builder m b)
  unfolding add_all_in add_all
  add_all-read [] b m = refl
  add_all-read ((id, config) ∷ more) b m =
      add_all-read more b _ ∙ ap (add_all more) (add-read id config b m)

  Kept-copy :
      (ref : ℕ) (entries : Dict Text (ServiceConfig W Service)) (m : Memory W Service)
      → Kept ref m (copy_into ref entries m)
  unfolding copy_into
  Kept-copy ref [] m = Kept-refl ref m
  Kept-copy ref ((id, config) ∷ more) m =
      Kept-trans ref m _ _ (Kept-write ref id config m) (Kept-copy ref more _)

  copy-read :
      (ref : ℕ) (entries : Dict Text (ServiceConfig W Service)) (m : Memory W Service)
      → (copy_into ref entries m).maps ref ≡ copy_configurations (m.maps ref) entries
  unfolding copy_into copy_configurations
  copy-read ref [] m = refl
  copy-read ref ((id, config) ∷ more) m =
      copy-read ref more _ ∙ ap (λ c. copy_configurations c more) (written ref id config m)

  made : (m : Memory W Service) → (make_map m).maps m.next_map ≡ []
  made m = ground (arith, nat_beq_iff m.next_map m.next_map)

  Kept-make : (m : Memory W Service) → Kept m.next_map m (make_map m)
  Kept-make m = record {
    others = λ other ne. ground (arith, nat_beq_iff m.next_map other);
    trackers_kept = refl;
  }

  Kept-build : (b : BuilderObject) (m : Memory W Service) → Kept m.next_map m (build_in b m).1
  unfolding build_in
  Kept-build b m =
      Kept-trans m.next_map m (make_map m) _ (Kept-make m)
        (Kept-copy m.next_map (m.maps b.configurations) (make_map m))

  -- Two memories in which an object's references hold the same.
  read_builder-ext :
      (b : BuilderObject) (m n : Memory W Service)
      → n.maps b.configurations ≡ m.maps b.configurations
      → n.trackers ≡ m.trackers
      → read_builder n b ≡ read_builder m b
  read_builder-ext b m n e f =
      ap (λ c. record (read_builder n b) { configurations = c }) e
      ∙ ap
          (λ (t : ℕ → FreeIpAddrTracker). record (read_builder m b) {
            free_ip_tracker = t b.free_ip_tracker;
          })
          f

  network-read :
      (b : BuilderObject) (m n : Memory W Service)
      → n.maps m.next_map ≡ copy_configurations [] (m.maps b.configurations)
      → n.trackers ≡ m.trackers
      → read_network n (build_in b m).0 ≡ build (read_builder m b)
  unfolding build_in build
  network-read b m n e f =
      ap
        (λ c.
          new_service_network (n.trackers b.free_ip_tracker) b.docker_network_id c b.test_volume
            b.test_volume_controller_dirpath)
        e
      ∙ ap
          (λ (t : ℕ → FreeIpAddrTracker).
            new_service_network (t b.free_ip_tracker) b.docker_network_id
              (copy_configurations [] (m.maps b.configurations)) b.test_volume
              b.test_volume_controller_dirpath)
          f

  built_map :
      (b : BuilderObject) (m : Memory W Service)
      → m.next_map ≢ b.configurations
      → (build_in b m).1.maps m.next_map ≡ copy_configurations [] (m.maps b.configurations)
  unfolding build_in
  built_map b m ne =
      copy-read m.next_map (m.maps b.configurations) (make_map m)
      ∙ ap (λ c. copy_configurations c (m.maps b.configurations)) (made m)

-- A builder whose map is in use builds a network; whatever is then registered with the builder, by
-- any number of calls of AddConfiguration: the network is still the one that Build makes of the
-- builder as it was, with a map of its own and the builder's tracker; and the builder is what the
-- calls make of it, as if it had not built anything.
pub build_in-Separate :
    {W Service : Type 0} (b : BuilderObject) (memory : Memory W Service)
    (regs : List (Text × ServiceConfig W Service))
    → b.configurations < memory.next_map
    → (read_network (add_all_in regs b (build_in b memory).1) (build_in b memory).0
        ≡ build (read_builder memory b))
      × (read_builder (add_all_in regs b (build_in b memory).1) b
          ≡ add_all regs (read_builder memory b))
      × ((build_in b memory).0.free_ip_tracker ≡ b.free_ip_tracker)
unfolding build_in
build_in-Separate b memory regs used =
    let (_, after) = build_in b memory in
    let built = Kept-build b memory in
    let later = Kept-add_all regs b after in
    let apart : b.configurations ≢ memory.next_map = λ e. omega arith in
    (
      network-read b memory (add_all_in regs b after)
          (later.others memory.next_map apart ∙ built_map b memory (λ e. apart (sym e)))
          (later.trackers_kept ∙ built.trackers_kept),
      add_all-read regs b after
          ∙ ap (add_all regs) (
              read_builder-ext b memory after (built.others b.configurations (λ e. apart (sym e)))
                built.trackers_kept),
      refl,
    )
