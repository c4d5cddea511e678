-- ===== src/Networks/ServiceNetwork/Lookups.antt =====
-- Lemmas on commons/networks/service_network.go: what GetService and GetSize see of removals.
use zz_deprecated_kurtosis.Base.{
  or_fail-eq-ok, ℕ, ◌+◌, ◌≡◌, ◌≢◌, ◌↔◌, refl, sym, ap, ◌∙◌, subst, [], ◌∷◌, none, some, Text, Dict,
  keys, lookup, delete, IsDict, lookup-delete, length-delete_present, delete_absent, ==_iff,
  ==_refl, text_eq, arith, failed, Site, ok, err, or_fail,
}
use zz_deprecated_kurtosis.Services.{Host}
use zz_deprecated_kurtosis.Networks.ServiceNetwork.{
  ServiceNode, ServiceNetwork, Outcome, get_service, get_size, remove_found, remove_service,
  remove_each, remove_all,
}
use zz_deprecated_kurtosis.Networks.ServiceNetwork.Invariant.{Sound, delete-Sound}

-- What the removal of a service that is there leaves.
pub record Removed {W Service : Type 0} (host : Host W) (timeout : ℕ) (id : Text)
    (n : ServiceNetwork W Service) (w : W) (node : ServiceNode Service)
    (o : Outcome W Service (Unit {0})) : Type 0 where
  pub succeeds : o.result ≡ ok tt
  pub stopped : o.world ≡ (host.stop_container node.container_id timeout w).1
  pub gone : get_service id o.network ≡ err (failed (Site.no_service id))
  pub others : (k : Text) → k ≢ id → get_service k o.network ≡ get_service k n
  pub smaller : get_size n ≡ get_size o.network + 1
  pub sound : Sound o.network

module _ {W Service : Type 0} (host : Host W) (timeout : ℕ) where
  remove_service-lookup :
      (id : Text) (n : ServiceNetwork W Service) (w : W) (node : ServiceNode Service)
      → lookup id n.service_nodes ≡ some node
      → remove_service host timeout id n w ≡ remove_found host timeout id n w (some node)
  unfolding remove_service
  remove_service-lookup id n w node e = ap (remove_found host timeout id n w) e

  found-Removed :
      (id : Text) (n : ServiceNetwork W Service) (w : W) (node : ServiceNode Service)
      → Sound n
      → lookup id n.service_nodes ≡ some node
      → Removed host timeout id n w node (remove_found host timeout id n w (some node))
  unfolding get_service get_size
  found-Removed id n w node h e = record {
    succeeds = refl;
    stopped = refl;
    gone = rw (lookup-delete id id n.service_nodes, ==_refl id) refl;
    others = λ k other.
        ap (λ o. or_fail o (Site.no_service k))
          (ground (arith, lookup-delete id k n.service_nodes, ==_iff id k));
    smaller = length-delete_present id n.service_nodes node h.dict e;
    sound = delete-Sound n id h;
  }

-- What GetService returns is what the map of the nodes has.
pub get_service-lookup :
    {W Service : Type 0} (id : Text) (n : ServiceNetwork W Service) (node : ServiceNode Service)
    → (get_service id n ≡ ok node) ↔ (lookup id n.service_nodes ≡ some node)
unfolding get_service
get_service-lookup id n node = (
  or_fail-eq-ok (lookup id n.service_nodes) (Site.no_service id) node,
  (λ e. ap (λ o. or_fail o (Site.no_service id)) e),
)

-- Removing a service that GetService finds never fails, whatever Docker answers: its container was
-- told to stop, GetService no longer finds it, finds every other service as before, and there is one
-- service less; the network stays sound.
pub remove_service-Removed :
    {W Service : Type 0} (host : Host W) (timeout : ℕ) (id : Text) (n : ServiceNetwork W Service)
    (w : W) (node : ServiceNode Service)
    → Sound n
    → get_service id n ≡ ok node
    → Removed host timeout id n w node (remove_service host timeout id n w)
unfolding get_service
remove_service-Removed host timeout id n w node h e =
    let there = or_fail-eq-ok (lookup id n.service_nodes) (Site.no_service id) node e in
    subst (Removed host timeout id n w node)
      (sym (remove_service-lookup host timeout id n w node there))
      (found-Removed host timeout id n w node h there)

module _ {Service : Type 0} (id : Text) (node : ServiceNode Service)
    (more : Dict Text (ServiceNode Service)) where
  delete_first : lookup id more ≡ none → delete id ((id, node) ∷ more) ≡ more
  unfolding delete
  delete_first new = ground (arith, ==_refl id, delete_absent id more new)

  lookup_first : lookup id ((id, node) ∷ more) ≡ some node
  unfolding lookup
  lookup_first = ground (arith, ==_refl id)

module _ {W Service : Type 0} (host : Host W) (timeout : ℕ) where
  -- The stops of the containers of some nodes, in order.
  unfoldable pub stop_each : Dict Text (ServiceNode Service) → W → W
  stop_each [] w = w
  stop_each ((id, node) ∷ more) w =
      stop_each more (host.stop_container node.container_id timeout w).1

  remove_first :
      (id : Text) (node : ServiceNode Service) (more : Dict Text (ServiceNode Service))
      (n : ServiceNetwork W Service) (w : W)
      → lookup id more ≡ none
      → remove_service host timeout id (record n { service_nodes = (id, node) ∷ more }) w ≡ record {
        result = ok tt;
        network = record n { service_nodes = more };
        world = (host.stop_container node.container_id timeout w).1;
      }
  remove_first id node more n w new =
      remove_service-lookup host timeout id (record n { service_nodes = (id, node) ∷ more }) w node
        (lookup_first id node more)
      ∙ ap
          (λ m. record {
            result = ok tt;
            network = record n { service_nodes = m };
            world = (host.stop_container node.container_id timeout w).1;
          })
          (delete_first id node more new)

  each_removed :
      (m : Dict Text (ServiceNode Service)) (n : ServiceNetwork W Service) (w : W)
      → IsDict m
      → remove_each host timeout (keys m) (record n { service_nodes = m }) w
        ≡ (record n { service_nodes = [] }, stop_each m w)
  unfolding remove_each stop_each
  each_removed [] n w d = refl
  each_removed ((id, node) ∷ more) n w d =
      ap
        (λ (o : Outcome W Service (Unit {0})).
          remove_each host timeout (keys more) o.network o.world)
        (remove_first id node more n w d.0)
      ∙ each_removed more n (host.stop_container node.container_id timeout w).1 d.1

-- RemoveAll leaves no service and never fails, whatever Docker answers; it has told the container of
-- each node to stop, once each, in the order in which the map is visited, whatever that order.
pub remove_all-empty :
    {W Service : Type 0} (host : Host W) (timeout : ℕ) (n : ServiceNetwork W Service) (w : W)
    → Sound n
    → remove_all host timeout n w ≡ record {
      result = ok tt;
      network = record n { service_nodes = [] };
      world = stop_each host timeout n.service_nodes w;
    }
unfolding remove_all
remove_all-empty host timeout n w h =
    ap (λ p. record { result = ok tt; network = p.0; world = p.1 })
      (each_removed host timeout n.service_nodes n w h.dict)
