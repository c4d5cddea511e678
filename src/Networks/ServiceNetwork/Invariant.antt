-- ===== src/Networks/ServiceNetwork/Invariant.antt =====
-- Lemmas on commons/networks/service_network.go: the invariant of a network.
use zz_deprecated_kurtosis.Base.{
  some-inj, ◌≢◌, ◌≡◌, refl, sym, ap, ◌∙◌, subst, List, true, false, if◌then◌else◌, Option, none,
  some, Bool-cases, Text, Dict, lookup, insert, delete, IsDict, insert-IsDict, delete-IsDict,
  lookup-insert, lookup-delete, lookup_empty, ◌==◌, ==_iff, text_eq, arith, ◌⊎◌, inl, inr, Result,
  ok, err,
}
use zz_deprecated_kurtosis.Net.Defs.{Ip}
use zz_deprecated_kurtosis.Net.Cidr.{ip_text}
use zz_deprecated_kurtosis.Networks.IpTracker.{FreeIpAddrTracker, is_taken, get_free_ip_addr}
use zz_deprecated_kurtosis.Networks.IpTracker.History.{Step, get-Step}
use zz_deprecated_kurtosis.Networks.IpTracker.Scan.{is_taken-insert}
use zz_deprecated_kurtosis.Services.{Host}
use zz_deprecated_kurtosis.Services.AvailabilityChecker.{Context, ServiceAvailabilityChecker}
use zz_deprecated_kurtosis.Networks.ServiceNetwork.{
  ServiceNode, ServiceConfig, ServiceNetwork, Outcome, new_service_network, register, with_address,
  allocate, add_checked, add_service,
}

-- What a lookup finds after an insertion.
pub inserted :
    {Service : Type 0} (id k : Text) (node a : ServiceNode Service)
    (m : Dict Text (ServiceNode Service))
    → lookup k (insert id node m) ≡ some a
    → ((k ≡ id) × (node ≡ a)) ⊎ (lookup k m ≡ some a)
inserted id k node a m e = elim (Bool-cases (id == k)) [
  | inl same ↦ inl (
    sym ((==_iff id k).0 same),
    cc (lookup-insert id k node m, ap (λ c. if c then some node else lookup k m) same),
  )
  | inr other ↦
      inr (cc (lookup-insert id k node m, ap (λ c. if c then some node else lookup k m) other))
]

module _ {W Service : Type 0} where
  -- One node per ID, every node's address is taken in the tracker, and no two nodes share one.
  pub record Sound (n : ServiceNetwork W Service) : Type 0 where
    pub dict : IsDict n.service_nodes
    pub taken :
        (k : Text) (a : ServiceNode Service)
        → lookup k n.service_nodes ≡ some a
        → is_taken n.free_ip_tracker.taken_ips (ip_text a.ip_addr) ≡ true
    pub apart :
        (j k : Text) (a b : ServiceNode Service)
        → lookup j n.service_nodes ≡ some a
        → lookup k n.service_nodes ≡ some b
        → ip_text a.ip_addr ≡ ip_text b.ip_addr
        → j ≡ k

  pub tracker-Sound :
      (n : ServiceNetwork W Service) (t : FreeIpAddrTracker)
      → ((s : Text) → is_taken n.free_ip_tracker.taken_ips s ≡ true → is_taken t.taken_ips s ≡ true)
      → Sound n
      → Sound (record n { free_ip_tracker = t })
  tracker-Sound n t more h = record {
    dict = h.dict;
    taken = λ k a e. more (ip_text a.ip_addr) (h.taken k a e);
    apart = h.apart;
  }

  -- A node of a sound network does not have an address that is free.
  not_free :
      (n : ServiceNetwork W Service) (k : Text) (a node : ServiceNode Service)
      → Sound n
      → is_taken n.free_ip_tracker.taken_ips (ip_text node.ip_addr) ≡ false
      → lookup k n.service_nodes ≡ some a
      → ip_text a.ip_addr ≢ ip_text node.ip_addr
  not_free n k a node h free e same =
      cc (h.taken k a e, ap (is_taken n.free_ip_tracker.taken_ips) same, free)

  insert-Sound :
      (n : ServiceNetwork W Service) (t : FreeIpAddrTracker) (id : Text)
      (node : ServiceNode Service)
      → is_taken n.free_ip_tracker.taken_ips (ip_text node.ip_addr) ≡ false
      → ((s : Text)
          → is_taken t.taken_ips s
            ≡ (if s == ip_text node.ip_addr then true else is_taken n.free_ip_tracker.taken_ips s))
      → Sound n
      → Sound (record n { free_ip_tracker = t; service_nodes = insert id node n.service_nodes })
  insert-Sound n t id node free marked h = record {
    dict = insert-IsDict id node n.service_nodes h.dict;
    taken = λ k a e. ground (
      arith,
      lookup-insert id k node n.service_nodes,
      marked (ip_text a.ip_addr),
      ==_iff (ip_text a.ip_addr) (ip_text node.ip_addr),
      h.taken k a,
      ==_iff id k,
    );
    apart = λ j k a b e f g. elim (inserted id j node a n.service_nodes e) [
      | inl (jid, na) ↦ elim (inserted id k node b n.service_nodes f) [
        | inl (kid, nb) ↦ jid ∙ sym kid
        | inr old ↦ absurd (
            not_free n k b node h free old
              (sym g ∙ ap (λ (x : ServiceNode Service). ip_text x.ip_addr) (sym na)))
      ]
      | inr old ↦ elim (inserted id k node b n.service_nodes f) [
        | inl (kid, nb) ↦ absurd (
            not_free n j a node h free old
              (g ∙ ap (λ (x : ServiceNode Service). ip_text x.ip_addr) (sym nb)))
        | inr old' ↦ h.apart j k a b old old' g
      ]
    ];
  }

  -- A node may be entered long after its address was taken, while no other node has the address.
  pub enter-Sound :
      (n : ServiceNetwork W Service) (id : Text) (node : ServiceNode Service)
      → is_taken n.free_ip_tracker.taken_ips (ip_text node.ip_addr) ≡ true
      → ((k : Text) (a : ServiceNode Service)
          → lookup k n.service_nodes ≡ some a
          → ip_text a.ip_addr ≢ ip_text node.ip_addr)
      → Sound n
      → Sound (record n { service_nodes = insert id node n.service_nodes })
  enter-Sound n id node taken unused h = record {
    dict = insert-IsDict id node n.service_nodes h.dict;
    taken = λ k a e. elim (inserted id k node a n.service_nodes e) [
      | inl (kid, same) ↦
          subst
            (λ (x : ServiceNode Service).
              is_taken n.free_ip_tracker.taken_ips (ip_text x.ip_addr) ≡ true)
            same taken
      | inr old ↦ h.taken k a old
    ];
    apart = λ j k a b e f g. elim (inserted id j node a n.service_nodes e) [
      | inl (jid, na) ↦ elim (inserted id k node b n.service_nodes f) [
        | inl (kid, nb) ↦ jid ∙ sym kid
        | inr old ↦
            absurd (
              unused k b old (sym g ∙ ap (λ (x : ServiceNode Service). ip_text x.ip_addr) (sym na)))
      ]
      | inr old ↦ elim (inserted id k node b n.service_nodes f) [
        | inl (kid, nb) ↦
            absurd
              (unused j a old (g ∙ ap (λ (x : ServiceNode Service). ip_text x.ip_addr) (sym nb)))
        | inr old' ↦ h.apart j k a b old old' g
      ]
    ];
  }

  pub delete-Sound :
      (n : ServiceNetwork W Service) (id : Text)
      → Sound n
      → Sound (record n { service_nodes = delete id n.service_nodes })
  delete-Sound n id h = record {
    dict = delete-IsDict id n.service_nodes h.dict;
    taken = λ k a e. h.taken k a (ground (arith, lookup-delete id k n.service_nodes));
    apart = λ j k a b e f g.
        h.apart j k a b (ground (arith, lookup-delete id j n.service_nodes))
          (ground (arith, lookup-delete id k n.service_nodes)) g;
  }

  -- A new network is sound, whatever its tracker.
  pub new-Sound :
      (t : FreeIpAddrTracker) (net_id : Text) (configs : Dict Text (ServiceConfig W Service))
      (volume dir : Text)
      → Sound (new_service_network t net_id configs volume dir)
  unfolding new_service_network
  new-Sound t net_id configs volume dir = record {
    dict = tt;
    taken = λ k a e. cc (lookup_empty k);
    apart = λ j k a b e f g. cc (lookup_empty j);
  }

module _ {W Service : Type 0} (host : Host W) (background : Context) where
  register-Sound :
      (id : Text) (config : ServiceConfig W Service) (deps : List Service) (ip : Ip)
      (n : ServiceNetwork W Service) (t : FreeIpAddrTracker) (r : Result (Service × Text) × W)
      → Step n.free_ip_tracker (ok ip, t)
      → Sound n
      → Sound (register background id config deps ip (record n { free_ip_tracker = t }) r).network
  register-Sound id config deps ip n t (err e, w) (free, marked) h =
      tracker-Sound n t
        (λ s e. ground (
          arith,
          ap (λ m. is_taken m s) marked,
          is_taken-insert n.free_ip_tracker.taken_ips (ip_text ip) s,
        ))
        h
  register-Sound id config deps ip n t (ok (service, container_id), w) (free, marked) h =
      insert-Sound n t id _ free
        (λ s. ground (
          arith,
          ap (λ m. is_taken m s) marked,
          is_taken-insert n.free_ip_tracker.taken_ips (ip_text ip) s,
          ==_iff s (ip_text ip),
          ==_iff (ip_text ip) s,
        ))
        h

  address-Sound :
      (id : Text) (config : ServiceConfig W Service) (deps : List Service)
      (n : ServiceNetwork W Service) (w : W) (r : Result Ip × FreeIpAddrTracker)
      → Step n.free_ip_tracker r
      → Sound n
      → Sound (with_address host background id config deps n w r).network
  address-Sound id config deps n w (err e, t) (_, same) h =
      tracker-Sound n t (λ s e. ap (λ m. is_taken m s) same ∙ e) h
  address-Sound id config deps n w (ok ip, t) step h = register-Sound id config deps ip n t _ step h

  allocate-Sound :
      (id : Text) (config : ServiceConfig W Service) (deps : List Service)
      (n : ServiceNetwork W Service) (w : W) (call : Option (Result Ip × FreeIpAddrTracker))
      (o : Outcome W Service (ServiceAvailabilityChecker Service))
      → ((r : Result Ip × FreeIpAddrTracker) → call ≡ some r → Step n.free_ip_tracker r)
      → allocate host background id config deps n w call ≡ some o
      → Sound n
      → Sound o.network
  allocate-Sound id config deps n w none o steps e h = cc
  allocate-Sound id config deps n w (some r) o steps e h =
      subst (λ (p : Outcome W Service (ServiceAvailabilityChecker Service)). Sound p.network)
        (some-inj e) (address-Sound id config deps n w r (steps r refl) h)

  checked-Sound :
      (id : Text) (n : ServiceNetwork W Service) (w : W)
      (r : Result (ServiceConfig W Service × List Service))
      (o : Outcome W Service (ServiceAvailabilityChecker Service))
      → add_checked host background id n w r ≡ some o
      → Sound n
      → Sound o.network
  checked-Sound id n w (err e) o eq h =
      subst (λ (p : Outcome W Service (ServiceAvailabilityChecker Service)). Sound p.network)
        (some-inj eq) h
  checked-Sound id n w (ok (config, deps)) o eq h =
      allocate-Sound id config deps n w (get_free_ip_addr n.free_ip_tracker) o
        (get-Step n.free_ip_tracker) eq h

-- Whatever the request, and whether a service is added or not: in the network that AddService
-- leaves, as in the one it started from, each ID has one node, each node's address is taken in the
-- tracker, and no two nodes have the same address.
pub add_service-Sound :
    {W Service : Type 0} (host : Host W) (background : Context) (n : ServiceNetwork W Service)
    (w : W) (configuration_id service_id : Text) (dependencies : Option (List Text))
    (o : Outcome W Service (ServiceAvailabilityChecker Service))
    → Sound n
    → add_service host background configuration_id service_id dependencies n w ≡ some o
    → Sound o.network
unfolding add_service
add_service-Sound host background n w configuration_id service_id dependencies o h e =
    checked-Sound host background service_id n w _ o e h
