-- ===== src/Controller/Late/Leftovers.antt =====
-- Lemmas on RunTest of controller/test_controller.go around the execution timeout: what RemoveAll
-- leaves when the test goes on.
use zz_deprecated_kurtosis.Base.{
  ℕ, ◌≡◌, ◌≢◌, refl, sym, ap, subst, ◌∙◌, ◌⊎◌, inl, inr, List, [], ◌∷◌, Option, none, some, Text,
  Dict, keys, lookup, insert, lookup_empty, lookup-delete, ◌==◌, ==_iff, ==_refl, text_eq, true,
  false, Bool-cases, arith, Result, ok, err, some-inj,
}
use zz_deprecated_kurtosis.Net.Defs.{Ip}
use zz_deprecated_kurtosis.Net.Cidr.{ip_text}
use zz_deprecated_kurtosis.Services.{Host}
use zz_deprecated_kurtosis.Services.AvailabilityChecker.{Context}
use zz_deprecated_kurtosis.Networks.IpTracker.{FreeIpAddrTracker, is_taken, get_free_ip_addr}
use zz_deprecated_kurtosis.Networks.IpTracker.History.{Step, get-Step}
use zz_deprecated_kurtosis.Networks.IpTracker.Scan.{is_taken-insert}
use zz_deprecated_kurtosis.Networks.ServiceNetwork.{
  ServiceConfig, ServiceNode, ServiceNetwork, Outcome, remove_found, remove_service, remove_all,
}
use zz_deprecated_kurtosis.Networks.ServiceNetwork.Invariant.{inserted, tracker-Sound, enter-Sound}
use zz_deprecated_kurtosis.Networks.ServiceNetwork.Addresses.{
  Later, Later-trans, get_free_ip_addr-Later,
}
use zz_deprecated_kurtosis.Networks.ServiceNetwork.Lookups.{remove_all-empty}
use zz_deprecated_kurtosis.Controller.TestController.{container_stop_timeout}
use zz_deprecated_kurtosis.Controller.Upkeep.{Kept, Upkept, Upkept-Kept}
use zz_deprecated_kurtosis.Controller.Late.{
  InFlight, Late, begun, entered, after_removal, LateStep, stop, visit, visit_added, add_refused,
  add_without_address, add_begins, add_creates, add_enters, removes, clears, acts, LateSteps, here,
  next, using,
}

abbrev pub Among : Text → List Text → Type 0
Among k [] = ⊥
Among k (x ∷ xs) = (k ≡ x) ⊎ Among k xs

-- Every service is yet to be visited, or was added meanwhile.
abbrev Accounted : {W Service : Type 0} → ServiceNetwork W Service → List Text → List Text → Type 0
Accounted {Service} n to_visit added =
    (k : Text) (a : ServiceNode Service)
    → lookup k n.service_nodes ≡ some a
    → Among k to_visit ⊎ Among k added

Among-keys :
    {V : Type 0} (k : Text) (m : Dict Text V) (v : V) → lookup k m ≡ some v → Among k (keys m)
unfolding lookup
Among-keys k [] v e = cc
Among-keys k ((j, u) ∷ m) v e = elim (Bool-cases (j == k)) [
  | inl same ↦ inl (sym ((==_iff j k).0 same))
  | inr other ↦ inr (Among-keys k m v (ground arith))
]

module _ {W Service : Type 0} (host : Host W) (background : Context)
    (n : ServiceNetwork W Service) where
  -- RemoveService leaves what it was not called for.
  remove-lookup :
      (timeout : ℕ) (id k : Text) (w : W) (a : ServiceNode Service)
      → lookup k (remove_service host timeout id n w).network.service_nodes ≡ some a
      → (k ≢ id) × (lookup k n.service_nodes ≡ some a)
  unfolding remove_service
  remove-lookup timeout id k w a e = by_found (lookup id n.service_nodes) refl e
    where
      by_found :
          (there : Option (ServiceNode Service))
          → lookup id n.service_nodes ≡ there
          → lookup k (remove_found host timeout id n w there).network.service_nodes ≡ some a
          → (k ≢ id) × (lookup k n.service_nodes ≡ some a)
      by_found none gone f = ((λ same. cc (ap (λ i. lookup i n.service_nodes) same, gone, f)), f)
      by_found (some node) there f = (
        (λ same. ground (arith, lookup-delete id k n.service_nodes, (==_iff id k).1 (sym same))),
        ground (arith, lookup-delete id k n.service_nodes),
      )

  remove-tracker :
      (timeout : ℕ) (id : Text) (w : W)
      → (remove_service host timeout id n w).network.free_ip_tracker ≡ n.free_ip_tracker
  unfolding remove_service
  remove-tracker timeout id w = by_found (lookup id n.service_nodes)
    where
      by_found :
          (there : Option (ServiceNode Service))
          → (remove_found host timeout id n w there).network.free_ip_tracker ≡ n.free_ip_tracker
      by_found none = refl
      by_found (some node) = refl

module _ {W Service : Type 0} (start : FreeIpAddrTracker) where
  -- The address of a call that is not over: it is taken, was free at the start, and no service has it.
  record Held (n : ServiceNetwork W Service) (ip : Ip) : Type 0 where
    taken : is_taken n.free_ip_tracker.taken_ips (ip_text ip) ≡ true
    was_free : is_taken start.taken_ips (ip_text ip) ≡ false
    unused :
        (k : Text) (a : ServiceNode Service)
        → lookup k n.service_nodes ≡ some a
        → ip_text a.ip_addr ≢ ip_text ip

  tracker-Upkept :
      (n : ServiceNetwork W Service) (t : FreeIpAddrTracker)
      → Later n.free_ip_tracker t
      → Upkept start n
      → Upkept start (record n { free_ip_tracker = t })
  tracker-Upkept n t l u = record {
    sound = tracker-Sound n t l.more u.sound;
    later = Later-trans u.later l;
    avoids = u.avoids;
  }

  allocated-Held :
      (n : ServiceNetwork W Service) (t : FreeIpAddrTracker) (ip : Ip)
      → Step n.free_ip_tracker (ok ip, t)
      → Upkept start n
      → Held (record n { free_ip_tracker = t }) ip
  allocated-Held n t ip (free, marked) u = record {
    taken = ground (
      arith,
      ap (λ m. is_taken m (ip_text ip)) marked,
      is_taken-insert n.free_ip_tracker.taken_ips (ip_text ip) (ip_text ip),
      ==_refl (ip_text ip),
    );
    was_free = elim (Bool-cases (is_taken start.taken_ips (ip_text ip))) [
      | inl old ↦ cc (u.later.more (ip_text ip) old, free)
      | inr new ↦ new
    ];
    unused = λ k a e same.
        cc (u.sound.taken k a e, ap (is_taken n.free_ip_tracker.taken_ips) same, free);
  }

  enter-Upkept :
      (n : ServiceNetwork W Service) (id : Text) (node : ServiceNode Service)
      → Held n node.ip_addr
      → Upkept start n
      → Upkept start (record n { service_nodes = insert id node n.service_nodes })
  enter-Upkept n id node h u = record {
    sound = enter-Sound n id node h.taken h.unused u.sound;
    later = u.later;
    avoids = λ s k a t e same. elim (inserted id k node a n.service_nodes e) [
      | inl (kid, is) ↦ cc (
        h.was_free,
        t,
        ap (is_taken start.taken_ips)
            (ap (λ (x : ServiceNode Service). ip_text x.ip_addr) is ∙ same),
      )
      | inr old ↦ u.avoids s k a t old same
    ];
  }

-- What holds while RemoveAll and the test go on.
record IsLate {W Service : Type 0} (start : FreeIpAddrTracker) (s : Late W Service) : Type 0 where
  upkept : Upkept start s.network
  held : (c : InFlight W Service) → s.call ≡ some c → Held start s.network c.static_ip
  accounted : s.stopping ≡ true → Accounted s.network s.to_visit s.added

module _ {W Service : Type 0} (host : Host W) (background : Context)
    (start : FreeIpAddrTracker) where
  kept : Kept {Service = Service} host background (Upkept start)
  kept = Upkept-Kept start host background

  no_call : {P : Type 0} (c : InFlight W Service) → none ≡ some c → P
  no_call c e = cc

  removed-IsLate :
      (s : Late W Service) (timeout : ℕ) (id : Text) (to_visit : List Text)
      → IsLate start s
      → ((k : Text) → k ≢ id → Among k s.to_visit → Among k to_visit)
      → IsLate start (
          after_removal host background to_visit
            (remove_service host timeout id s.network s.world)
            s)
  removed-IsLate s timeout id to_visit v shorter = record {
    upkept = kept.remove id timeout s.network s.world v.upkept;
    held = λ c e.
        let h = v.held c e in
        record {
          taken =
              ap (λ (t : FreeIpAddrTracker). is_taken t.taken_ips (ip_text c.static_ip))
                (remove-tracker host background s.network timeout id s.world)
              ∙ h.taken;
          was_free = h.was_free;
          unused = λ k a there.
              h.unused k a (remove-lookup host background s.network timeout id k s.world a there).1;
        };
    accounted = λ g k a there.
        let (other, old) = remove-lookup host background s.network timeout id k s.world a there in
        elim (v.accounted g k a old) [
          | inl waits ↦ inl (shorter k other waits)
          | inr new ↦ inr new
        ];
  }

  cleared-IsLate :
      (s : Late W Service) (timeout : ℕ)
      → s.call ≡ none
      → IsLate start s
      → IsLate start
          (after_removal host background s.to_visit (remove_all host timeout s.network s.world) s)
  cleared-IsLate s timeout idle v = record {
    upkept = kept.clear timeout s.network s.world v.upkept;
    held = λ c e. no_call c (sym idle ∙ e);
    accounted = λ g k a there.
        let left : lookup k [] ≡ some a =
          sym (
            ap (λ (o : Outcome W Service (Unit {0})). lookup k o.network.service_nodes)
              (remove_all-empty host timeout s.network s.world v.upkept.sound))
          ∙ there in
        cc (lookup_empty k, left);
  }

  tracked-IsLate :
      (s : Late W Service) (r : Result Ip) (t : FreeIpAddrTracker)
      → s.call ≡ none
      → get_free_ip_addr s.network.free_ip_tracker ≡ some (r, t)
      → IsLate start s
      → IsLate start (record s { network = record (s.network) { free_ip_tracker = t } })
  tracked-IsLate s r t idle e v = record {
    upkept =
        tracker-Upkept start s.network t (get_free_ip_addr-Later s.network.free_ip_tracker (r, t) e)
          v.upkept;
    held = λ c f. no_call c (sym idle ∙ f);
    accounted = v.accounted;
  }

  begun-IsLate :
      (s : Late W Service) (id : Text) (checked : ServiceConfig W Service × List Service) (ip : Ip)
      (t : FreeIpAddrTracker)
      → s.call ≡ none
      → get_free_ip_addr s.network.free_ip_tracker ≡ some (ok ip, t)
      → IsLate start s
      → IsLate start (begun id checked ip t s)
  begun-IsLate s id (config, deps) ip t idle e v = record {
    upkept = (tracked-IsLate s (ok ip) t idle e v).upkept;
    held = λ c f.
        subst (Held start (record (s.network) { free_ip_tracker = t }))
          (ap (λ (x : InFlight W Service). x.static_ip) (some-inj f))
          (allocated-Held start s.network t ip (get-Step s.network.free_ip_tracker (ok ip, t) e)
            v.upkept);
    accounted = v.accounted;
  }

  entered-IsLate :
      (s : Late W Service) (c : InFlight W Service) (r : Result (Service × Text))
      → s.call ≡ some c
      → IsLate start s
      → IsLate start (entered host background c r s)
  entered-IsLate s c (err e) calls v = record {
    upkept = v.upkept;
    held = λ d f. no_call d f;
    accounted = v.accounted;
  }
  entered-IsLate s c (ok (service, container_id)) calls v = record {
    upkept = enter-Upkept start s.network c.service_id _ (v.held c calls) v.upkept;
    held = λ d f. no_call d f;
    accounted = λ g k a there. elim (inserted c.service_id k _ a s.network.service_nodes there) [
      | inl (same, is) ↦ inr (inl same)
      | inr old ↦ elim (v.accounted g k a old) [ inl waits ↦ inl waits | inr new ↦ inr (inr new) ]
    ];
  }

  LateStep-IsLate :
      {s t : Late W Service} → LateStep host background s t → IsLate start s → IsLate start t
  LateStep-IsLate {s} (stop g f) v = subst (IsLate start) (sym f) (record {
    upkept = v.upkept;
    held = v.held;
    accounted = λ on k a there. inl (Among-keys k s.network.service_nodes a there);
  })
  LateStep-IsLate {s} (visit id rest g pending f) v = subst (IsLate start) (sym f) (
      removed-IsLate s container_stop_timeout id rest v
        (λ k other waits. visited k other (subst (Among k) pending waits)))
    where
      visited : (k : Text) → k ≢ id → Among k (id ∷ rest) → Among k rest
      visited k other (inl same) = absurd (other same)
      visited k other (inr later) = later
  LateStep-IsLate {s} (visit_added id g f) v =
      subst (IsLate start) (sym f)
        (removed-IsLate s container_stop_timeout id s.to_visit v (λ k other waits. waits))
  LateStep-IsLate (add_refused cid id deps e idle refused f) v = subst (IsLate start) (sym f) v
  LateStep-IsLate {s} (add_without_address cid id deps checked e t idle allowed got f) v =
      subst (IsLate start) (sym f) (tracked-IsLate s (err e) t idle got v)
  LateStep-IsLate {s} (add_begins cid id deps checked ip t idle allowed got f) v =
      subst (IsLate start) (sym f) (begun-IsLate s id checked ip t idle got v)
  LateStep-IsLate {s} (add_creates c calls new f) v = subst (IsLate start) (sym f) (record {
    upkept = v.upkept;
    held = λ d e.
        subst (Held start s.network) (ap (λ (x : InFlight W Service). x.static_ip) (some-inj e))
          (v.held c calls);
    accounted = v.accounted;
  })
  LateStep-IsLate {s} (add_enters c r calls made f) v =
      subst (IsLate start) (sym f) (entered-IsLate s c r calls v)
  LateStep-IsLate {s} (removes id timeout idle f) v =
      subst (IsLate start) (sym f)
        (removed-IsLate s timeout id s.to_visit v (λ k other waits. waits))
  LateStep-IsLate {s} (clears timeout idle f) v =
      subst (IsLate start) (sym f) (cleared-IsLate s timeout idle v)
  LateStep-IsLate {s} (acts g f) v =
      subst (IsLate start) (sym f)
        (record { upkept = v.upkept; held = v.held; accounted = v.accounted })

  LateSteps-IsLate :
      {s t : Late W Service} → LateSteps host background s t → IsLate start s → IsLate start t
  LateSteps-IsLate here v = v
  LateSteps-IsLate (next r st) v = LateStep-IsLate st (LateSteps-IsLate r v)

-- Whatever calls a test makes of its network, and wherever among their steps RemoveAll starts, also in
-- the middle of an AddService: when RemoveAll has visited all the services that it found, whatever
-- the test did meanwhile, every service that is left was entered by an AddService after RemoveAll had
-- started; and the network is still sound, with no two services at one address and none at an
-- address that was taken at the start.
pub late_calls-Leave :
    {W Service : Type 0} (host : Host W) (background : Context) (start : FreeIpAddrTracker)
    (n : ServiceNetwork W Service) (w : W) (s : Late W Service)
    → Upkept start n
    → LateSteps host background (using n w) s
    → s.stopping ≡ true
    → s.to_visit ≡ []
    → Upkept start s.network
      × ((k : Text) (a : ServiceNode Service)
          → lookup k s.network.service_nodes ≡ some a
          → Among k s.added)
unfolding using
late_calls-Leave host background start n w s u run on over =
    let v = LateSteps-IsLate host background start run (record {
      upkept = u;
      held = λ c e. no_call host background start c e;
      accounted = λ off. absurd (false_ne_true off);
    }) in
    (
      v.upkept,
      (λ k a there. elim (v.accounted on k a there) [
        | inl waits ↦ absurd (subst (Among k) over waits)
        | inr new ↦ new
      ]),
    )
  where
    false_ne_true : false ≢ true
    false_ne_true e = cc
