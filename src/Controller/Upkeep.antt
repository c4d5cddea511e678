-- ===== src/Controller/Upkeep.antt =====
-- Lemmas on the developer's calls: what they keep of the network, and when they all return.
use zz_deprecated_kurtosis.Base.{
  some-inj, ℕ, ◌≡◌, ◌≢◌, refl, sym, ap, subst, ◌∙◌, List, [], Bool-cases, inl, inr, true, false,
  Option, Option-cases, none, some, Text, Dict, lookup, delete, lookup_empty, lookup-delete, ◌==◌,
  ==_iff, text_eq, arith, Result, ok, err,
}
use zz_deprecated_kurtosis.Net.Cidr.{ip_text}
use zz_deprecated_kurtosis.Services.{Host}
use zz_deprecated_kurtosis.Services.AvailabilityChecker.{Context, ServiceAvailabilityChecker}
use zz_deprecated_kurtosis.Networks.IpTracker.{FreeIpAddrTracker, is_taken}
use zz_deprecated_kurtosis.Networks.ServiceNetwork.{
  ServiceNode, ServiceNetwork, Outcome, get_service, get_size, remove_found, add_service,
  remove_service, remove_all,
}
use zz_deprecated_kurtosis.Networks.ServiceNetwork.Invariant.{
  Sound, delete-Sound, add_service-Sound,
}
use zz_deprecated_kurtosis.Networks.ServiceNetwork.Addition.{Added, add_service-Effect}
use zz_deprecated_kurtosis.Networks.ServiceNetwork.Addresses.{Later, Later-trans, add_service-Later}
use zz_deprecated_kurtosis.Networks.ServiceNetwork.Lookups.{get_service-lookup, remove_all-empty}
use zz_deprecated_kurtosis.Controller.Calls.{
  Calls, finished, hangs, gets, sizes, acts, adds, removes, clears, Left, run_calls,
}

module _ {W Service A : Type 0} (host : Host W) (background : Context) where
  abbrev pub resume :
      (Result (ServiceAvailabilityChecker Service) → Calls W Service A)
      → Option (Outcome W Service (ServiceAvailabilityChecker Service))
      → Option (Left W Service A)
  resume later none = none
  resume later (some o) = run_calls host background (later o.result) o.network o.world

  pub run_calls-adds :
      (cid id : Text) (deps : Option (List Text))
      (later : Result (ServiceAvailabilityChecker Service) → Calls W Service A)
      (n : ServiceNetwork W Service) (w : W)
      (call : Option (Outcome W Service (ServiceAvailabilityChecker Service)))
      → add_service host background cid id deps n w ≡ call
      → run_calls host background (adds cid id deps later) n w ≡ resume later call
  unfolding run_calls
  run_calls-adds cid id deps later n w none e = rw (e, run_calls) refl
  run_calls-adds cid id deps later n w (some o) e = rw (e, run_calls) refl

module _ {W Service : Type 0} (host : Host W) (background : Context)
    (P : ServiceNetwork W Service → Type 0) where
  -- What every operation of the network keeps.
  pub record Kept : Type 0 where
    pub add :
        (cid id : Text) (deps : Option (List Text)) (n : ServiceNetwork W Service) (w : W)
        (o : Outcome W Service (ServiceAvailabilityChecker Service))
        → P n
        → add_service host background cid id deps n w ≡ some o
        → P o.network
    pub remove :
        (id : Text) (timeout : ℕ) (n : ServiceNetwork W Service) (w : W)
        → P n
        → P (remove_service host timeout id n w).network
    pub clear :
        (timeout : ℕ) (n : ServiceNetwork W Service) (w : W)
        → P n
        → P (remove_all host timeout n w).network

  pub run_calls-keeps :
      {A : Type 0} (kept : Kept) (calls : Calls W Service A) (n : ServiceNetwork W Service) (w : W)
      (l : Left W Service A)
      → P n
      → run_calls host background calls n w ≡ some l
      → P l.network
  unfolding run_calls
  run_calls-keeps kept (finished a) n w l p e =
      subst P (ap (λ (x : Left W Service _). x.network) (some-inj e)) p
  run_calls-keeps kept hangs n w l p e = cc
  run_calls-keeps kept (gets id later) n w l p e =
      run_calls-keeps kept (later (get_service id n)) n w l p e
  run_calls-keeps kept (sizes later) n w l p e = run_calls-keeps kept (later (get_size n)) n w l p e
  run_calls-keeps kept (acts g later) n w l p e = run_calls-keeps kept (later w) n (g w) l p e
  run_calls-keeps kept (adds cid id deps later) n w l p e =
      elim (Option-cases (add_service host background cid id deps n w)) [
        | inl none_left ↦
            cc (sym (run_calls-adds host background cid id deps later n w none none_left) ∙ e)
        | inr (o, left) ↦
            run_calls-keeps kept (later o.result) o.network o.world l
              (kept.add cid id deps n w o p left)
              (sym (run_calls-adds host background cid id deps later n w (some o) left) ∙ e)
      ]
  run_calls-keeps kept (removes id timeout later) n w l p e =
      run_calls-keeps kept (later (remove_service host timeout id n w).result) _ _ l
        (kept.remove id timeout n w p) e
  run_calls-keeps kept (clears timeout later) n w l p e =
      run_calls-keeps kept (later (remove_all host timeout n w).result) _ _ l
        (kept.clear timeout n w p) e

module _ {W Service : Type 0} (start : FreeIpAddrTracker) where
  -- A network that some calls have left, from a network without services and with the tracker
  -- `start`: it is sound, its tracker is a later state of `start`, and no service has an address
  -- that was taken at the start.
  pub record Upkept (n : ServiceNetwork W Service) : Type 0 where
    pub sound : Sound n
    pub later : Later start n.free_ip_tracker
    pub avoids :
        (s k : Text) (a : ServiceNode Service)
        → is_taken start.taken_ips s ≡ true
        → lookup k n.service_nodes ≡ some a
        → ip_text a.ip_addr ≢ s

  fewer-Upkept :
      (n : ServiceNetwork W Service) (m : Dict Text (ServiceNode Service))
      → Sound (record n { service_nodes = m })
      → ((k : Text) (a : ServiceNode Service)
          → lookup k m ≡ some a
          → lookup k n.service_nodes ≡ some a)
      → Upkept n
      → Upkept (record n { service_nodes = m })
  fewer-Upkept n m sound old u = record {
    sound = sound;
    later = u.later;
    avoids = λ s k a t e. u.avoids s k a t (old k a e);
  }

  cleared-Sound : (n : ServiceNetwork W Service) → Sound (record n { service_nodes = [] })
  cleared-Sound n = record {
    dict = tt;
    taken = λ k a e. cc (lookup_empty k);
    apart = λ j k a b e f g. cc (lookup_empty j);
  }

  Added-avoids :
      (n : ServiceNetwork W Service) (id : Text) (checker : ServiceAvailabilityChecker Service)
      (after : ServiceNetwork W Service) (s k : Text) (a : ServiceNode Service)
      → Upkept n
      → Added n id checker after
      → is_taken start.taken_ips s ≡ true
      → lookup k after.service_nodes ≡ some a
      → ip_text a.ip_addr ≢ s
  Added-avoids n id checker after s k a u d t e same = elim (Bool-cases (k == id)) [
    | inl is ↦
        let key : k ≡ id = (==_iff k id).0 is in
        let node : a ≡ d.node = some-inj (
          sym e
          ∙ (ap (λ i. lookup i after.service_nodes) key
              ∙ (get_service-lookup id after d.node).0 d.there)) in
        let free : is_taken n.free_ip_tracker.taken_ips s ≡ false =
          subst (λ r. is_taken n.free_ip_tracker.taken_ips r ≡ false)
            (ap (λ (x : ServiceNode Service). ip_text x.ip_addr) (sym node) ∙ same) d.was_free in
        cc (u.later.more s t, free)
    | inr other ↦
        let old = (get_service-lookup k n a).0 (
          sym (d.others k (λ is. ground (arith, (==_iff k id).1 is)))
          ∙ (get_service-lookup k after a).1 e) in
        u.avoids s k a t old same
  ]

  module _ (host : Host W) (background : Context) where
    add-Upkept :
        (cid id : Text) (deps : Option (List Text)) (n : ServiceNetwork W Service) (w : W)
        (o : Outcome W Service (ServiceAvailabilityChecker Service))
        → Upkept n
        → add_service host background cid id deps n w ≡ some o
        → Upkept o.network
    add-Upkept cid id deps n w o u e = record {
      sound = add_service-Sound host background n w cid id deps o u.sound e;
      later = Later-trans u.later (add_service-Later host background n id w cid deps o e);
      avoids = λ s k a t there. by_result o.result refl s k a t there;
    }
      where
        by_result :
            (r : Result (ServiceAvailabilityChecker Service))
            → o.result ≡ r
            → (s k : Text) (a : ServiceNode Service) → is_taken start.taken_ips s ≡ true
            → lookup k o.network.service_nodes ≡ some a
            → ip_text a.ip_addr ≢ s
        by_result (err x) r s k a t there =
            let (on_error, _) = add_service-Effect host background n w cid id deps o e in
            u.avoids s k a t (sym (ap (lookup k) (on_error x r)) ∙ there)
        by_result (ok checker) r s k a t there =
            let (_, on_success) = add_service-Effect host background n w cid id deps o e in
            let (_, added) = on_success checker r in
            Added-avoids n id checker o.network s k a u added t there

    removed-Upkept :
        (id : Text) (timeout : ℕ) (n : ServiceNetwork W Service) (w : W)
        (there : Option (ServiceNode Service))
        → Upkept n
        → Upkept (remove_found host timeout id n w there).network
    removed-Upkept id timeout n w none u = u
    removed-Upkept id timeout n w (some node) u =
        fewer-Upkept n (delete id n.service_nodes) (delete-Sound n id u.sound)
          (λ k a e. ground (arith, lookup-delete id k n.service_nodes)) u

    remove-Upkept :
        (id : Text) (timeout : ℕ) (n : ServiceNetwork W Service) (w : W)
        → Upkept n
        → Upkept (remove_service host timeout id n w).network
    unfolding remove_service
    remove-Upkept id timeout n w u = removed-Upkept id timeout n w _ u

    clear-Upkept :
        (timeout : ℕ) (n : ServiceNetwork W Service) (w : W)
        → Upkept n
        → Upkept (remove_all host timeout n w).network
    clear-Upkept timeout n w u =
        subst (λ (o : Outcome W Service (Unit {0})). Upkept o.network)
          (sym (remove_all-empty host timeout n w u.sound))
          (fewer-Upkept n [] (cleared-Sound n) (λ k a e. cc (lookup_empty k)) u)

    pub Upkept-Kept : Kept host background Upkept
    Upkept-Kept = record { add = add-Upkept; remove = remove-Upkept; clear = clear-Upkept }
