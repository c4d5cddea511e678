-- ===== src/Controller/Parts.antt =====
-- Lemmas on the developer's calls: a run of two parts.
use zz_deprecated_kurtosis.Base.{◌≡◌, inl, inr, refl, sym, ◌∙◌, Option-cases, none, some}
use zz_deprecated_kurtosis.Services.{Host}
use zz_deprecated_kurtosis.Services.AvailabilityChecker.{Context}
use zz_deprecated_kurtosis.Networks.ServiceNetwork.{
  ServiceNetwork, get_service, get_size, add_service, remove_service, remove_all,
}
use zz_deprecated_kurtosis.Controller.Calls.{
  Calls, finished, hangs, gets, sizes, acts, adds, removes, clears, Left, and_then, run_calls,
}
use zz_deprecated_kurtosis.Controller.Upkeep.{run_calls-adds}

-- A run of two parts.
pub record Parts {W Service A B : Type 0} (host : Host W) (background : Context)
    (c : Calls W Service A) (f : A → Calls W Service B) (n : ServiceNetwork W Service) (w : W)
    (l : Left W Service B) : Type 0 where
  pub middle : Left W Service A
  pub first : run_calls host background c n w ≡ some middle
  pub second : run_calls host background (f middle.value) middle.network middle.world ≡ some l

module _ {W Service A B : Type 0} (host : Host W) (background : Context)
    (f : A → Calls W Service B) where
  pub and_then-Parts :
      (c : Calls W Service A) (n : ServiceNetwork W Service) (w : W) (l : Left W Service B)
      → run_calls host background (and_then c f) n w ≡ some l
      → Parts host background c f n w l
  unfolding and_then run_calls
  and_then-Parts (finished a) n w l e = record { middle = _; first = refl; second = e }
  and_then-Parts hangs n w l e = cc
  and_then-Parts (gets id later) n w l e =
      let p = and_then-Parts (later (get_service id n)) n w l e in
      record { middle = p.middle; first = p.first; second = p.second }
  and_then-Parts (sizes later) n w l e =
      let p = and_then-Parts (later (get_size n)) n w l e in
      record { middle = p.middle; first = p.first; second = p.second }
  and_then-Parts (acts g later) n w l e =
      let p = and_then-Parts (later w) n (g w) l e in
      record { middle = p.middle; first = p.first; second = p.second }
  and_then-Parts (adds cid id deps later) n w l e =
      elim (Option-cases (add_service host background cid id deps n w)) [
        | inl none_left ↦ cc (
            sym (
              run_calls-adds host background cid id deps (λ r. and_then (later r) f) n w none
                none_left)
            ∙ e)
        | inr (o, left) ↦
            let p = and_then-Parts (later o.result) o.network o.world l (
              sym (
                run_calls-adds host background cid id deps (λ r. and_then (later r) f) n w (some o)
                  left)
              ∙ e) in
            record {
              middle = p.middle;
              first = run_calls-adds host background cid id deps later n w (some o) left ∙ p.first;
              second = p.second;
            }
      ]
  and_then-Parts (removes id timeout later) n w l e =
      let o = remove_service host timeout id n w in
      let p = and_then-Parts (later o.result) o.network o.world l e in
      record { middle = p.middle; first = p.first; second = p.second }
  and_then-Parts (clears timeout later) n w l e =
      let o = remove_all host timeout n w in
      let p = and_then-Parts (later o.result) o.network o.world l e in
      record { middle = p.middle; first = p.first; second = p.second }
