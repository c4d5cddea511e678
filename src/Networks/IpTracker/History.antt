-- ===== src/Networks/IpTracker/History.antt =====
-- Lemmas on commons/networks/public_ip_tracker.go: the life of a tracker.
use zz_deprecated_kurtosis.Base.{
  ℕ, zero, suc, ◌≡◌, refl, ap, subst, sym, ◌≢◌, inl, inr, Bool, true, false, Option, none, some,
  List, [], ◌∷◌, arith, Text, Dict, lookup, insert, found, text_eq, ==_iff, Option-cases, All,
  All-map, Result, ok, err, if◌then◌else◌,
}
use zz_deprecated_kurtosis.Net.Defs.{Ip}
use zz_deprecated_kurtosis.Net.Cidr.{ip_text, parse_cidr}
use zz_deprecated_kurtosis.Networks.IpTracker.{
  FreeIpAddrTracker, is_taken, copy_taken, new_free_ip_addr_tracker, with_taken, get_free_ip_addr,
}
use zz_deprecated_kurtosis.Networks.IpTracker.Scan.{is_taken-insert, Marks, scan-Marks}

abbrev collect :
    (FreeIpAddrTracker → List Text) → Option (Result Ip × FreeIpAddrTracker) → List Text
collect later none = []
collect later (some (ok ip, u)) = ip_text ip ∷ later u
collect later (some (err e, u)) = later u

-- The texts of the addresses that `k` calls in a row hand out; calls that fail hand out nothing.
unfoldable pub handed_out : ℕ → FreeIpAddrTracker → List Text
handed_out zero t = []
handed_out (suc k) t = collect (handed_out k) (get_free_ip_addr t)

abbrev pub Distinct : List Text → Type 0
Distinct [] = Unit {0}
Distinct (s ∷ l) = All (λ r. s ≢ r) l × Distinct l

abbrev Unmarked : FreeIpAddrTracker → Text → Type 0
Unmarked t s = is_taken t.taken_ips s ≡ false

-- What one call does to the map, whatever the subnet.
abbrev pub Step : FreeIpAddrTracker → Result Ip × FreeIpAddrTracker → Type 0
Step t (r, u) = Marks t.taken_ips (r, u.taken_ips)

pub with_taken-eq-some :
    (t : FreeIpAddrTracker) (o : Option (Result Ip × Dict Text Bool))
    (r : Result Ip × FreeIpAddrTracker)
    → with_taken t o ≡ some r
    → (s : Result Ip × Dict Text Bool) × (o ≡ some s) × (r ≡ (s.0, record t { taken_ips = s.1 }))
with_taken-eq-some t none r e = cc
with_taken-eq-some t (some (result, taken)) r e = ((result, taken), refl, cc)

pub get-Step :
    (t : FreeIpAddrTracker) (r : Result Ip × FreeIpAddrTracker)
    → get_free_ip_addr t ≡ some r
    → Step t r
unfolding get_free_ip_addr
get-Step t r e =
    let (s, found, same) = with_taken-eq-some t _ r e in
    subst (Step t) (sym same) (scan-Marks _ _ _ t.taken_ips s found)

-- What is unmarked after a call was unmarked before it, and is not what the call handed out.
module _ (t u : FreeIpAddrTracker) (s : Text) (h : Unmarked u s) where
  Unmarked-before : (r : Result Ip) → Step t (r, u) → Unmarked t s
  Unmarked-before (ok ip) (free, e) =
      ground (arith, ap (λ m. is_taken m s) e, is_taken-insert t.taken_ips (ip_text ip) s)
  Unmarked-before (err _) (_, e) = rw (← e) h

  not_handed_out : (ip : Ip) → Step t (ok ip, u) → ip_text ip ≢ s
  not_handed_out ip (free, e) same = ground (
    arith,
    ap (λ m. is_taken m s) e,
    is_taken-insert t.taken_ips (ip_text ip) s,
    ==_iff (ip_text ip) s,
  )

handed_out-Unmarked : (k : ℕ) (t : FreeIpAddrTracker) → All (Unmarked t) (handed_out k t)
unfolding handed_out
handed_out-Unmarked zero t = tt
handed_out-Unmarked (suc k) t = elim (Option-cases (get_free_ip_addr t)) [
  | inl e ↦ rw e tt
  | inr ((ok ip, u), e) ↦
      let step = get-Step t (ok ip, u) e in
      rw e (
        step.0,
        All-map (Unmarked u) (Unmarked t) (λ s h. Unmarked-before t u s h (ok ip) step) _
            (handed_out-Unmarked k u),
      )
  | inr ((err x, u), e) ↦
      let step = get-Step t (err x, u) e in
      rw e (
        All-map (Unmarked u) (Unmarked t) (λ s h. Unmarked-before t u s h (err x) step) _
          (handed_out-Unmarked k u))
]

handed_out-Distinct : (k : ℕ) (t : FreeIpAddrTracker) → Distinct (handed_out k t)
unfolding handed_out
handed_out-Distinct zero t = tt
handed_out-Distinct (suc k) t = elim (Option-cases (get_free_ip_addr t)) [
  | inl e ↦ rw e tt
  | inr ((ok ip, u), e) ↦
      let step = get-Step t (ok ip, u) e in
      rw e (
        All-map (Unmarked u) (λ s. ip_text ip ≢ s) (λ s h. not_handed_out t u s h ip step) _
            (handed_out-Unmarked k u),
        handed_out-Distinct k u,
      )
  | inr ((err x, u), e) ↦ rw e (handed_out-Distinct k u)
]

is_taken-copy_taken :
    (taken m : Dict Text Bool) (key : Text)
    → is_taken (copy_taken taken m) key
      ≡ (if found (lookup key m) then true else is_taken taken key)
unfolding copy_taken lookup
is_taken-copy_taken taken [] key = refl
is_taken-copy_taken taken ((k, v) ∷ m) key =
    ground (arith, is_taken-copy_taken (insert k true taken) m key, is_taken-insert taken k key)

-- A new tracker holds as taken exactly the keys of the set it is given.
pub is_taken-new :
    (mask : Text) (m : Dict Text Bool) (t : FreeIpAddrTracker) (key : Text)
    → new_free_ip_addr_tracker mask m ≡ ok t
    → is_taken t.taken_ips key ≡ found (lookup key m)
unfolding new_free_ip_addr_tracker is_taken lookup
is_taken-new mask m t key e = elim (Option-cases (parse_cidr mask)) [
  | inl f ↦ cc
  | inr (net, f) ↦
      let copied : copy_taken [] m ≡ t.taken_ips = ground arith in
      ground (arith, is_taken-copy_taken [] m key, ap (λ d. is_taken d key) copied)
]

-- However many calls are made, on whatever subnet, no two hand out the same address, and none
-- hands out an address of the set that the tracker was made with.
pub handed_out_fresh :
    (mask : Text) (m : Dict Text Bool) (t : FreeIpAddrTracker) (k : ℕ)
    → new_free_ip_addr_tracker mask m ≡ ok t
    → Distinct (handed_out k t) × All (λ s. lookup s m ≡ none) (handed_out k t)
handed_out_fresh mask m t k e = (
  handed_out-Distinct k t,
  All-map (Unmarked t) (λ s. lookup s m ≡ none) (λ s h. ground (arith, is_taken-new mask m t s e)) _
      (handed_out-Unmarked k t),
)
