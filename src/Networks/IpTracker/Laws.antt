-- ===== src/Networks/IpTracker/Laws.antt =====
-- Lemmas on GetFreeIpAddr of commons/networks/public_ip_tracker.go: what one call hands out.
use native.Mathlib.Nat.{pow-le-pow_right, one-le-pow}
use zz_deprecated_kurtosis.Base.{
  ℕ, ◌+◌, ◌-◌, ◌*◌, ◌/◌, ◌^◌, ◌≤◌, ◌<◌, ◌≡◌, ap, ◌∙◌, ◌⊎◌, inl, inr, Bool, true, false, Option,
  some, arith, Text, Dict, insert, text_eq, Result, ok, err, failed, Site,
}
use zz_deprecated_kurtosis.Net.Defs.{Ip, ip4, IpNet, put_uint32, u32_mod}
use zz_deprecated_kurtosis.Net.Cidr.{cidr_mask}
use zz_deprecated_kurtosis.Net.Mask.{round_down, last_address}
use zz_deprecated_kurtosis.Net.Texts.{address_text}
use zz_deprecated_kurtosis.Networks.IpTracker.{
  FreeIpAddrTracker, is_taken, scan, int_ip, start_of, finish_of, get_free_ip_addr,
}
use zz_deprecated_kurtosis.Networks.IpTracker.Scan.{
  AllTaken, AllTaken-at, scan_free, scan_full, first_free,
}

-- The IPv4 network of the `2 ^ w` addresses from `base` on.
pub record IsNetwork (net : IpNet) (base w : ℕ) : Type 0 where
  pub address : int_ip net.ip ≡ base
  pub mask : net.mask ≡ cidr_mask (32 - w)
  pub aligned : round_down w base ≡ base
  pub bits : w ≤ 32
  pub fits : base + 2 ^ w ≤ u32_mod

multiple_next : (p base : ℕ) → 2 ≤ p → base / p * p ≡ base → (base + 1) / p * p ≡ base
multiple_next p base h e = grind arith

module _ (net : IpNet) (base w : ℕ) (is : IsNetwork net base w) (hosts : 0 < w) where
  open is use {address, mask, aligned, bits, fits}

  pub two-le-size : 2 ≤ 2 ^ w
  two-le-size = pow-le-pow_right {n = 2} (omega arith) {i = 1} {j = w} hosts

  start-network : start_of net ≡ base + 1
  unfolding start_of
  start-network = rw address (omega (arith, two-le-size))

  finish-network : finish_of net ≡ base + (2 ^ w - 1)
  unfolding finish_of
  finish-network =
      rw (start-network, mask)
        (last_address (base + 1) w (omega (arith, two-le-size)) bits
          ∙ ap (λ (t : ℕ). t + (2 ^ w - 1)) (multiple_next (2 ^ w) base two-le-size aligned))

-- The text of an address as the tracker's map has it.
abbrev pub IsFree : FreeIpAddrTracker → ℕ → Type 0
IsFree t n = is_taken t.taken_ips (address_text n) ≡ false

abbrev pub IsUsed : FreeIpAddrTracker → ℕ → Type 0
IsUsed t n = is_taken t.taken_ips (address_text n) ≡ true

abbrev pub mark : FreeIpAddrTracker → Text → FreeIpAddrTracker
mark t key = record t { taken_ips = insert key true t.taken_ips }

-- A call that hands out `n`, the lowest free address above `base` and below `limit`.
pub record Lowest (t : FreeIpAddrTracker) (base limit n : ℕ) : Type 0 where
  pub above : base < n
  pub below : n < limit
  pub free : IsFree t n
  pub lowest : (m : ℕ) → base < m → m < n → IsUsed t m
  pub call : get_free_ip_addr t ≡ some (ok (ip4 (put_uint32 n)), mark t (address_text n))

-- A call that reports that all is taken, as it is, and changes nothing.
pub record Exhausted (t : FreeIpAddrTracker) (base limit : ℕ) : Type 0 where
  pub full : (n : ℕ) → base < n → n < limit → IsUsed t n
  pub call : get_free_ip_addr t ≡ some (err (failed Site.all_taken), t)

module _ (t : FreeIpAddrTracker) (base w : ℕ) (is : IsNetwork t.subnet base w) (hosts : 0 < w) where
  abbrev pub result_of : ℕ → ℕ → Option (Result Ip × Dict Text Bool)
  result_of start finish = scan u32_mod start finish t.taken_ips

  pub get-scan :
      (r : Result Ip) (taken : Dict Text Bool)
      → result_of (base + 1) (base + (2 ^ w - 1)) ≡ some (r, taken)
      → get_free_ip_addr t ≡ some (r, record t { taken_ips = taken })
  unfolding get_free_ip_addr
  get-scan r taken e =
      rw (start-network t.subnet base w is hosts, finish-network t.subnet base w is hosts, e)

  hit :
      (gap : ℕ)
      → gap < 2 ^ w - 1
      → AllTaken t.taken_ips (base + 1) gap
      → IsFree t (base + 1 + gap)
      → Lowest t base (base + 2 ^ w) (base + 1 + gap)
  hit gap small before free = record {
    above = omega arith;
    below = omega arith;
    free = free;
    lowest = λ m h k. AllTaken-at gap (base + 1) m t.taken_ips before (omega arith) k;
    call = get-scan _ _ (
        scan_free gap u32_mod (base + 1) (base + (2 ^ w - 1)) t.taken_ips (omega (arith, is.fits))
          (omega arith) (omega (arith, is.fits)) before free);
  }

  miss :
      base + 2 ^ w < u32_mod
      → AllTaken t.taken_ips (base + 1) (2 ^ w - 1)
      → Exhausted t base (base + 2 ^ w)
  miss room all = record {
    full =
        λ n h k. AllTaken-at (2 ^ w - 1) (base + 1) n t.taken_ips all (omega arith) (omega arith);
    call = get-scan _ _ (
        scan_full (2 ^ w - 1) u32_mod (base + 1) (base + (2 ^ w - 1)) t.taken_ips (omega arith)
          (omega (arith, one-le-pow w 2)) (omega arith) all);
  }

-- On a network of `2 ^ w` addresses that does not end at 255.255.255.255, with at least one host
-- bit, every call returns: with the lowest free address above the network's own, or, only when all
-- of them are taken, with the error.
pub get_free_ip_addr_lowest :
    (t : FreeIpAddrTracker) (base w : ℕ)
    → IsNetwork t.subnet base w
    → 0 < w
    → base + 2 ^ w < u32_mod
    → ((n : ℕ) × Lowest t base (base + 2 ^ w) n) ⊎ Exhausted t base (base + 2 ^ w)
get_free_ip_addr_lowest t base w is hosts room =
    elim (first_free (2 ^ w - 1) (base + 1) t.taken_ips) [
      | inl all ↦ inr (miss t base w is hosts room all)
      | inr (gap, small, before, free) ↦
          inl (base + 1 + gap, hit t base w is hosts gap small before free)
    ]
