-- ===== src/Networks/IpTracker/Edges.antt =====
-- Lemmas on commons/networks/public_ip_tracker.go: subnets that end at 255.255.255.255, and subnets
-- of a single address.
use zz_deprecated_kurtosis.Base.{ℕ, ◌+◌, ◌-◌, ◌^◌, ◌≤◌, ◌<◌, ◌≡◌, some, arith, ok}
use zz_deprecated_kurtosis.Net.Defs.{ip4, put_uint32, u32_mod}
use zz_deprecated_kurtosis.Net.Texts.{address_text}
use zz_deprecated_kurtosis.Networks.IpTracker.{FreeIpAddrTracker, get_free_ip_addr}
use zz_deprecated_kurtosis.Networks.IpTracker.Scan.{AllTaken-of, scan_wraps}
use zz_deprecated_kurtosis.Networks.IpTracker.Laws.{
  IsNetwork, IsFree, IsUsed, mark, get-scan, two-le-size,
}

-- When the subnet ends at 255.255.255.255 and all its addresses above the first are taken, the
-- uint32 counter wraps, the loop goes on at 0.0.0.0, and a free 0.0.0.0 is handed out, although it
-- is outside the subnet; no error is reported.
pub get_free_ip_addr_wraps :
    (t : FreeIpAddrTracker) (base w : ℕ)
    → IsNetwork t.subnet base w
    → 0 < w
    → base + 2 ^ w ≡ u32_mod
    → ((n : ℕ) → base < n → n < u32_mod → IsUsed t n)
    → IsFree t 0
    → get_free_ip_addr t ≡ some (ok (ip4 (put_uint32 0)), mark t (address_text 0))
get_free_ip_addr_wraps t base w is hosts top used free = get-scan t base w is hosts _ _ (
    rw last (
      scan_wraps (2 ^ w - 1) u32_mod (base + 1) t.taken_ips (omega (arith, size))
        (omega (arith, size))
        (AllTaken-of (2 ^ w - 1) (base + 1) t.taken_ips
          (λ n h k. used n (omega arith) (omega (arith, size))))
        free (omega (arith, size))))
  where
    size : 2 ≤ 2 ^ w
    size = two-le-size t.subnet base w is hosts

    last : base + (2 ^ w - 1) ≡ u32_mod - 1
    last = omega (arith, size)
