-- ===== src/Networks/IpTracker/Room.antt =====
-- Lemmas on GetFreeIpAddr of commons/networks/public_ip_tracker.go: the subnets on which it returns.
use zz_deprecated_kurtosis.Base.{ℕ, ◌+◌, ◌^◌, ◌<◌, ◌≡◌, refl, inl, inr, some, Result}
use zz_deprecated_kurtosis.Net.Defs.{Ip, IpNet, u32_mod}
use zz_deprecated_kurtosis.Networks.IpTracker.{FreeIpAddrTracker, get_free_ip_addr}
use zz_deprecated_kurtosis.Networks.IpTracker.Laws.{IsNetwork, get_free_ip_addr_lowest}

-- A subnet on which the allocation of an address returns.
pub record Allocates (net : IpNet) : Type 0 where
  pub base : ℕ
  pub bits : ℕ
  pub is : IsNetwork net base bits
  pub hosts : 0 < bits
  pub room : base + 2 ^ bits < u32_mod

pub Allocates-call :
    (t : FreeIpAddrTracker)
    → Allocates t.subnet
    → (r : Result Ip × FreeIpAddrTracker) × (get_free_ip_addr t ≡ some r) × (r.1.subnet ≡ t.subnet)
Allocates-call t h = elim (get_free_ip_addr_lowest t h.base h.bits h.is h.hosts h.room) [
  | inl (n, lowest) ↦ (_, lowest.call, refl)
  | inr exhausted ↦ (_, exhausted.call, refl)
]
