-- ===== src/Networks/IpTracker.antt =====
-- commons/networks/public_ip_tracker.go: the tracker that hands out the free addresses of a subnet.
-- The tracker's map is shared by all copies of the struct, so a call returns the tracker it leaves.
pub mod Scan
pub mod Laws
pub mod Room
pub mod Edges
pub mod History
pub mod Range
mod Tests
use Prim.Native.Nat.{bit_and, bit_or, bit_xor}
use zz_deprecated_kurtosis.Base.{
  ℕ, zero, suc, ◌+◌, ◌%◌, ◌^◌, Bool, true, false, [], ◌∷◌, Option, none, some, leb, if◌then◌else◌,
  Text, Dict, lookup, insert, text_eq, Result, ok, err, Site, parse_error, propagated, failed,
}
use zz_deprecated_kurtosis.Net.Defs.{Quad, Ip, ip4, ip16, IpNet, uint32, put_uint32, u32, u32_mod}
use zz_deprecated_kurtosis.Net.Cidr.{ip_text, parse_cidr}

pub record FreeIpAddrTracker : Type 0 where
  pub subnet : IpNet
  pub taken_ips : Dict Text Bool

-- `takenIps[key]`: false for a key that is not there.
unfoldable pub is_taken : Dict Text Bool → Text → Bool
is_taken taken key = elim (lookup key taken) [ none ↦ false | some b ↦ b ]

-- The defensive copy: every key of the given set is marked, whatever its value.
unfoldable pub copy_taken : Dict Text Bool → Dict Text Bool → Dict Text Bool
copy_taken taken [] = taken
copy_taken taken ((key, value) ∷ more) = copy_taken (insert key true taken) more

unfoldable pub new_free_ip_addr_tracker : Text → Dict Text Bool → Result FreeIpAddrTracker
new_free_ip_addr_tracker subnet_mask already_taken_ips = elim (parse_cidr subnet_mask) [
  | none ↦ err (propagated Site.parse_subnet parse_error)
  | some net ↦ ok (record { subnet = net; taken_ips = copy_taken [] already_taken_ips })
]

-- The loop `for i := start; i <= finish; i++` on uint32, with fuel.
unfoldable pub scan : ℕ → ℕ → ℕ → Dict Text Bool → Option (Result Ip × Dict Text Bool)
scan zero i finish taken = none
scan (suc fuel) i finish taken =
    let next = scan fuel (u32 (i + 1)) finish taken in
    let ip = ip4 (put_uint32 i) in
    let ip_str = ip_text ip in
    if leb i finish
    then (if is_taken taken ip_str then next else some (ok ip, insert ip_str true taken))
    else some (err (failed Site.all_taken), taken)

-- The address of the subnet in 4 or 16 bytes.
abbrev pub int_ip : Ip → ℕ
int_ip (ip4 q) = uint32 q
int_ip (ip16 head q) = uint32 q

unfoldable pub start_of : IpNet → ℕ
start_of net = u32 (int_ip net.ip + 1)

unfoldable pub finish_of : IpNet → ℕ
finish_of net =
    let mask = uint32 net.mask in bit_or (bit_and (start_of net) mask) (bit_xor mask 0xffffffff)

abbrev pub with_taken :
    FreeIpAddrTracker → Option (Result Ip × Dict Text Bool) → Option (Result Ip × FreeIpAddrTracker)
with_taken t none = none
with_taken t (some (r, taken)) = some (r, record t { taken_ips = taken })

-- `none` is a loop without end. After 2 ^ 32 rounds `i` is back where it was and the map is the
-- same, so more rounds give no result either.
unfoldable pub get_free_ip_addr : FreeIpAddrTracker → Option (Result Ip × FreeIpAddrTracker)
get_free_ip_addr t =
    with_taken t (scan u32_mod (start_of t.subnet) (finish_of t.subnet) t.taken_ips)
