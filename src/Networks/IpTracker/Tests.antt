-- ===== src/Networks/IpTracker/Tests.antt =====
-- Runs of the tracker on small networks.
use zz_deprecated_kurtosis.Base.{
  ℕ, ◌+◌, ◌-◌, ◌<◌, ◌^◌, ◌≡◌, refl, subst, [], ◌∷◌, Bool, true, none, some, lookup, insert, ◌⊎◌,
  Text, codes, Dict, text_eq, text_beq, ok, All, arith,
}
use zz_deprecated_kurtosis.Net.Defs.{ip4, uint32, put_uint32, u32_mod}
use zz_deprecated_kurtosis.Net.Decimal.{dec_text, dtoi}
use zz_deprecated_kurtosis.Net.Cidr.{
  parse_cidr, split_slash, parse_ipv4, parse_byte, skip_dot, quad_text, mask_quad, cidr_mask,
}
use zz_deprecated_kurtosis.Net.Texts.{address_text}
use zz_deprecated_kurtosis.Networks.IpTracker.{
  FreeIpAddrTracker, is_taken, copy_taken, new_free_ip_addr_tracker, get_free_ip_addr,
}
use zz_deprecated_kurtosis.Networks.IpTracker.Laws.{
  IsNetwork, Lowest, Exhausted, IsFree, IsUsed, mark, get_free_ip_addr_lowest,
}
use zz_deprecated_kurtosis.Networks.IpTracker.History.{Distinct, handed_out, handed_out_fresh}
use zz_deprecated_kurtosis.Networks.IpTracker.Range.{cidr_text, InBlock, handed_out-InBlock}
use zz_deprecated_kurtosis.Networks.IpTracker.Edges.{get_free_ip_addr_wraps}

-- 172.23.0.0/30 with 172.23.0.1 taken.
abbrev small_mask : Text
small_mask = codes "172.23.0.0/30"

abbrev small_taken : Dict Text Bool
small_taken = (codes "172.23.0.1", true) ∷ []

abbrev small_base : ℕ
small_base = 2887188480

abbrev small : FreeIpAddrTracker
small = record {
  subnet = record {
    ip = ip4 (record { b0 = 172; b1 = 23; b2 = 0; b3 = 0 });
    mask = record { b0 = 255; b1 = 255; b2 = 255; b3 = 252 };
  };
  taken_ips = small_taken;
}

small-new : new_free_ip_addr_tracker small_mask small_taken ≡ ok small
unfolding new_free_ip_addr_tracker parse_cidr split_slash parse_ipv4 parse_byte dtoi skip_dot uint32
    mask_quad cidr_mask lookup insert text_beq copy_taken put_uint32
small-new = refl

small-IsNetwork : IsNetwork small.subnet small_base 2
unfolding uint32 cidr_mask mask_quad
small-IsNetwork = record {
  address = refl;
  mask = refl;
  aligned = refl;
  bits = omega arith;
  fits = omega arith;
}

handed_out_fresh_example :
    Distinct (handed_out 5 small) × All (λ s. lookup s small_taken ≡ none) (handed_out 5 small)
handed_out_fresh_example = handed_out_fresh small_mask small_taken small 5 small-new

get_free_ip_addr_lowest_example :
    ((n : ℕ) × Lowest small small_base (small_base + 2 ^ 2) n)
    ⊎ Exhausted small small_base (small_base + 2 ^ 2)
get_free_ip_addr_lowest_example =
    get_free_ip_addr_lowest small small_base 2 small-IsNetwork (omega arith) (omega arith)

handed_out-InBlock_example : All (InBlock small_base (small_base + 2 ^ 2)) (handed_out 5 small)
handed_out-InBlock_example =
    handed_out-InBlock 5 small small_base 2 small-IsNetwork (omega arith) (omega arith)

small-cidr : new_free_ip_addr_tracker (cidr_text 2887188483 (32 - 2)) small_taken ≡ ok small
unfolding new_free_ip_addr_tracker parse_cidr split_slash parse_ipv4 parse_byte dtoi skip_dot uint32
    mask_quad cidr_mask lookup insert text_beq copy_taken put_uint32 quad_text dec_text
small-cidr = refl

-- The last network, 255.255.255.254/31, with 255.255.255.255 taken.
abbrev last : FreeIpAddrTracker
last = record {
  subnet = record {
    ip = ip4 (record { b0 = 255; b1 = 255; b2 = 255; b3 = 254 });
    mask = record { b0 = 255; b1 = 255; b2 = 255; b3 = 254 };
  };
  taken_ips = (codes "255.255.255.255", true) ∷ [];
}

last-IsNetwork : IsNetwork last.subnet 4294967294 1
unfolding uint32 cidr_mask mask_quad
last-IsNetwork = record {
  address = refl;
  mask = refl;
  aligned = refl;
  bits = omega arith;
  fits = omega arith;
}

last-IsUsed : (n : ℕ) → 4294967294 < n → n < u32_mod → IsUsed last n
unfolding is_taken lookup text_beq quad_text dec_text put_uint32
last-IsUsed n above below = let same : 4294967295 ≡ n = omega arith in subst (IsUsed last) same refl

last-IsFree : IsFree last 0
unfolding is_taken lookup text_beq quad_text dec_text put_uint32
last-IsFree = refl

get_free_ip_addr_wraps_example :
    get_free_ip_addr last ≡ some (ok (ip4 (put_uint32 0)), mark last (address_text 0))
get_free_ip_addr_wraps_example =
    get_free_ip_addr_wraps last 4294967294 1 last-IsNetwork (omega arith) (omega arith) last-IsUsed
      last-IsFree
