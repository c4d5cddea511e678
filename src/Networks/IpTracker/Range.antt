-- ===== src/Networks/IpTracker/Range.antt =====
-- Lemmas on commons/networks/public_ip_tracker.go: the block of addresses of a tracker.
use native.Mathlib.Nat.{one-le-pow}
use zz_deprecated_kurtosis.Base.{
  ℕ, zero, suc, ◌+◌, ◌-◌, ◌*◌, ◌/◌, ◌^◌, ◌≤◌, ◌<◌, ◌≡◌, refl, ap, subst, ◌∙◌, inl, inr, Bool, some,
  ◌∷◌, ◌++◌, arith, Text, Dict, All, ok,
}
use zz_deprecated_kurtosis.Net.Defs.{
  ip4, IpNet, put_uint32, uint32-put_uint32, put_uint32-IsQuad, u32_mod,
}
use zz_deprecated_kurtosis.Net.Decimal.{dec_text}
use zz_deprecated_kurtosis.Net.Cidr.{parse_cidr, cidr_mask, mask_quad}
use zz_deprecated_kurtosis.Net.Mask.{round_down, blocks_fill, uint32-mask_quad}
use zz_deprecated_kurtosis.Net.Texts.{address_text, parse_cidr-text}
use zz_deprecated_kurtosis.Networks.IpTracker.{FreeIpAddrTracker, new_free_ip_addr_tracker}
use zz_deprecated_kurtosis.Networks.IpTracker.Laws.{IsNetwork, mark, get_free_ip_addr_lowest}
use zz_deprecated_kurtosis.Networks.IpTracker.History.{handed_out}

-- The text of a network: an address, a slash, and the number of ones of the mask.
abbrev pub cidr_text : ℕ → ℕ → Text
cidr_text n ones = address_text n ++ b'/' ∷ dec_text ones

-- An address below a bound that is a multiple of the size leaves room for its whole block.
block_fits : (n p s : ℕ) → 0 < p → n < s * p → n / p * p + p ≤ s * p
block_fits n p s h k = grind arith

round_down_again : (p n : ℕ) → 0 < p → n / p * p / p * p ≡ n / p * p
round_down_again p n h = grind arith

abbrev network : ℕ → ℕ → IpNet
network n w = record {
  ip = ip4 (mask_quad (put_uint32 n) (cidr_mask (32 - w)));
  mask = cidr_mask (32 - w);
}

-- The text of `n` with a mask of `32 - w` ones makes the tracker of the block of `n`.
pub new-IsNetwork :
    (n w : ℕ) (m : Dict Text Bool) (t : FreeIpAddrTracker)
    → n < u32_mod
    → w ≤ 32
    → new_free_ip_addr_tracker (cidr_text n (32 - w)) m ≡ ok t
    → IsNetwork t.subnet (round_down w n) w
unfolding new_free_ip_addr_tracker
new-IsNetwork n w m t h k e =
    subst (λ net. IsNetwork net (round_down w n) w) made
      (record {
        address =
            uint32-mask_quad (put_uint32 n) w (put_uint32-IsQuad n) k
            ∙ ap (round_down w) (uint32-put_uint32 n h);
        mask = refl;
        aligned = round_down_again (2 ^ w) n (one-le-pow w 2 (omega arith));
        bits = k;
        fits = ground (arith, blocks_fill w k, block_fits n (2 ^ w) (2 ^ (32 - w)), one-le-pow w 2);
      })
  where
    parsed : parse_cidr (cidr_text n (32 - w)) ≡ some (network n w)
    parsed = parse_cidr-text (put_uint32 n) (32 - w) (put_uint32-IsQuad n) (omega arith)

    made : network n w ≡ t.subnet
    made = ground (arith, parsed)

-- An address of the block, by its text.
abbrev pub InBlock : ℕ → ℕ → Text → Type 0
InBlock base limit s = (n : ℕ) × (base < n) × (n < limit) × (s ≡ address_text n)

-- For a tracker of a network of `2 ^ w` addresses, at least two of them and all below
-- 255.255.255.255: whatever it hands out, in however many calls, is the text of an address of the
-- network, and not of its first.
pub handed_out-InBlock :
    (k : ℕ) (t : FreeIpAddrTracker) (base w : ℕ)
    → IsNetwork t.subnet base w
    → 0 < w
    → base + 2 ^ w < u32_mod
    → All (InBlock base (base + 2 ^ w)) (handed_out k t)
unfolding handed_out
handed_out-InBlock zero t base w is hosts room = tt
handed_out-InBlock (suc k) t base w is hosts room =
    elim (get_free_ip_addr_lowest t base w is hosts room) [
      | inl (n, r) ↦ rw r.call (
        (n, r.above, r.below, refl),
        handed_out-InBlock k (mark t (address_text n)) base w is hosts room,
      )
      | inr r ↦ rw r.call (handed_out-InBlock k t base w is hosts room)
    ]
