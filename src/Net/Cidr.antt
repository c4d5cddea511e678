-- ===== src/Net/Cidr.antt =====
-- Texts of IPv4 addresses and networks: net.IP.String, net.ParseIP, net.CIDRMask, net.IP.Mask and
-- net.ParseCIDR.
use Prim.Native.Nat.{bit_and}
use zz_deprecated_kurtosis.Base.{
  ℕ, ◌-◌, ◌/◌, ◌^◌, [], ◌∷◌, ◌++◌, Option, none, some, ltb, leb, nat_beq, if◌then◌else◌, Text,
}
use zz_deprecated_kurtosis.Net.Defs.{Quad, Ip, ip4, ip16, IpNet}
use zz_deprecated_kurtosis.Net.Decimal.{dec_text, dtoi}

infixl 5 ◌>>=◌
abbrev ◌>>=◌ {ℓ κ} : {A : Type ℓ} {B : Type κ} → Option A → (A → Option B) → Option B
none >>= f = none
some a >>= f = f a

-- net.IP.String of an IPv4 address: dotted decimal.
unfoldable pub quad_text : Quad → Text
quad_text q =
    dec_text q.b0 ++ b'.' ∷ (dec_text q.b1 ++ b'.' ∷ (dec_text q.b2 ++ b'.' ∷ dec_text q.b3))

abbrev pub ip_text : Ip → Text
ip_text (ip4 q) = quad_text q
ip_text (ip16 head q) = quad_text q

-- A decimal byte at the start of a text.
unfoldable pub parse_byte : Text → Option (ℕ × Text)
parse_byte s = do (n, rest) ← dtoi s; if ltb 255 n then none else some (n, rest)

unfoldable pub skip_dot : Text → Option Text
skip_dot [] = none
skip_dot (c ∷ s) = if nat_beq c b'.' then some s else none

abbrev all_read : Quad → Text → Option Quad
all_read q [] = some q
all_read q (c ∷ s) = none

-- parseIPv4 of package net
unfoldable pub parse_ipv4 : Text → Option Quad
parse_ipv4 s = do
  (b0, s1) ← parse_byte s
  t1 ← skip_dot s1
  (b1, s2) ← parse_byte t1
  t2 ← skip_dot s2
  (b2, s3) ← parse_byte t2
  t3 ← skip_dot s3
  (b3, s4) ← parse_byte t3
  all_read (record { b0 = b0; b1 = b1; b2 = b2; b3 = b3 }) s4

-- The first 12 bytes of an IPv4 address in 16 bytes.
abbrev v4_prefix : Text
v4_prefix = 0 ∷ 0 ∷ 0 ∷ 0 ∷ 0 ∷ 0 ∷ 0 ∷ 0 ∷ 0 ∷ 0 ∷ 255 ∷ 255 ∷ []

-- net.ParseIP gives the 16-byte form.
unfoldable pub parse_ip : Text → Option Ip
parse_ip s = do q ← parse_ipv4 s; some (ip16 v4_prefix q)

-- A byte of a mask that has `n` ones left to place.
abbrev pub mask_byte : ℕ → ℕ
mask_byte n = if leb 8 n then 255 else 255 - 255 / 2 ^ n

-- net.CIDRMask(ones, 32)
unfoldable pub cidr_mask : ℕ → Quad
cidr_mask ones = record {
  b0 = mask_byte ones;
  b1 = mask_byte (ones - 8);
  b2 = mask_byte (ones - 16);
  b3 = mask_byte (ones - 24);
}

-- net.IP.Mask with a mask of four bytes
unfoldable pub mask_quad : Quad → Quad → Quad
mask_quad q m = record {
  b0 = bit_and q.b0 m.b0;
  b1 = bit_and q.b1 m.b1;
  b2 = bit_and q.b2 m.b2;
  b3 = bit_and q.b3 m.b3;
}

-- The text before the first slash, and the text after it.
unfoldable pub split_slash : Text → Option (Text × Text)
split_slash [] = none
split_slash (c ∷ s) =
    let more = split_slash s in
    if nat_beq c b'/' then some ([], s) else more >>= λ p. some (c ∷ p.0, p.1)

abbrev whole_number : ℕ → Text → Option ℕ
whole_number n [] = some n
whole_number n (c ∷ s) = none

-- net.ParseCIDR on IPv4 networks: the network, its address masked. An IPv6 network, which ParseCIDR
-- reads too, is refused here.
unfoldable pub parse_cidr : Text → Option IpNet
parse_cidr s = do
  (addr, mask) ← split_slash s
  q ← parse_ipv4 addr
  (n, rest) ← dtoi mask
  ones ← whole_number n rest
  if ltb 32 ones
      then none
      else some (record { ip = ip4 (mask_quad q (cidr_mask ones)); mask = cidr_mask ones })
