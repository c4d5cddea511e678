-- ===== src/Net/Defs.antt =====
-- IPv4 addresses as bytes and as uint32.
use zz_deprecated_kurtosis.Base.{ℕ, ◌+◌, ◌*◌, ◌/◌, ◌%◌, ◌^◌, ◌<◌, ◌≡◌, Text, arith}

abbrev pub u32_mod : ℕ
u32_mod = 2 ^ 32

-- Arithmetic on uint32 wraps.
abbrev pub u32 : ℕ → ℕ
u32 n = n % 2 ^ 32

-- Four bytes in network order.
pub record Quad : Type 0 where
  pub b0 : ℕ
  pub b1 : ℕ
  pub b2 : ℕ
  pub b3 : ℕ

-- `net.IP` holds an IPv4 address in 4 bytes, or in 16 of which the last four count.
pub data Ip : Type 0 where
  ip4 : Quad → Ip
  ip16 : Text → Quad → Ip

-- `net.IPNet` of an IPv4 network.
pub record IpNet : Type 0 where
  pub ip : Ip
  pub mask : Quad

pub record IsQuad (q : Quad) : Type 0 where
  pub byte0 : q.b0 < 256
  pub byte1 : q.b1 < 256
  pub byte2 : q.b2 < 256
  pub byte3 : q.b3 < 256

-- binary.BigEndian.Uint32
unfoldable pub uint32 : Quad → ℕ
uint32 q = q.b0 * 16777216 + q.b1 * 65536 + q.b2 * 256 + q.b3

-- binary.BigEndian.PutUint32
unfoldable pub put_uint32 : ℕ → Quad
put_uint32 n = record {
  b0 = n / 16777216 % 256;
  b1 = n / 65536 % 256;
  b2 = n / 256 % 256;
  b3 = n % 256;
}

pub uint32-put_uint32 : (n : ℕ) → n < u32_mod → uint32 (put_uint32 n) ≡ n
unfolding uint32 put_uint32
uint32-put_uint32 n h = omega arith

pub put_uint32-IsQuad : (n : ℕ) → IsQuad (put_uint32 n)
unfolding put_uint32
put_uint32-IsQuad n = omega arith

pub uint32-lt : (q : Quad) → IsQuad q → uint32 q < u32_mod
unfolding uint32
uint32-lt q h = omega arith

pub put_uint32-uint32 : (q : Quad) → IsQuad q → put_uint32 (uint32 q) ≡ q
unfolding uint32 put_uint32
put_uint32-uint32 q h = ground arith
