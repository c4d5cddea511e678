-- ===== src/Net/Bits.antt =====
-- The bit operations of Go on numbers of any width, as arithmetic: `&` with a mask of high bits,
-- `|` of disjoint fields.
use Prim.Native.Nat.{min, max, digits, bitwise, bit_and, bit_or, bit_and-bitwise, bit_or-bitwise}
use native.Mathlib.Nat.{mul_comm, pow-suc, le_refl, one-le-pow}
use zz_deprecated_kurtosis.Base.{
  ℕ, zero, suc, ◌+◌, ◌-◌, ◌*◌, ◌/◌, ◌%◌, ◌^◌, ◌≤◌, ◌<◌, ◌≡◌, refl, ap, arith,
}

-- The native operations recur on binary digits with fuel; any fuel from the first number on serves.
module _ (z : ℕ → ℕ) (op : ℕ → ℕ → ℕ) where
  digits_enough :
      (fuel more x y : ℕ) → x ≤ fuel → x ≤ more → digits z op fuel x y ≡ digits z op more x y
  digits_enough zero zero x y h k = refl
  digits_enough zero (suc more) zero y h k = refl
  digits_enough zero (suc more) (suc x) y h k = absurd (omega arith)
  digits_enough (suc fuel) zero zero y h k = refl
  digits_enough (suc fuel) zero (suc x) y h k = absurd (omega arith)
  digits_enough (suc fuel) (suc more) zero y h k = refl
  digits_enough (suc fuel) (suc more) (suc x) y h k =
      let half : ℕ = suc x / 2 in
      rw (digits_enough fuel more half (y / 2) (omega arith) (omega arith))

  -- One step of the recursion, with no fuel in sight.
  bitwise_halves :
      (x y : ℕ)
      → bitwise z op (suc x) y ≡ bitwise z op (suc x / 2) (y / 2) * 2 + op (suc x % 2) (y % 2)
  bitwise_halves x y =
      omega (arith, digits_enough x (suc x / 2) (suc x / 2) (y / 2) (omega arith) (le_refl _))

bit_and_halves : (x y : ℕ) → bit_and x y ≡ bit_and (x / 2) (y / 2) * 2 + min (x % 2) (y % 2)
bit_and_halves zero y = simp bit_and-bitwise (omega arith)
bit_and_halves (suc x) y = simp bit_and-bitwise (bitwise_halves (λ _. 0) min x y)

bit_or_halves : (x y : ℕ) → bit_or x y ≡ bit_or (x / 2) (y / 2) * 2 + max (x % 2) (y % 2)
bit_or_halves zero y = simp bit_or-bitwise (omega arith)
bit_or_halves (suc x) y = simp bit_or-bitwise (bitwise_halves (λ t. t) max x y)

-- With as much fuel as the number, the recursion rebuilds it.
bit_or-zero_below : (fuel x : ℕ) → x ≤ fuel → bit_or x 0 ≡ x
bit_or-zero_below fuel zero h = refl
bit_or-zero_below zero (suc x) h = absurd (omega arith)
bit_or-zero_below (suc fuel) (suc x) h =
    omega (arith, bit_or_halves (suc x) 0, bit_or-zero_below fuel (suc x / 2) (omega arith))

-- `n` ones: the remainder by `2 ^ n`, for a number of at most `n` bits the number itself.
bit_and_ones : (n x : ℕ) → x < 2 ^ n → bit_and x (2 ^ n - 1) ≡ x
bit_and_ones zero zero h = refl
bit_and_ones zero (suc x) h = absurd (omega arith)
bit_and_ones (suc n) x h =
    ground
      (arith, bit_and_halves x (2 ^ suc n - 1), pow-suc 2 n, one-le-pow n 2, bit_and_ones n (x / 2))

bit_and_even : (x k : ℕ) → bit_and x (2 * k) ≡ 2 * bit_and (x / 2) k
bit_and_even x k =
    omega (arith, bit_and_halves x (2 * k), ap (λ (t : ℕ). bit_and (x / 2) t) (half k))
  where
    half : (t : ℕ) → 2 * t / 2 ≡ t
    half t = omega arith

mul-pow-suc : (m w : ℕ) → m * 2 ^ suc w ≡ 2 * (m * 2 ^ w)
mul-pow-suc m w = omega (arith, ap (λ (t : ℕ). m * t) (pow-suc 2 w))

div-double : (x p : ℕ) → 0 < p → x / (2 * p) ≡ x / 2 / p
div-double x p h = grind arith

div-pow-suc : (x w : ℕ) → x / 2 ^ suc w ≡ x / 2 / 2 ^ w
div-pow-suc x w =
    rw (pow-suc 2 w) (rw (mul_comm (2 ^ w) 2) (div-double x (2 ^ w) (one-le-pow w 2 (omega arith))))

-- `x & mask` for a mask of `n` ones above `w` zeros, on a number of at most `n + w` bits, rounds
-- down to a multiple of `2 ^ w`.
pub bit_and_high :
    (w n x : ℕ) → x < 2 ^ n * 2 ^ w → bit_and x ((2 ^ n - 1) * 2 ^ w) ≡ x / 2 ^ w * 2 ^ w
bit_and_high zero n x h = ground (arith, bit_and_ones n x)
bit_and_high (suc w) n x h = ground (
  arith,
  mul-pow-suc (2 ^ n - 1) w,
  mul-pow-suc (2 ^ n) w,
  mul-pow-suc (x / 2 / 2 ^ w) w,
  bit_and_even x ((2 ^ n - 1) * 2 ^ w),
  pow-suc 2 w,
  div-pow-suc x w,
  bit_and_high w n (x / 2) (omega (arith, mul-pow-suc (2 ^ n) w)),
)

-- `|` of a multiple of `2 ^ w` and a number below `2 ^ w` is their sum.
pub bit_or_low : (w q r : ℕ) → r < 2 ^ w → bit_or (q * 2 ^ w) r ≡ q * 2 ^ w + r
bit_or_low zero q zero h = omega (arith, bit_or-zero_below (q * 1) (q * 1) (le_refl _))
bit_or_low zero q (suc r) h = absurd (omega arith)
bit_or_low (suc w) q r h = ground (
  arith,
  bit_or_halves (q * 2 ^ suc w) r,
  mul-pow-suc q w,
  pow-suc 2 w,
  bit_or_low w q (r / 2) (omega (arith, pow-suc 2 w)),
)
