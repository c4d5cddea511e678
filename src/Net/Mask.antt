-- ===== src/Net/Mask.antt =====
-- CIDR masks as arithmetic: a mask of `32 - w` ones rounds an address down to a multiple of
-- `2 ^ w`.
use Prim.Native.Nat.{bit_and, bit_or, bit_xor}
use native.Mathlib.Numerals.{towards_suc}
use native.Mathlib.Nat.{pow-suc, one-le-pow, div-div-eq-div-mul}
use zz_deprecated_kurtosis.Base.{
  ℕ, zero, suc, ◌+◌, ◌-◌, ◌*◌, ◌/◌, ◌^◌, ◌≤◌, ◌<◌, ◌≡◌, refl, subst, ◌∙◌, Bool, true, ◌&&◌, dec_le,
  arith, nat_beq,
}
use zz_deprecated_kurtosis.Net.Defs.{Quad, IsQuad, uint32, u32_mod}
use zz_deprecated_kurtosis.Net.Bits.{bit_and_high, bit_or_low}
use zz_deprecated_kurtosis.Net.Cidr.{cidr_mask, mask_byte, mask_quad}

-- Over a small range, a test that holds everywhere is checked by evaluation.
holds_upto : ℕ → (ℕ → Bool) → Bool
holds_upto zero test = test 0
holds_upto (suc n) test = test (suc n) && holds_upto n test

holds_upto_sound :
    (n : ℕ) (test : ℕ → Bool) (x : ℕ) → holds_upto n test ≡ true → x ≤ n → test x ≡ true
unfolding holds_upto
holds_upto_sound zero test zero h le = h
holds_upto_sound zero test (suc x) h le = absurd (omega arith)
holds_upto_sound (suc n) test x h le = ground (arith, holds_upto_sound n test x)

-- The number down to a multiple of `2 ^ w`.
abbrev pub round_down : ℕ → ℕ → ℕ
round_down w n = n / 2 ^ w * 2 ^ w

mask_table :
    holds_upto 8
      (λ n. nat_beq (mask_byte n) ((2 ^ n - 1) * 2 ^ (8 - n)) && nat_beq (2 ^ n * 2 ^ (8 - n)) 256)
    ≡ true
unfolding holds_upto
mask_table = refl

bit_and-mask_byte : (b n : ℕ) → b < 256 → n ≤ 8 → bit_and b (mask_byte n) ≡ round_down (8 - n) b
bit_and-mask_byte b n h k =
    ground (arith, holds_upto_sound 8 _ n mask_table k, bit_and_high (8 - n) n b)

byte_whole : (b n : ℕ) → b < 256 → 8 ≤ n → bit_and b (mask_byte n) ≡ b
byte_whole b n h k = ground (arith, bit_and_high 0 8 b)

pow-add_eight : (w : ℕ) → 2 ^ (w + 8) ≡ 256 * 2 ^ w
pow-add_eight w = simp towards_suc (
    omega (
      arith,
      pow-suc 2 w,
      pow-suc 2 (suc w),
      pow-suc 2 (suc (suc w)),
      pow-suc 2 (suc (suc (suc w))),
      pow-suc 2 (suc (suc (suc (suc w)))),
      pow-suc 2 (suc (suc (suc (suc (suc w))))),
      pow-suc 2 (suc (suc (suc (suc (suc (suc w)))))),
      pow-suc 2 (suc (suc (suc (suc (suc (suc (suc w))))))),
    ))

-- Rounding by more than a byte drops the last byte.
round_down-drop : (w hi b : ℕ) → b < 256 → round_down (w + 8) (hi * 256 + b) ≡ round_down w hi * 256
round_down-drop w hi b h = rw (pow-add_eight w) (
    rw (← div-div-eq-div-mul (hi * 256 + b) 256 (2 ^ w))
      (rw first (omega (arith, regroup (hi / 2 ^ w) (2 ^ w)))))
  where
    first : (hi * 256 + b) / 256 ≡ hi
    first = omega arith

    regroup : (x y : ℕ) → x * (256 * y) ≡ x * y * 256
    regroup x y = omega arith

-- Rounding within the last byte leaves the others alone.
round_down-last : (k hi b : ℕ) → k ≤ 8 → round_down k (hi * 256 + b) ≡ hi * 256 + round_down k b
round_down-last zero hi b h = omega arith
round_down-last (suc zero) hi b h = omega arith
round_down-last (suc (suc zero)) hi b h = omega arith
round_down-last (suc (suc (suc zero))) hi b h = omega arith
round_down-last (suc (suc (suc (suc zero)))) hi b h = omega arith
round_down-last (suc (suc (suc (suc (suc zero))))) hi b h = omega arith
round_down-last (suc (suc (suc (suc (suc (suc zero)))))) hi b h = omega arith
round_down-last (suc (suc (suc (suc (suc (suc (suc zero))))))) hi b h = omega arith
round_down-last (suc (suc (suc (suc (suc (suc (suc (suc zero)))))))) hi b h = omega arith
round_down-last (suc (suc (suc (suc (suc (suc (suc (suc (suc k))))))))) hi b h =
    absurd (omega arith)

abbrev be4 : ℕ → ℕ → ℕ → ℕ → ℕ
be4 a b c d = ((a * 256 + b) * 256 + c) * 256 + d

-- What is left of a byte under a mask with `n` ones left for it and the bytes behind it.
module _ (b : ℕ) (byte : b < 256) where
  byte_kept : (n : ℕ) → 8 ≤ n → bit_and b (mask_byte n) ≡ b
  byte_kept n h = byte_whole b n byte h

  byte_cut : (n k : ℕ) → n + k ≡ 8 → bit_and b (mask_byte n) ≡ round_down k b
  byte_cut n k h = rw (eight_less) (bit_and-mask_byte b n byte (omega arith))
    where
      eight_less : k ≡ 8 - n
      eight_less = omega arith

  byte_cleared : (n : ℕ) → n ≡ 0 → bit_and b (mask_byte n) ≡ 0
  byte_cleared n h = ground (arith, bit_and-mask_byte b n byte)

-- A mask of `32 - w` ones clears the low `w` bits, in whichever byte the ones end.
module _ (a b c d : ℕ) (a_byte : a < 256) (b_byte : b < 256) (c_byte : c < 256)
    (d_byte : d < 256) where
  abbrev cut : ℕ → ℕ
  cut ones =
      be4 (bit_and a (mask_byte ones)) (bit_and b (mask_byte (ones - 8)))
        (bit_and c (mask_byte (ones - 16))) (bit_and d (mask_byte (ones - 24)))

  cut_fourth : (k : ℕ) → k ≤ 8 → cut (32 - k) ≡ round_down k (be4 a b c d)
  cut_fourth k h = rw (
    byte_kept a a_byte (32 - k) (omega arith),
    byte_kept b b_byte (32 - k - 8) (omega arith),
    byte_kept c c_byte (32 - k - 16) (omega arith),
    byte_cut d d_byte (32 - k - 24) k (omega arith),
    round_down-last k ((a * 256 + b) * 256 + c) d h,
  )

  cut_third : (k : ℕ) → k ≤ 8 → cut (32 - (k + 8)) ≡ round_down (k + 8) (be4 a b c d)
  cut_third k h =
      rw
        (
          byte_kept a a_byte (32 - (k + 8)) (omega arith),
          byte_kept b b_byte (32 - (k + 8) - 8) (omega arith),
          byte_cut c c_byte (32 - (k + 8) - 16) k (omega arith),
          byte_cleared d d_byte (32 - (k + 8) - 24) (omega arith),
          round_down-drop k ((a * 256 + b) * 256 + c) d d_byte,
          round_down-last k (a * 256 + b) c h,
        )
        (omega arith)

  cut_second : (k : ℕ) → k ≤ 8 → cut (32 - (k + 8 + 8)) ≡ round_down (k + 8 + 8) (be4 a b c d)
  cut_second k h =
      rw
        (
          byte_kept a a_byte (32 - (k + 8 + 8)) (omega arith),
          byte_cut b b_byte (32 - (k + 8 + 8) - 8) k (omega arith),
          byte_cleared c c_byte (32 - (k + 8 + 8) - 16) (omega arith),
          byte_cleared d d_byte (32 - (k + 8 + 8) - 24) (omega arith),
          round_down-drop (k + 8) ((a * 256 + b) * 256 + c) d d_byte,
          round_down-drop k (a * 256 + b) c c_byte,
          round_down-last k a b h,
        )
        (omega arith)

  cut_first :
      (k : ℕ) → k ≤ 8 → cut (32 - (k + 8 + 8 + 8)) ≡ round_down (k + 8 + 8 + 8) (be4 a b c d)
  cut_first k h =
      rw
        (
          byte_cut a a_byte (32 - (k + 8 + 8 + 8)) k (omega arith),
          byte_cleared b b_byte (32 - (k + 8 + 8 + 8) - 8) (omega arith),
          byte_cleared c c_byte (32 - (k + 8 + 8 + 8) - 16) (omega arith),
          byte_cleared d d_byte (32 - (k + 8 + 8 + 8) - 24) (omega arith),
          round_down-drop (k + 8 + 8) ((a * 256 + b) * 256 + c) d d_byte,
          round_down-drop (k + 8) (a * 256 + b) c c_byte,
          round_down-drop k a b b_byte,
        )
        (omega arith)

  abbrev Cuts : ℕ → Type 0
  Cuts w = cut (32 - w) ≡ round_down w (be4 a b c d)

  cut-round_down : (w : ℕ) → w ≤ 32 → Cuts w
  cut-round_down w h = elim (dec_le w 8) [
    | yes fourth ↦ cut_fourth w fourth
    | no past8 ↦ elim (dec_le w 16) [
      | yes third ↦ subst Cuts (omega arith) (cut_third (w - 8) (omega arith))
      | no past16 ↦ elim (dec_le w 24) [
        | yes second ↦ subst Cuts (omega arith) (cut_second (w - 16) (omega arith))
        | no past24 ↦ subst Cuts (omega arith) (cut_first (w - 24) (omega arith))
      ]
    ]
  ]

-- net.IP.Mask with a mask of `32 - w` ones clears the low `w` bits of an address.
pub uint32-mask_quad :
    (q : Quad) (w : ℕ)
    → IsQuad q
    → w ≤ 32
    → uint32 (mask_quad q (cidr_mask (32 - w))) ≡ round_down w (uint32 q)
unfolding uint32 mask_quad cidr_mask
uint32-mask_quad q w v h =
    let masked = cut-round_down q.b0 q.b1 q.b2 q.b3 v.byte0 v.byte1 v.byte2 v.byte3 w h in
    rw (horner q.b0 q.b1 q.b2 q.b3) (horner _ _ _ _ ∙ masked)
  where
    horner : (a b c d : ℕ) → a * 16777216 + b * 65536 + c * 256 + d ≡ be4 a b c d
    horner a b c d = omega arith

uint32_mask_table :
    holds_upto 32 (λ w.
      nat_beq (uint32 (cidr_mask (32 - w))) ((2 ^ (32 - w) - 1) * 2 ^ w)
      && nat_beq (bit_xor (uint32 (cidr_mask (32 - w))) 0xffffffff) (2 ^ w - 1)
      && nat_beq (2 ^ (32 - w) * 2 ^ w) u32_mod)
    ≡ true
unfolding holds_upto uint32 cidr_mask
uint32_mask_table = refl

-- `(start & mask) | (mask ^ 0xffffffff)`: the last address of the network of `start`.
pub last_address :
    (start w : ℕ)
    → start < u32_mod
    → w ≤ 32
    → bit_or
        (bit_and start (uint32 (cidr_mask (32 - w))))
        (bit_xor (uint32 (cidr_mask (32 - w))) 0xffffffff)
      ≡ round_down w start + (2 ^ w - 1)
last_address start w h k = ground (
  arith,
  holds_upto_sound 32 _ w uint32_mask_table k,
  bit_and_high w (32 - w) start,
  bit_or_low w (start / 2 ^ w) (2 ^ w - 1),
  one-le-pow w 2,
)

-- The blocks of `2 ^ w` addresses fill the address space.
pub blocks_fill : (w : ℕ) → w ≤ 32 → 2 ^ (32 - w) * 2 ^ w ≡ u32_mod
blocks_fill w k = ground (arith, holds_upto_sound 32 _ w uint32_mask_table k)
