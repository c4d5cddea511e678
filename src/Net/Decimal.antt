-- ===== src/Net/Decimal.antt =====
-- Decimal numbers: how fmt and net.IP.String print them, and `dtoi` of package net.
use zz_deprecated_kurtosis.Base.{
  ℕ, zero, suc, ◌+◌, ◌-◌, ◌*◌, ◌/◌, ◌%◌, ◌≤◌, ◌<◌, ◌≡◌, refl, Bool, false, ◌&&◌, [], ◌∷◌, ◌++◌,
  Option, none, some, arith, dec_lt, ltb, leb, if◌then◌else◌, Text,
}

-- The digits of a number, with fuel for as many of them.
unfoldable pub digits_text : ℕ → ℕ → Text
digits_text zero n = []
digits_text (suc f) n =
    let more = digits_text f (n / 10) in
    if ltb n 10 then (48 + n) ∷ [] else more ++ (48 + n % 10) ∷ []

-- A uint64 has at most 20 digits.
unfoldable pub dec_text : ℕ → Text
unfolding digits_text
dec_text n = digits_text 20 n

abbrev pub is_digit : ℕ → Bool
is_digit c = leb 48 c && leb c 57

-- `big` in package net
abbrev pub big : ℕ
big = 0xffffff

abbrev some_digit : ℕ → ℕ → Text → Option (ℕ × Text)
some_digit zero n s = none
some_digit (suc i) n s = some (n, s)

-- The loop of `dtoi` after `i` digits that make `n`.
unfoldable pub dtoi_loop : ℕ → ℕ → Text → Option (ℕ × Text)
dtoi_loop i n [] = some_digit i n []
dtoi_loop i n (c ∷ s) =
    let next = dtoi_loop (suc i) (n * 10 + (c - 48)) s in
    if is_digit c
    then (if leb big (n * 10 + (c - 48)) then none else next)
    else some_digit i n (c ∷ s)

-- The number at the start of a text and what follows it; no number, or one too large, fails.
unfoldable pub dtoi : Text → Option (ℕ × Text)
unfolding dtoi_loop
dtoi s = dtoi_loop 0 0 s

-- The text does not begin with a digit.
abbrev pub Stops : Text → Type 0
Stops [] = Unit
Stops (c ∷ s) = is_digit c ≡ false

dtoi_loop-digit :
    (i n d : ℕ) (s : Text)
    → d < 10
    → n * 10 + d < big
    → dtoi_loop i n ((48 + d) ∷ s) ≡ dtoi_loop (suc i) (n * 10 + d) s
unfolding dtoi_loop
dtoi_loop-digit i n d s h k = ground arith

dtoi_loop-Stops : (i n : ℕ) (s : Text) → Stops s → dtoi_loop (suc i) n s ≡ some (n, s)
unfolding dtoi_loop
dtoi_loop-Stops i n [] h = refl
dtoi_loop-Stops i n (c ∷ s) h = ground arith

pub dec_text_one : (n : ℕ) → n < 10 → dec_text n ≡ (48 + n) ∷ []
unfolding dec_text
dec_text_one n h = ground arith

pub dec_text_two : (n : ℕ) → 10 ≤ n → n < 100 → dec_text n ≡ (48 + n / 10) ∷ (48 + n % 10) ∷ []
unfolding dec_text
dec_text_two n h k = ground arith

pub dec_text_three :
    (n : ℕ)
    → 100 ≤ n
    → n < 1000
    → dec_text n ≡ (48 + n / 100) ∷ (48 + n / 10 % 10) ∷ (48 + n % 10) ∷ []
unfolding dec_text
dec_text_three n h k = ground arith

-- What `dtoi` reads back from a printed number of up to three digits.
pub dtoi-dec_text : (n : ℕ) (s : Text) → n < 1000 → Stops s → dtoi (dec_text n ++ s) ≡ some (n, s)
unfolding dtoi
dtoi-dec_text n s h stop = elim (dec_lt n 10) [
  | yes one ↦
      rw (dec_text_one n one) (ground (arith, dtoi_loop-digit 0 0 n s, dtoi_loop-Stops 0 n s stop))
  | no more ↦ elim (dec_lt n 100) [
    | yes two ↦ rw (dec_text_two n (omega arith) two) (
        ground (
          arith,
          dtoi_loop-digit 0 0 (n / 10) ((48 + n % 10) ∷ s),
          dtoi_loop-digit 1 (n / 10) (n % 10) s,
          dtoi_loop-Stops 1 n s stop,
        ))
    | no three ↦ rw (dec_text_three n (omega arith) h) (
        ground (
          arith,
          dtoi_loop-digit 0 0 (n / 100) ((48 + n / 10 % 10) ∷ (48 + n % 10) ∷ s),
          dtoi_loop-digit 1 (n / 100) (n / 10 % 10) ((48 + n % 10) ∷ s),
          dtoi_loop-digit 2 (n / 10) (n % 10) s,
          dtoi_loop-Stops 2 n s stop,
        ))
  ]
]
