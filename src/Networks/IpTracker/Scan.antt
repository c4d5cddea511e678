-- ===== src/Networks/IpTracker/Scan.antt =====
-- Lemmas on the loop of GetFreeIpAddr of commons/networks/public_ip_tracker.go.
use zz_deprecated_kurtosis.Base.{
  ℕ, zero, suc, ◌+◌, ◌-◌, ◌≤◌, ◌<◌, ◌≡◌, refl, ◌⊎◌, inl, inr, Bool, true, false, Option, none, some,
  arith, Text, ℕ_discrete, dec_le, subst, Dict, insert, lookup-insert, text_eq, Bool-cases, Result,
  ok, err, failed, Site, if◌then◌else◌, ◌==◌,
}
use zz_deprecated_kurtosis.Net.Defs.{Ip, ip4, put_uint32, u32, u32_mod}
use native.Mathlib.Nat.{add-zero}
use zz_deprecated_kurtosis.Net.Cidr.{ip_text}
use zz_deprecated_kurtosis.Net.Texts.{address_text}
use zz_deprecated_kurtosis.Networks.IpTracker.{is_taken, scan}

-- The addresses from `start` on, `n` of them, are taken.
abbrev pub AllTaken : Dict Text Bool → ℕ → ℕ → Type 0
AllTaken taken start zero = Unit {0}
AllTaken taken start (suc n) =
    (is_taken taken (address_text start) ≡ true) × AllTaken taken (start + 1) n

pub is_taken-insert :
    (taken : Dict Text Bool) (key other : Text)
    → is_taken (insert key true taken) other ≡ (if key == other then true else is_taken taken other)
unfolding is_taken
is_taken-insert taken key other = ground (arith, lookup-insert key other true taken)

-- One round of the loop, by its three outcomes.
module _ (fuel i finish : ℕ) (taken : Dict Text Bool) where
  scan_hit :
      i ≤ finish
      → is_taken taken (address_text i) ≡ false
      → scan (suc fuel) i finish taken
        ≡ some (ok (ip4 (put_uint32 i)), insert (address_text i) true taken)
  unfolding scan
  scan_hit h free = ground arith

  scan_skip :
      i ≤ finish
      → is_taken taken (address_text i) ≡ true
      → scan (suc fuel) i finish taken ≡ scan fuel (u32 (i + 1)) finish taken
  unfolding scan
  scan_skip h used = ground arith

  scan_out_of_fuel : scan 0 i finish taken ≡ none
  unfolding scan
  scan_out_of_fuel = refl

  scan_end : finish < i → scan (suc fuel) i finish taken ≡ some (err (failed Site.all_taken), taken)
  unfolding scan
  scan_end h = ground arith

-- A free address behind `gap` taken ones is found and marked.
pub scan_free :
    (gap fuel start finish : ℕ) (taken : Dict Text Bool)
    → gap < fuel
    → start + gap ≤ finish
    → finish < u32_mod
    → AllTaken taken start gap
    → is_taken taken (address_text (start + gap)) ≡ false
    → scan fuel start finish taken
      ≡ some (ok (ip4 (put_uint32 (start + gap))), insert (address_text (start + gap)) true taken)
scan_free gap zero start finish taken f h b t free = absurd (omega arith)
scan_free zero (suc fuel) start finish taken f h b t free =
    let here : start + 0 ≡ start = omega arith in
    rw here (scan_hit fuel start finish taken (omega arith) (rw here at free))
scan_free (suc gap) (suc fuel) start finish taken f h b t free =
    let next : start + suc gap ≡ start + 1 + gap = omega arith in
    let wrap : u32 (start + 1) ≡ start + 1 = omega arith in
    rw (next, scan_skip fuel start finish taken (omega arith) t.0, wrap)
      (scan_free gap fuel (start + 1) finish taken (omega arith) (omega arith) b t.1
        (rw next at free))

-- When every address up to `finish` is taken, and `finish` is not the last uint32, the loop ends
-- with the error.
pub scan_full :
    (count fuel start finish : ℕ) (taken : Dict Text Bool)
    → count < fuel
    → start + count ≡ finish + 1
    → finish + 1 < u32_mod
    → AllTaken taken start count
    → scan fuel start finish taken ≡ some (err (failed Site.all_taken), taken)
scan_full count zero start finish taken f h b t = absurd (omega arith)
scan_full zero (suc fuel) start finish taken f h b t =
    scan_end fuel start finish taken (omega arith)
scan_full (suc count) (suc fuel) start finish taken f h b t =
    let wrap : u32 (start + 1) ≡ start + 1 = omega arith in
    rw (scan_skip fuel start finish taken (omega arith) t.0, wrap)
      (scan_full count fuel (start + 1) finish taken (omega arith) (omega arith) b t.1)

-- When every uint32 is taken and `finish` is the last, the counter wraps and the loop never ends.
pub scan_forever :
    (fuel start : ℕ) (taken : Dict Text Bool)
    → start < u32_mod
    → ((n : ℕ) → n < u32_mod → is_taken taken (address_text n) ≡ true)
    → scan fuel start (u32_mod - 1) taken ≡ none
scan_forever zero start taken h t = scan_out_of_fuel 0 start (u32_mod - 1) taken
scan_forever (suc fuel) start taken h t =
    rw (scan_skip fuel start (u32_mod - 1) taken (omega arith) (t start h))
      (scan_forever fuel (u32 (start + 1)) taken (omega arith) t)

-- After the last uint32 the counter is back at 0, below any `finish`.
pub scan_wraps :
    (count fuel start : ℕ) (taken : Dict Text Bool)
    → count < fuel
    → start + count ≡ u32_mod
    → AllTaken taken start count
    → is_taken taken (address_text 0) ≡ false
    → 0 < count
    → scan fuel start (u32_mod - 1) taken
      ≡ some (ok (ip4 (put_uint32 0)), insert (address_text 0) true taken)
scan_wraps count zero start taken f e t free p = absurd (omega arith)
scan_wraps zero (suc fuel) start taken f e t free p = absurd (omega arith)
scan_wraps (suc zero) (suc zero) start taken f e t free p = absurd (omega arith)
scan_wraps (suc zero) (suc (suc fuel)) start taken f e t free p =
    let wrap : u32 (start + 1) ≡ 0 = omega arith in
    rw (scan_skip (suc fuel) start (u32_mod - 1) taken (omega arith) t.0, wrap)
      (scan_hit fuel 0 (u32_mod - 1) taken (omega arith) free)
scan_wraps (suc (suc count)) (suc fuel) start taken f e t free p =
    let wrap : u32 (start + 1) ≡ start + 1 = omega arith in
    rw (scan_skip fuel start (u32_mod - 1) taken (omega arith) t.0, wrap)
      (scan_wraps (suc count) fuel (start + 1) taken (omega arith) (omega arith) t.1 free
        (omega arith))

-- A result is an address that was not taken and is now; an error leaves the map as it was.
abbrev pub Marks : Dict Text Bool → Result Ip × Dict Text Bool → Type 0
Marks taken (ok ip, after) =
    (is_taken taken (ip_text ip) ≡ false) × (after ≡ insert (ip_text ip) true taken)
Marks taken (err e, after) = (e ≡ failed Site.all_taken) × (after ≡ taken)

Marks-result :
    (taken : Dict Text Bool) (call : Option (Result Ip × Dict Text Bool))
    (given r : Result Ip × Dict Text Bool)
    → call ≡ some given
    → call ≡ some r
    → Marks taken given
    → Marks taken r
Marks-result taken call given r e f m = let same : given ≡ r = cc in subst (Marks taken) same m

pub scan-Marks :
    (fuel i finish : ℕ) (taken : Dict Text Bool) (r : Result Ip × Dict Text Bool)
    → scan fuel i finish taken ≡ some r
    → Marks taken r
scan-Marks zero i finish taken r e = absurd (cc (scan_out_of_fuel 0 i finish taken))
scan-Marks (suc fuel) i finish taken r e = elim (dec_le i finish) [
  | no past ↦ Marks-result taken _ _ r (scan_end fuel i finish taken (omega arith)) e (refl, refl)
  | yes inside ↦ elim (Bool-cases (is_taken taken (address_text i))) [
    | inl used ↦
        scan-Marks fuel (u32 (i + 1)) finish taken r
          (cc (scan_skip fuel i finish taken inside used))
    | inr free ↦ Marks-result taken _ _ r (scan_hit fuel i finish taken inside free) e (free, refl)
  ]
]

-- Of `count` addresses from `start` on, all are taken, or there is a first that is free.
pub first_free :
    (count start : ℕ) (taken : Dict Text Bool)
    → AllTaken taken start count
      ⊎ ((gap : ℕ) × (gap < count)
          × AllTaken taken start gap
          × (is_taken taken (address_text (start + gap)) ≡ false))
first_free zero start taken = inl tt
first_free (suc count) start taken = elim (Bool-cases (is_taken taken (address_text start))) [
  | inr free ↦ inr (0, omega arith, tt, rw (add-zero start) free)
  | inl used ↦ elim (first_free count (start + 1) taken) [
    | inl all ↦ inl (used, all)
    | inr (gap, small, before, free) ↦
        inr (suc gap, omega arith, (used, before), rw (next gap) free)
  ]
]
  where
    next : (gap : ℕ) → start + suc gap ≡ start + 1 + gap
    next gap = omega arith

-- A single address among them.
pub AllTaken-at :
    (count start n : ℕ) (taken : Dict Text Bool)
    → AllTaken taken start count
    → start ≤ n
    → n < start + count
    → is_taken taken (address_text n) ≡ true
AllTaken-at zero start n taken t h k = absurd (omega arith)
AllTaken-at (suc count) start n taken t h k = elim (ℕ_discrete start n) [
  | yes same ↦ rw (← same) t.0
  | no later ↦ AllTaken-at count (start + 1) n taken t.1 (omega arith) (omega arith)
]

pub AllTaken-of :
    (count start : ℕ) (taken : Dict Text Bool)
    → ((n : ℕ) → start ≤ n → n < start + count → is_taken taken (address_text n) ≡ true)
    → AllTaken taken start count
AllTaken-of zero start taken t = tt
AllTaken-of (suc count) start taken t = (
  t start (omega arith) (omega arith),
  AllTaken-of count (start + 1) taken (λ n h k. t n (omega arith) (omega arith)),
)
