-- ===== src/Services/AvailabilityChecker/Laws.antt =====
-- Lemmas on commons/services/service_availability_checker.go: the end of waiting, and a new checker.
use zz_deprecated_kurtosis.Base.{
  ℕ, zero, suc, ◌+◌, ◌<◌, ◌≡◌, sym, ap, ◌∙◌, ◌⊎◌, inl, inr, true, false, Bool-cases, Option, none,
  some, Result, ok, err, arith,
}
use zz_deprecated_kurtosis.Services.AvailabilityChecker.{
  ContextErr, ServiceAvailabilityChecker, startup_err, context_err, service_up, wait_loop,
  wait_for_startup,
}

module _ {Service : Type 0} (checker : ServiceAvailabilityChecker Service) where
  shifted : {A : Type 0} (f : ℕ → A) (p j : ℕ) → f (p + suc j) ≡ f (suc p + j)
  shifted f p j = ap f (omega arith)

  now : {A : Type 0} (f : ℕ → A) (p : ℕ) → f (p + 0) ≡ f p
  now f p = ap f (omega arith)

  -- From poll `p` on, the service is first up at poll `p + i`.
  pub record UpFirst (p gap : ℕ) (result : Option (Result (Unit {0}))) : Type 0 where
    pub i : ℕ
    pub in_time : i < gap
    pub up : service_up checker (p + i) ≡ true
    pub not_before : (j : ℕ) → j < i → service_up checker (p + j) ≡ false
    pub returns : result ≡ some (ok tt)

  -- From poll `p` on, the service is not up in time.
  pub record NeverUp (p gap : ℕ) (e : ContextErr) (result : Option (Result (Unit {0})))
      : Type 0 where
    pub down : (j : ℕ) → j < gap → service_up checker (p + j) ≡ false
    pub returns : result ≡ some (err (startup_err e))

  down_from :
      (p n : ℕ)
      → service_up checker p ≡ false
      → ((i : ℕ) → i < n → service_up checker (suc p + i) ≡ false)
      → (i : ℕ) → i < suc n
      → service_up checker (p + i) ≡ false
  down_from p n first later zero h = now (service_up checker) p ∙ first
  down_from p n first later (suc i) h = shifted (service_up checker) p i ∙ later i (omega arith)

  loop_ends :
      (fuel p gap : ℕ) (e : ContextErr)
      → context_err checker (p + gap) ≡ some e
      → ((j : ℕ) → j < gap → context_err checker (p + j) ≡ none)
      → gap < fuel
      → UpFirst p gap (wait_loop fuel checker p) ⊎ NeverUp p gap e (wait_loop fuel checker p)
  unfolding wait_loop
  loop_ends zero p gap e last alive enough = absurd (omega arith)
  loop_ends (suc fuel) p zero e last alive enough =
      let last' : context_err checker p ≡ some e = sym (now (context_err checker) p) ∙ last in
      inr (record { down = λ j h. absurd (omega arith); returns = rw (last', wait_loop) })
  loop_ends (suc fuel) p (suc gap) e last alive enough =
      let alive' : context_err checker p ≡ none =
        sym (now (context_err checker) p) ∙ alive 0 (omega arith) in
      elim (Bool-cases (service_up checker p)) [
        | inl up ↦ inl (record {
          i = 0;
          in_time = omega arith;
          up = now (service_up checker) p ∙ up;
          not_before = λ j h. absurd (omega arith);
          returns = rw (alive', up, wait_loop);
        })
        | inr down ↦
            elim (loop_ends fuel (suc p) gap e (sym (shifted (context_err checker) p gap) ∙ last)
              (λ j h. sym (shifted (context_err checker) p j) ∙ alive (suc j) (omega arith))
              (omega arith)) [
                | inl u ↦ inl (record {
                  i = suc u.i;
                  in_time = omega (arith, u.in_time);
                  up = shifted (service_up checker) p u.i ∙ u.up;
                  not_before = down_from p u.i down u.not_before;
                  returns = rw (alive', down, wait_loop) u.returns;
                })
                | inr n ↦ inr (record {
                  down = down_from p gap down n.down;
                  returns = rw (alive', down, wait_loop) n.returns;
                })
              ]
      ]

-- When the context ends at poll `n` and not before, and the fuel lasts beyond it, waiting ends:
-- without an error if the service is up at an earlier poll, and only then; otherwise with the error
-- that belongs to the end of the context.
pub wait_for_startup_ends :
    {Service : Type 0} (checker : ServiceAvailabilityChecker Service) (fuel n : ℕ) (e : ContextErr)
    → context_err checker n ≡ some e
    → ((j : ℕ) → j < n → context_err checker j ≡ none)
    → n < fuel
    → UpFirst checker 0 n (wait_for_startup fuel checker)
      ⊎ NeverUp checker 0 n e (wait_for_startup fuel checker)
unfolding wait_for_startup
wait_for_startup_ends checker fuel n e last alive enough =
    loop_ends checker fuel 0 n e (ap (context_err checker) (omega arith) ∙ last)
      (λ j h. ap (context_err checker) (omega arith) ∙ alive j h) enough
