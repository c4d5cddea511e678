-- ===== src/Actions.antt =====
-- Go's functions that act on the world outside and return `(value, error)`: chains of them, and what
-- holds at their end.
use zz_deprecated_kurtosis.Base.{
  ok-ne-err, ◌≡◌, refl, sym, ap, subst, Bool, true, false, Error, failed, propagated, Result, ok,
  err, Site,
}

-- An action: its result, and the world after it.
abbrev pub Act : Type 0 → Type 0 → Type 0
Act W A = W → Result A × W

infixl 5 ◌>>>=◌
abbrev pub ◌>>>=◌ {ℓ κ} :
    {W : Type 0} {A : Type ℓ} {B : Type κ} → Result A × W → (A → W → Result B × W) → Result B × W
(ok a, w) >>>= f = f a w
(err e, w) >>>= f = (err e, w)

-- `if err != nil { return stacktrace.Propagate(err, site) }`
abbrev pub propagating : {W A : Type 0} → Site → Result A × W → Result A × W
propagating site (ok a, w) = (ok a, w)
propagating site (err e, w) = (err (propagated site e), w)

module _ {W : Type 0} where
  infixl 5 ◌>>=◌ ◌>>◌
  unfoldable pub ◌>>=◌ : {A B : Type 0} → Act W A → (A → Act W B) → Act W B
  ◌>>=◌ m f w = m w >>>= f

  abbrev pub ◌>>◌ : {B : Type 0} → Act W (Unit {0}) → Act W B → Act W B
  m >> k = m >>= λ _. k

  unfoldable pub returning : {A : Type 0} → A → Act W A
  returning a w = (ok a, w)

  unfoldable pub wrap : {A : Type 0} → Site → Act W A → Act W A
  wrap site m w = propagating site (m w)

  -- `if b { return stacktrace.NewError(...) }`
  unfoldable pub fail_if : Bool → Site → Act W (Unit {0})
  fail_if true site w = (err (failed site), w)
  fail_if false site w = (ok tt, w)

  -- A chain that succeeds is made of two parts that do.
  pub record Chained {A B : Type 0} (r : Result A × W) (f : A → W → Result B × W) (b : B) (v : W)
      : Type 0 where
    pub value : A
    pub world : W
    pub first : r ≡ (ok value, world)
    pub second : f value world ≡ (ok b, v)

module _ {W A B : Type 0} where
  pub chain-eq-ok :
      (r : Result A × W) (f : A → W → Result B × W) (b : B) (v : W)
      → r >>>= f ≡ (ok b, v)
      → Chained r f b v
  chain-eq-ok (ok a, w) f b v e = record { value = a; world = w; first = refl; second = e }
  chain-eq-ok (err x, w) f b v e = absurd (ok-ne-err (sym (ap (λ p. p.0) e)))

  pub chain-ext :
      (r : Result A × W) (f g : A → W → Result B × W)
      → ((a : A) (w : W) → f a w ≡ g a w)
      → r >>>= f ≡ r >>>= g
  chain-ext (ok a, w) f g h = h a w
  chain-ext (err x, w) f g h = refl

module _ {W A : Type 0} where
  pub propagating-eq-ok :
      (site : Site) (r : Result A × W) (a : A) (w : W)
      → propagating site r ≡ (ok a, w)
      → r ≡ (ok a, w)
  propagating-eq-ok site (ok b, v) a w e = e
  propagating-eq-ok site (err x, v) a w e = cc (ap (λ p. p.0) e)

  -- What holds at the end of an action, by its result.
  pub data Ends (P : A → W → Type 0) (Q : W → Type 0) : Result A × W → Type 0 where
    returns : {a : A} {w : W} → P a w → Ends P Q (ok a, w)
    fails : {e : Error} {w : W} → Q w → Ends P Q (err e, w)

module _ {W A : Type 0} {P : A → W → Type 0} {Q : W → Type 0} where
  pub Ends-ok : {r : Result A × W} (a : A) (v : W) → Ends P Q r → r ≡ (ok a, v) → P a v
  Ends-ok a v (returns {a = b} {w = u} p) e =
      let same : b ≡ a = cc (ap (λ q. q.0) e) in
      subst (λ c. P c v) same (subst (P b) (ap (λ q. q.1) e) p)
  Ends-ok a v (fails q) e = absurd (ok-ne-err (sym (ap (λ p. p.0) e)))

  pub Ends-err : {r : Result A × W} (x : Error) (v : W) → Ends P Q r → r ≡ (err x, v) → Q v
  Ends-err x v (returns {a = b} p) e = absurd (ok-ne-err (ap (λ p. p.0) e))
  Ends-err x v (fails q) e = subst Q (ap (λ p. p.1) e) q

  pub Ends-propagating :
      {r : Result A × W} (site : Site) → Ends P Q r → Ends P Q (propagating site r)
  Ends-propagating site (returns p) = returns p
  Ends-propagating site (fails q) = fails q

  pub Ends-wrap : {w : W} (site : Site) (m : Act W A) → Ends P Q (m w) → Ends P Q (wrap site m w)
  unfolding wrap
  Ends-wrap site m h = Ends-propagating site h

  pub Ends-imp :
      {R : A → W → Type 0} {S : W → Type 0} {r : Result A × W}
      → ((a : A) (w : W) → P a w → R a w)
      → ((w : W) → Q w → S w)
      → Ends P Q r
      → Ends R S r
  Ends-imp f g (returns p) = returns (f _ _ p)
  Ends-imp f g (fails q) = fails (g _ q)

  -- A property of the world, whatever the result.
  pub Ends-world :
      {S : W → Type 0} {r : Result A × W}
      → ((a : A) (w : W) → P a w → S w)
      → ((w : W) → Q w → S w)
      → Ends P Q r
      → S r.1
  Ends-world f g (returns p) = f _ _ p
  Ends-world f g (fails q) = g _ q

module _ {W A B : Type 0} {P : A → W → Type 0} {Q S : W → Type 0} {R : B → W → Type 0} where
  pub Ends-chain :
      {r : Result A × W} {f : A → W → Result B × W}
      → ((w : W) → Q w → S w)
      → Ends P Q r
      → ((a : A) (w : W) → P a w → Ends R S (f a w))
      → Ends R S (r >>>= f)
  Ends-chain g (returns p) later = later _ _ p
  Ends-chain g (fails q) later = fails (g _ q)

  pub Ends-bind :
      (m : Act W A) (f : A → Act W B) {w : W}
      → ((w : W) → Q w → S w)
      → Ends P Q (m w)
      → ((a : A) (v : W) → P a v → Ends R S (f a v))
      → Ends R S ((m >>= f) w)
  unfolding ◌>>=◌
  Ends-bind m f g h later = Ends-chain g h later

module _ {W A : Type 0} {S : W → Type 0} where
  -- What holds whatever the result.
  pub Ends-any : (r : Result A × W) → S r.1 → Ends (λ _. S) S r
  Ends-any (ok a, w) h = returns h
  Ends-any (err e, w) h = fails h

module _ {W : Type 0} where
  pub Ends-fail_if :
      {P Q : W → Type 0} (b : Bool) (site : Site) (w : W)
      → (b ≡ false → P w)
      → (b ≡ true → Q w)
      → Ends (λ (_ : Unit {0}). P) Q (fail_if b site w)
  unfolding fail_if
  Ends-fail_if true site w f g = fails (g refl)
  Ends-fail_if false site w f g = returns (f refl)

  pub Ends-returning :
      {A : Type 0} {P : A → W → Type 0} {Q : W → Type 0} (a : A) (w : W)
      → P a w
      → Ends P Q (returning a w)
  unfolding returning
  Ends-returning a w h = returns h

  -- An action that does not fail.
  abbrev pub Succeeds : {A : Type 0} → Result A × W → Type 0
  Succeeds r = Ends (λ a v. Unit {0}) (λ v. ⊥) r

  pub Ends-sure :
      {A : Type 0} {P : A → W → Type 0} {Q S : W → Type 0} {r : Result A × W}
      → ((a : A) (w : W) → P a w → S w)
      → Ends P Q r
      → Succeeds r
      → S r.1
  Ends-sure f (returns p) (returns u) = f _ _ p
  Ends-sure f (fails q) (fails none) = absurd none
