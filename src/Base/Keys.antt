-- ===== src/Base/Keys.antt =====
-- Equality tests as an interface; texts as lists of bytes.
use Prim.Native.Nat.{ℕ}
use Prim.Native.Char.{code}
use Prim.Native.String.{String}
use mathlib.Core.Path.{◌≡◌, refl}
use mathlib.Core.Logic.{◌↔◌}
use mathlib.Core.Bool.{Bool, true, false, ◌&&◌, ◌||◌}
use mathlib.Core.List.{List, [], ◌∷◌}
use native.Mathlib.Omega.{arith}
use zz_deprecated_kurtosis.Base.Tests.{nat_beq, nat_beq_iff}

pub record Eq {ℓ} (A : Type ℓ) : Type ℓ where
  pub test : A → A → Bool
  pub test_iff : (x y : A) → (test x y ≡ true) ↔ (x ≡ y)

-- A text is the list of its bytes.
abbrev pub Text : Type 0
Text = List ℕ

abbrev pub codes : String → Text
codes String.[] = []
codes (String.◌∷◌ c s) = code c ∷ codes s

unfoldable pub text_beq : Text → Text → Bool
text_beq [] [] = true
text_beq [] (d ∷ t) = false
text_beq (c ∷ s) [] = false
text_beq (c ∷ s) (d ∷ t) = nat_beq c d && text_beq s t

pub text_beq_iff : (s t : Text) → (text_beq s t ≡ true) ↔ (s ≡ t)
unfolding text_beq
text_beq_iff [] [] = ((λ h. refl), (λ h. refl))
text_beq_iff [] (d ∷ t) = ground arith
text_beq_iff (c ∷ s) [] = ground arith
text_beq_iff (c ∷ s) (d ∷ t) = ground (arith, text_beq_iff s t)

infix 50 ◌==◌
abbrev pub ◌==◌ {ℓ} : {K : Type ℓ} ⦃eq : Eq K⦄ → K → K → Bool
◌==◌ ⦃eq⦄ x y = eq.test x y

pub ==_iff {ℓ} : {K : Type ℓ} ⦃eq : Eq K⦄ (x y : K) → ((x == y) ≡ true) ↔ (x ≡ y)
==_iff ⦃eq⦄ x y = eq.test_iff x y

pub ==_refl {ℓ} : {K : Type ℓ} ⦃eq : Eq K⦄ (x : K) → (x == x) ≡ true
==_refl ⦃eq⦄ x = (eq.test_iff x x).1 refl

instance abbrev pub text_eq : Eq Text
text_eq = record { test = text_beq; test_iff = text_beq_iff }

-- Membership of a set of texts.
unfoldable pub named : Text → List Text → Bool
named k [] = false
named k (name ∷ more) = name == k || named k more

instance abbrev pub nat_eq : Eq ℕ
nat_eq = record { test_iff = nat_beq_iff; test = nat_beq }
