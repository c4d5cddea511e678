-- ===== src/Base/Maps.antt =====
-- Go's maps, as association lists. The order of the entries stands for the order in which a
-- `range` visits them, so a statement about every list of entries covers every such order.
use Prim.Native.Nat.{◌+◌}
use mathlib.Core.Path.{◌≡◌, refl}
use mathlib.Core.Bool.{Bool, true, false}
use mathlib.Core.Option.{Option, none, some}
use mathlib.Core.List.{List, [], ◌∷◌, map}
use native.Mathlib.Omega.{arith}
use zz_deprecated_kurtosis.Base.Tests.{if◌then◌else◌}
use zz_deprecated_kurtosis.Base.Lists.{length}
use zz_deprecated_kurtosis.Base.Keys.{Eq, ◌==◌, ==_iff, ==_refl}

abbrev pub Dict {ℓ κ} : Type ℓ → Type κ → Type (ℓ ⊔ κ)
Dict K V = List (K × V)

abbrev pub keys {ℓ κ} : {K : Type ℓ} {V : Type κ} → Dict K V → List K
keys m = map (λ e. e.0) m

-- The second result of Go's `m[k]`.
abbrev pub found {ℓ} : {V : Type ℓ} → Option V → Bool
found none = false
found (some v) = true

module _ {ℓ κ} {K : Type ℓ} {V : Type κ} ⦃e : Eq K⦄ where
  unfoldable pub lookup : K → Dict K V → Option V
  lookup k [] = none
  lookup k ((j, v) ∷ m) = if j == k then some v else lookup k m

  -- No key has two entries: what a list of entries needs to stand for a Go map.
  abbrev pub IsDict : Dict K V → Type κ
  IsDict [] = Unit
  IsDict ((k, v) ∷ m) = (lookup k m ≡ none) × IsDict m

  unfoldable pub insert : K → V → Dict K V → Dict K V
  insert key value [] = (key, value) ∷ []
  insert key value ((other, old) ∷ more) =
      if other == key then (key, value) ∷ more else (other, old) ∷ insert key value more

  unfoldable pub delete : K → Dict K V → Dict K V
  delete k [] = []
  delete k ((j, w) ∷ m) = if j == k then delete k m else (j, w) ∷ delete k m

  pub lookup_empty : (k : K) → lookup k [] ≡ none
  unfolding lookup
  lookup_empty k = refl

  pub lookup-insert :
      (key other : K) (value : V) (m : Dict K V)
      → lookup other (insert key value m) ≡ (if key == other then some value else lookup other m)
  unfolding insert lookup
  lookup-insert key other value [] = refl
  lookup-insert key other value ((i, w) ∷ m) =
      ground
        (arith, lookup-insert key other value m, ==_iff i key, ==_iff i other, ==_iff key other)

  pub lookup-insert_self : (k : K) (v : V) (m : Dict K V) → lookup k (insert k v m) ≡ some v
  lookup-insert_self k v m = simp (lookup-insert, ==_refl)

  pub lookup-delete :
      (k j : K) (m : Dict K V) → lookup j (delete k m) ≡ (if k == j then none else lookup j m)
  unfolding lookup delete
  lookup-delete k j [] = ground arith
  lookup-delete k j ((i, w) ∷ m) =
      ground (arith, ==_iff k j, ==_iff i k, ==_iff i j, lookup-delete k j m)

  pub insert-IsDict : (k : K) (v : V) (m : Dict K V) → IsDict m → IsDict (insert k v m)
  unfolding lookup insert
  insert-IsDict k v [] h = (refl, tt)
  insert-IsDict k v ((i, w) ∷ m) h =
      ground (arith, ==_iff i k, ==_iff k i, insert-IsDict k v m h.1, lookup-insert k i v m)

  pub delete-IsDict : (k : K) (m : Dict K V) → IsDict m → IsDict (delete k m)
  unfolding delete
  delete-IsDict k [] h = tt
  delete-IsDict k ((i, w) ∷ m) h =
      ground (arith, ==_iff i k, delete-IsDict k m h.1, lookup-delete k i m)

  -- A new key adds an entry at the end.
  pub length-insert_new :
      (k : K) (v : V) (m : Dict K V) → lookup k m ≡ none → length (insert k v m) ≡ length m + 1
  unfolding lookup insert
  length-insert_new k v [] h = omega arith
  length-insert_new k v ((i, w) ∷ m) h = ground (arith, length-insert_new k v m)

  pub delete_absent : (k : K) (m : Dict K V) → lookup k m ≡ none → delete k m ≡ m
  unfolding lookup delete
  delete_absent k [] h = refl
  delete_absent k ((i, w) ∷ m) h = ground (arith, delete_absent k m)

  pub length-delete_present :
      (k : K) (m : Dict K V) (v : V)
      → IsDict m
      → lookup k m ≡ some v
      → length m ≡ length (delete k m) + 1
  unfolding lookup delete
  length-delete_present k [] v d h = ground arith
  length-delete_present k ((i, w) ∷ m) v d h =
      ground (arith, ==_iff i k, length-delete_present k m v d.1, delete_absent k m)
