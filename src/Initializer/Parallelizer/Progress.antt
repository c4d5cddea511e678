-- ===== src/Initializer/Parallelizer/Progress.antt =====
-- Lemmas on the workers of initializer/parallelism/test_executor_parallelizer.go: who can move.
use zz_deprecated_kurtosis.Base.{◌≡◌, refl, ap, ◌⊎◌, inl, inr, List, [], ◌∷◌, ◌++◌, All}
use zz_deprecated_kurtosis.Initializer.Parallelizer.{Worker, ready, running, done}
use zz_deprecated_kurtosis.Initializer.Parallelizer.Pool.{IsDone}

module _ {Test : Type 0} where
  -- A worker that has not left, and where it stands.
  pub record Active (ws : List (Worker Test)) : Type 0 where
    pub before : List (Worker Test)
    pub worker : Worker Test
    pub after : List (Worker Test)
    pub place : ws ≡ before ++ worker ∷ after
    pub active : ¬ IsDone worker

  Active-cons : (w : Worker Test) (ws : List (Worker Test)) → Active ws → Active (w ∷ ws)
  Active-cons w ws a = record {
    before = w ∷ a.before;
    worker = a.worker;
    after = a.after;
    place = ap (λ l. w ∷ l) a.place;
    active = a.active;
  }

  pub first-Active : (ws : List (Worker Test)) → All IsDone ws ⊎ Active ws
  first-Active [] = inl tt
  first-Active (ready ∷ ws) =
      inr (record { before = []; worker = ready; after = ws; place = refl; active = λ h. h })
  first-Active (running p ∷ ws) =
      inr (record { before = []; worker = running p; after = ws; place = refl; active = λ h. h })
  first-Active (done ∷ ws) = elim (first-Active ws) [
    | inl h ↦ inl (tt, h)
    | inr a ↦ inr (Active-cons done ws a)
  ]
