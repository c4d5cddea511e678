-- ===== src/Initializer/SuiteRunner/Choice.antt =====
-- Lemmas on RunTests of initializer/test_suite_runner.go: the tests that are chosen.
use zz_deprecated_kurtosis.Base.{
  ◌≡◌, refl, ap, ◌∙◌, named, ◌⊎◌, inl, inr, List, [], ◌∷◌, true, if◌then◌else◌, none, Option-cases,
  found, Text, Dict, lookup, insert, lookup_empty, lookup-insert, IsDict, insert-IsDict, ==_iff,
  text_eq, failed, Result, ok, err, Site, arith,
}
use zz_deprecated_kurtosis.Initializer.SuiteRunner.{names_to_run, find_tests, choose_tests}

module _ {Test : Type 0} where
  -- The tests of some names, besides those found already.
  record Found (all acc : Dict Text Test) (names : List Text) (result : Result (Dict Text Test))
      : Type 0 where
    tests : Dict Text Test
    returns : result ≡ ok tests
    dict : IsDict tests
    exact : (k : Text) → lookup k tests ≡ (if named k names then lookup k all else lookup k acc)
    registered : (k : Text) → named k names ≡ true → found (lookup k all) ≡ true

  -- A name without a test, and the error for it.
  pub record Unknown (all : Dict Text Test) (names : List Text) (result : Result (Dict Text Test))
      : Type 0 where
    pub name : Text
    pub asked : named name names ≡ true
    pub absent : lookup name all ≡ none
    pub returns : result ≡ err (failed (Site.no_test name))

  find :
      (all acc : Dict Text Test) (names : List Text)
      → IsDict acc
      → Found all acc names (find_tests all names acc)
        ⊎ Unknown all names (find_tests all names acc)
  unfolding find_tests named
  find all acc [] d =
      inl (record {
        tests = acc;
        returns = refl;
        dict = d;
        exact = λ k. refl;
        registered = λ k h. cc;
      })
  find all acc (name ∷ more) d = elim (Option-cases (lookup name all)) [
    | inl e ↦ inr (record {
      name = name;
      asked = ground (arith, ==_iff name name);
      absent = e;
      returns = rw (e, find_tests) refl;
    })
    | inr (test, e) ↦ elim (find all (insert name test acc) more (insert-IsDict name test acc d)) [
      | inl f ↦ inl (record {
        tests = f.tests;
        returns = rw (e, find_tests) f.returns;
        dict = f.dict;
        exact = λ k. ground (arith, f.exact k, lookup-insert name k test acc, ==_iff name k, e);
        registered = λ k h. ground (arith, f.registered k, ==_iff name k, e);
      })
      | inr u ↦ inr (record {
        name = u.name;
        asked = ground (arith, u.asked);
        absent = u.absent;
        returns = rw (e, find_tests) u.returns;
      })
    ]
  ]

-- The tests that are run.
pub record Chosen {Test : Type 0} (all : Dict Text Test) (names : List Text)
    (result : Result (Dict Text Test)) : Type 0 where
  pub tests : Dict Text Test
  pub returns : result ≡ ok tests
  pub dict : IsDict tests
  pub exact :
      (k : Text)
      → lookup k tests ≡ (if named k (names_to_run all names) then lookup k all else none)
  pub registered :
      (k : Text) → named k (names_to_run all names) ≡ true → found (lookup k all) ≡ true

-- Either every name asked for has a test, and then exactly the tests of those names are run, each
-- with its own logic; or the result is the error that names one that has none.
pub choose_tests-exact :
    {Test : Type 0} (all : Dict Text Test) (names : List Text)
    → Chosen all names (choose_tests all names)
      ⊎ Unknown all (names_to_run all names) (choose_tests all names)
unfolding choose_tests
choose_tests-exact all names = elim (find all [] (names_to_run all names) tt) [
  | inl f ↦ inl (record {
    tests = f.tests;
    returns = f.returns;
    dict = f.dict;
    exact = λ k.
        f.exact k
        ∙ ap (λ o. if named k (names_to_run all names) then lookup k all else o) (lookup_empty k);
    registered = f.registered;
  })
  | inr u ↦ inr u
]
