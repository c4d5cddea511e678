-- ===== src/Initializer/EnvVars/Laws.antt =====
-- Lemmas on generateTestControllerEnvVariables of initializer/parallelism/test_executor.go.
use zz_deprecated_kurtosis.Base.{
  ◌≡◌, refl, [], ◌∷◌, true, Bool-cases, none, some, Text, Dict, lookup, insert, found, IsDict,
  lookup-insert, ==_iff, text_eq, arith, ◌⊎◌, inl, inr, failed, Site, Result, ok, err,
}
use zz_deprecated_kurtosis.Initializer.EnvVars.{
  ControllerArgs, standard_vars, add_custom, generate_test_controller_env_variables,
}

-- All the variables, with no custom one over a standard one.
pub record Merged (vars custom : Dict Text Text) (result : Result (Dict Text Text)) : Type 0 where
  pub env : Dict Text Text
  pub returns : result ≡ ok env
  pub disjoint : (k : Text) → found (lookup k custom) ≡ true → lookup k vars ≡ none
  pub has_custom : (k v : Text) → lookup k custom ≡ some v → lookup k env ≡ some v
  pub has_others : (k : Text) → lookup k custom ≡ none → lookup k env ≡ lookup k vars

-- A custom variable that Kurtosis uses itself, and the error that names it.
pub record Clash (vars custom : Dict Text Text) (result : Result (Dict Text Text)) : Type 0 where
  pub key : Text
  pub is_custom : found (lookup key custom) ≡ true
  pub is_used : found (lookup key vars) ≡ true
  pub returns : result ≡ err (failed (Site.env_var_in_use key))

merge :
    (vars custom : Dict Text Text)
    → IsDict custom
    → Merged vars custom (add_custom vars custom) ⊎ Clash vars custom (add_custom vars custom)
unfolding add_custom lookup
merge vars [] d = inl (record {
  env = vars;
  returns = refl;
  disjoint = λ k h. ground arith;
  has_custom = λ k v h. ground arith;
  has_others = λ k h. refl;
})
merge vars ((key, val) ∷ more) d = elim (Bool-cases (found (lookup key vars))) [
  | inl used ↦ inr (record {
    key = key;
    is_custom = ground (arith, ==_iff key key);
    is_used = used;
    returns = rw used refl;
  })
  | inr free ↦ elim (merge (insert key val vars) more d.1) [
    | inl m ↦ inl (record {
      env = m.env;
      returns = rw free m.returns;
      disjoint = λ k h. ground (arith, m.disjoint k, lookup-insert key k val vars, ==_iff key k);
      has_custom = λ k v h. ground (
        arith,
        m.has_custom k v,
        m.has_others k,
        lookup-insert key k val vars,
        ==_iff key k,
        d.0,
      );
      has_others =
          λ k h. ground (arith, m.has_others k, lookup-insert key k val vars, ==_iff key k);
    })
    | inr c ↦ inr (record {
      key = c.key;
      is_custom = ground (arith, c.is_custom);
      is_used =
          ground (
            arith,
            c.is_used,
            c.is_custom,
            lookup-insert key c.key val vars,
            ==_iff key c.key,
            d.0,
          );
      returns = rw free c.returns;
    })
  ]
]

-- For custom variables with one value each, visited in any order: either none of them is a variable
-- that Kurtosis sets, and the controller gets the value of every custom variable and of every
-- standard one; or the result is the error that names a custom variable that Kurtosis sets.
pub generate_env_variables-merges :
    (args : ControllerArgs) (custom : Dict Text Text)
    → IsDict custom
    → Merged (standard_vars args) custom (generate_test_controller_env_variables args custom)
      ⊎ Clash (standard_vars args) custom (generate_test_controller_env_variables args custom)
unfolding generate_test_controller_env_variables
generate_env_variables-merges args custom d = merge (standard_vars args) custom d
