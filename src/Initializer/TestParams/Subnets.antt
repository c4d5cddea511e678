-- ===== src/Initializer/TestParams/Subnets.antt =====
-- Lemmas on buildTestParams of initializer/test_suite_runner.go: the parameters of each test.
use zz_deprecated_kurtosis.Base.{
  ℕ, zero, suc, ◌+◌, ◌<◌, ◌≡◌, refl, ◌∙◌, ◌≢◌, inl, inr, ◌⊎◌, Bool, true, false, Option, none, some,
  [], ◌∷◌, arith, Text, Dict, lookup, lookup_empty, lookup-insert, IsDict, text_eq, ◌==◌, ==_iff,
  length, ok, if◌then◌else◌, Bool-cases,
}
use zz_deprecated_kurtosis.Net.Defs.{uint32, u32_mod}
use zz_deprecated_kurtosis.Net.Cidr.{parse_ip, parse_ipv4, parse_byte, skip_dot}
use zz_deprecated_kurtosis.Net.Decimal.{dtoi}
use zz_deprecated_kurtosis.Initializer.TestParams.{
  ParallelTestParams, subnet_start_addr, subnet_cidr_str, params_loop, build_test_params,
}

-- What the language says of the conversion: whole numbers that fit are kept.
abbrev pub Converts : (ℕ → ℕ) → Type 0
Converts to = (n : ℕ) → n < u32_mod → to n ≡ n

-- 172.23.0.0
abbrev pub subnet_start : ℕ
subnet_start = 2887188480

abbrev pub one_on : {V : Type 0} → Option (ℕ × V) → Option (ℕ × V)
one_on none = none
one_on (some (i, v)) = some (suc i, v)

-- Where a key stands in the order in which a map is visited, and its value.
abbrev pub place : {V : Type 0} → Text → Dict Text V → Option (ℕ × V)
place k [] = none
place k ((j, v) ∷ m) = if j == k then some (0, v) else one_on (place k m)

module _ {V : Type 0} where
  place_absent : (k : Text) (m : Dict Text V) → lookup k m ≡ none → place k m ≡ none
  unfolding lookup
  place_absent k [] h = refl
  place_absent k ((j, v) ∷ m) h = ground (arith, place_absent k m)

  one_on_pos : (o : Option (ℕ × V)) (v : V) → one_on o ≢ some (0, v)
  one_on_pos none v e = cc
  one_on_pos (some (i, w)) v e = ground arith

  one_on-suc :
      (hit : Bool) (o : Option (ℕ × V)) (x : V) (i : ℕ) (v : V)
      → (if hit then some (0, x) else one_on o) ≡ some (suc i, v)
      → o ≡ some (i, v)
  one_on-suc true o x i v e = ground arith
  one_on-suc false none x i v e = cc
  one_on-suc false (some (j, w)) x i v e = ground arith

  -- Different keys stand at different places.
  pub place_ne :
      (k l : Text) (m : Dict Text V) (i : ℕ) (v w : V)
      → place k m ≡ some (i, v)
      → place l m ≡ some (i, w)
      → k ≡ l
  place_ne k l [] i v w e f = cc
  place_ne k l ((j, x) ∷ m) zero v w e f =
      ground (arith, ==_iff j k, ==_iff j l, one_on_pos (place k m) v, one_on_pos (place l m) w)
  place_ne k l ((j, x) ∷ m) (suc i) v w e f =
      place_ne k l m i v w (one_on-suc (j == k) (place k m) x i v e)
        (one_on-suc (j == l) (place l m) x i w f)

  pub place_bound :
      (k : Text) (m : Dict Text V) (i : ℕ) (v : V) → place k m ≡ some (i, v) → i < length m
  place_bound k [] i v e = cc
  place_bound k ((j, x) ∷ m) zero v e = omega arith
  place_bound k ((j, x) ∷ m) (suc i) v e =
      omega (arith, place_bound k m i v (one_on-suc (j == k) (place k m) x i v e))

module _ (to : ℕ → ℕ) (w : ℕ) {Test : Type 0} (id : Text) where
  abbrev pub params_at : ℕ → Text → Test → ParallelTestParams Test
  params_at i name test = record {
    test_name = name;
    test = test;
    subnet_mask = subnet_cidr_str to w subnet_start i;
    execution_instance_id = id;
  }

  abbrev pub placed :
      ℕ
      → Text
      → Option (ℕ × Test)
      → Option (ParallelTestParams Test)
      → Option (ParallelTestParams Test)
  placed idx name none before = before
  placed idx name (some (i, test)) before = some (params_at (idx + i) name test)

  placed_cons :
      (name : Text) (idx : ℕ) (j : Text) (test : Test) (before : Option (ParallelTestParams Test))
      (rest : Option (ℕ × Test))
      → ((j == name) ≡ true → rest ≡ none)
      → ((j == name) ≡ true) ⊎ ((j == name) ≡ false)
      → placed (suc idx) name rest (if j == name then some (params_at idx j test) else before)
        ≡ placed idx name (if j == name then some (0, test) else one_on rest) before
  placed_cons name idx j test before rest hidden (inl hit) =
      let same : j ≡ name = (==_iff j name).0 hit in
      let zero_on : idx + 0 ≡ idx = omega arith in rw (hit, hidden hit, zero_on, same)
  placed_cons name idx j test before none hidden (inr miss) = rw miss
  placed_cons name idx j test before (some (i, t)) hidden (inr miss) =
      let on : suc idx + i ≡ idx + suc i = omega arith in rw (miss, on)

  lookup-params_loop :
      (name : Text) (idx : ℕ) (tests : Dict Text Test)
      (params : Dict Text (ParallelTestParams Test))
      → IsDict tests
      → lookup name (params_loop to w id subnet_start idx tests params)
        ≡ placed idx name (place name tests) (lookup name params)
  unfolding params_loop
  lookup-params_loop name idx [] params d = refl
  lookup-params_loop name idx ((j, test) ∷ more) params d =
      lookup-params_loop name (suc idx) more _ d.1
      ∙ rw (lookup-insert j name (params_at idx j test) params) (
          placed_cons name idx j test (lookup name params) (place name more) hidden
            (Bool-cases (j == name)))
    where
      hidden : (j == name) ≡ true → place name more ≡ none
      hidden hit = place_absent name more (rw (← (==_iff j name).0 hit) d.0)

-- 172.23.0.0 parses, so building the parameters never fails.
pub build-ok :
    (to : ℕ → ℕ) (w : ℕ) {Test : Type 0} (id : Text) (tests : Dict Text Test)
    → build_test_params to w id tests ≡ ok (params_loop to w id subnet_start 0 tests [])
unfolding build_test_params parse_ip parse_ipv4 parse_byte skip_dot dtoi subnet_start_addr uint32
build-ok to w id tests = refl

-- The parameters of each test: its own name and logic, and the subnet of its place in the order of
-- the tests; a name that is not among the tests has none.
pub lookup-build_test_params :
    (to : ℕ → ℕ) (w : ℕ) {Test : Type 0} (id : Text) (tests : Dict Text Test)
    (params : Dict Text (ParallelTestParams Test)) (name : Text)
    → IsDict tests
    → build_test_params to w id tests ≡ ok params
    → lookup name params ≡ placed to w id 0 name (place name tests) none
lookup-build_test_params to w id tests params name d e =
    let same : params_loop to w id subnet_start 0 tests [] ≡ params = cc (build-ok to w id tests) in
    rw (← same) (lookup-params_loop to w id name 0 tests [] d ∙ rw lookup_empty)
