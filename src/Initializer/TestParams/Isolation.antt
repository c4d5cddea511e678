-- ===== src/Initializer/TestParams/Isolation.antt =====
-- Lemmas on buildTestParams of initializer/test_suite_runner.go and the trackers of the subnets:
-- which addresses two tests hand out.
use native.Mathlib.Nat.{zero-add, one-le-pow, div-mul-le_self, pow-le-pow_right, add-mul-div_right}
use zz_deprecated_kurtosis.Base.{
  ℕ, ◌+◌, ◌-◌, ◌*◌, ◌/◌, ◌^◌, ◌≤◌, ◌<◌, ◌≡◌, sym, ap, ◌∙◌, ◌≢◌, inl, inr, Bool, Option, none, some,
  Option-cases, dec_lt, arith, dec_lt, Text, Dict, lookup, IsDict, text_eq, length, All, All-map,
  ok,
}
use zz_deprecated_kurtosis.Net.Defs.{u32, u32_mod}
use zz_deprecated_kurtosis.Net.Mask.{round_down, blocks_fill}
use zz_deprecated_kurtosis.Net.Texts.{address_text-injective}
use zz_deprecated_kurtosis.Networks.IpTracker.{FreeIpAddrTracker, new_free_ip_addr_tracker}
use zz_deprecated_kurtosis.Networks.IpTracker.History.{handed_out}
use zz_deprecated_kurtosis.Networks.IpTracker.Laws.{IsNetwork}
use zz_deprecated_kurtosis.Networks.IpTracker.Range.{
  cidr_text, new-IsNetwork, InBlock, handed_out-InBlock,
}
use zz_deprecated_kurtosis.Networks.IpTracker.Room.{Allocates}
use zz_deprecated_kurtosis.Initializer.TestParams.{
  ParallelTestParams, subnet_cidr_str, build_test_params,
}
use zz_deprecated_kurtosis.Initializer.TestParams.Subnets.{
  Converts, subnet_start, place, placed, place_bound, place_ne, lookup-build_test_params,
}

index-le : (i p : ℕ) → 0 < p → i ≤ i * p
index-le i p h = grind arith

block_of : (start i p : ℕ) → 0 < p → (start + i * p) / p * p ≡ start / p * p + i * p
block_of start i p h = rw (add-mul-div_right start i h) (distribute (start / p) i p)
  where
    distribute : (a b c : ℕ) → (a + b) * c ≡ a * c + b * c
    distribute a b c = omega arith

round_down-le : (p n : ℕ) → n / p * p ≤ n
round_down-le p n = div-mul-le_self n p

block_below : (i j p : ℕ) → i < j → i * p + p ≤ j * p
block_below i j p h = grind arith

module _ (to : ℕ → ℕ) (w : ℕ) (converts : Converts to) (narrow : w < 32) where
  size_fits : 2 ^ w < u32_mod
  size_fits = omega (arith, pow-le-pow_right {n = 2} (omega arith) {i = w} {j = 31} (omega arith))

  pub subnet_cidr_str-fits :
      (i : ℕ)
      → subnet_start + i * 2 ^ w < u32_mod
      → subnet_cidr_str to w subnet_start i ≡ cidr_text (subnet_start + i * 2 ^ w) (32 - w)
  unfolding subnet_cidr_str
  subnet_cidr_str-fits i h =
      let small : u32 i ≡ i = omega (arith, index-le i (2 ^ w) (one-le-pow w 2 (omega arith))) in
      let offset : u32 (i * 2 ^ w) ≡ i * 2 ^ w = omega arith in
      let whole : u32 (subnet_start + i * 2 ^ w) ≡ subnet_start + i * 2 ^ w = omega arith in
      let ones : u32 (32 + u32_mod - w) ≡ 32 - w = omega arith in
      rw (converts (2 ^ w) size_fits, small, offset, whole, ones)

-- The block of the test at place `i`.
abbrev block : ℕ → ℕ → ℕ
block w i = round_down w subnet_start + i * 2 ^ w

-- Texts of addresses in two blocks are different.
apart :
    (w i j : ℕ) (s r : Text)
    → i < j
    → block w j + 2 ^ w < u32_mod
    → InBlock (block w i) (block w i + 2 ^ w) s
    → InBlock (block w j) (block w j + 2 ^ w) r
    → s ≢ r
apart w i j s r lt room (m, above, below, e) (n, above', below', f) same = absurd (
    omega (
      arith,
      block_below i j (2 ^ w) lt,
      address_text-injective m n (omega (arith, block_below i j (2 ^ w) lt)) (omega arith)
          (sym e ∙ (same ∙ f)),
    ))

block_room :
    (w : ℕ) {Test : Type 0} (tests : Dict Text Test)
    → subnet_start + length tests * 2 ^ w < u32_mod
    → (i : ℕ) → i < length tests
    → block w i + 2 ^ w < u32_mod
block_room w tests room i small =
    omega (arith, block_below i (length tests) (2 ^ w) small, round_down-le (2 ^ w) subnet_start)

apart_ne :
    (w i j : ℕ) (s r : Text)
    → i ≢ j
    → block w i + 2 ^ w < u32_mod
    → block w j + 2 ^ w < u32_mod
    → InBlock (block w i) (block w i + 2 ^ w) s
    → InBlock (block w j) (block w j + 2 ^ w) r
    → s ≢ r
apart_ne w i j s r ne room_i room_j at_i at_j = elim (dec_lt i j) [
  | yes lt ↦ apart w i j s r lt room_j at_i at_j
  | no ge ↦ λ same. apart w j i r s (omega arith) room_i at_j at_i (sym same)
]

module _ (to : ℕ → ℕ) (w : ℕ) {Test : Type 0} (id : Text) (tests : Dict Text Test)
    (params : Dict Text (ParallelTestParams Test)) (converts : Converts to) (hosts : 0 < w)
    (narrow : w < 32) (distinct : IsDict tests)
    (room : subnet_start + length tests * 2 ^ w < u32_mod)
    (built : build_test_params to w id tests ≡ ok params) where
  module _ (name : Text) (p : ParallelTestParams Test) (found : lookup name params ≡ some p) where
    looked_up : placed to w id 0 name (place name tests) none ≡ some p
    looked_up = sym (lookup-build_test_params to w id tests params name distinct built) ∙ found

    place_found : (i : ℕ) × (test : Test) × (place name tests ≡ some (i, test))
    place_found = elim (Option-cases (place name tests)) [
      | inl e ↦ cc (looked_up, ap (λ o. placed to w id 0 name o none) e)
      | inr ((i, test), e) ↦ (i, test, e)
    ]

    subnet_of_place :
        (i : ℕ) (test : Test)
        → place name tests ≡ some (i, test)
        → p.subnet_mask ≡ subnet_cidr_str to w subnet_start i
    subnet_of_place i test e =
        ap (λ (q : ParallelTestParams Test). q.subnet_mask)
          (sym (some_eq (rw (e, zero-add) at looked_up)))
      where
        some_eq :
            {q r : ParallelTestParams Test}
            → ◌≡◌ {A = Option (ParallelTestParams Test)} (some q) (some r)
            → q ≡ r
        some_eq h = cc

    -- The tracker of a test's subnet is of the block of the test's place.
    block-IsNetwork :
        (m : Dict Text Bool) (t : FreeIpAddrTracker) (i : ℕ) (test : Test)
        → new_free_ip_addr_tracker p.subnet_mask m ≡ ok t
        → place name tests ≡ some (i, test)
        → IsNetwork t.subnet (block w i) w
    block-IsNetwork m t i test made e =
        let top = block_below i (length tests) (2 ^ w) (place_bound name tests i test e) in
        let pos : 0 < 2 ^ w = one-le-pow w 2 (omega arith) in
        let fits : subnet_start + i * 2 ^ w < u32_mod = omega arith in
        let text = subnet_of_place i test e ∙ subnet_cidr_str-fits to w converts narrow i fits in
        let is : IsNetwork t.subnet (round_down w (subnet_start + i * 2 ^ w)) w =
          new-IsNetwork _ w m t fits (omega arith) (rw text at made) in
        rw (block_of subnet_start i (2 ^ w) pos) at is

    top_of_block :
        (i : ℕ) (test : Test) → place name tests ≡ some (i, test) → block w i + 2 ^ w < u32_mod
    top_of_block i test e = block_room w tests room i (place_bound name tests i test e)

    -- What the tracker of a test's subnet hands out lies in the block of the test's place.
    test_block :
        (m : Dict Text Bool) (t : FreeIpAddrTracker) (k i : ℕ) (test : Test)
        → new_free_ip_addr_tracker p.subnet_mask m ≡ ok t
        → place name tests ≡ some (i, test)
        → All (InBlock (block w i) (block w i + 2 ^ w)) (handed_out k t)
    test_block m t k i test made e =
        handed_out-InBlock k t (block w i) w (block-IsNetwork m t i test made e) hosts
          (top_of_block i test e)

    -- The tracker of a test's subnet hands out addresses.
    pub subnet-Allocates :
        (m : Dict Text Bool) (t : FreeIpAddrTracker)
        → new_free_ip_addr_tracker p.subnet_mask m ≡ ok t
        → Allocates t.subnet
    subnet-Allocates m t made =
        let (i, test, e) = place_found in
        record {
          base = block w i;
          bits = w;
          is = block-IsNetwork m t i test made e;
          hosts = hosts;
          room = top_of_block i test e;
        }

-- For a set of tests whose subnets, of `2 ^ w` addresses each, fit below 255.255.255.255: whatever
-- two trackers made from the subnets of two different tests hand out, with whatever addresses taken
-- from the start and however many calls, no address is handed out by both.
pub tests_share_no_address :
    (to : ℕ → ℕ) (w : ℕ) {Test : Type 0} (id : Text) (tests : Dict Text Test)
    (params : Dict Text (ParallelTestParams Test)) (a b : Text) (p q : ParallelTestParams Test)
    (m n : Dict Text Bool) (t u : FreeIpAddrTracker) (k l : ℕ)
    → Converts to
    → 0 < w
    → w < 32
    → IsDict tests
    → subnet_start + length tests * 2 ^ w < u32_mod
    → build_test_params to w id tests ≡ ok params
    → lookup a params ≡ some p
    → lookup b params ≡ some q
    → a ≢ b
    → new_free_ip_addr_tracker p.subnet_mask m ≡ ok t
    → new_free_ip_addr_tracker q.subnet_mask n ≡ ok u
    → All (λ s. All (λ r. s ≢ r) (handed_out l u)) (handed_out k t)
tests_share_no_address to w id tests params a b p q m n t u k l c h v d r e fa fb ne ma mb =
    let (i, x, at_a) = place_found to w id tests params c h v d r e a p fa in
    let (j, y, at_b) = place_found to w id tests params c h v d r e b q fb in
    let blocks_a = test_block to w id tests params c h v d r e a p fa m t k i x ma at_a in
    let blocks_b = test_block to w id tests params c h v d r e b q fb n u l j y mb at_b in
    let different : i ≢ j = λ same. ne (place_ne a b tests i x y at_a (rw same at_b)) in
    let room_i = block_room w tests r i (place_bound a tests i x at_a) in
    let room_j = block_room w tests r j (place_bound b tests j y at_b) in
    All-map _ _
      (λ s in_a.
        All-map _ (λ o. s ≢ o) (λ o in_b. apart_ne w i j s o different room_i room_j in_a in_b) _
          blocks_b)
      _ blocks_a

-- Nothing guards the uint32 arithmetic: with `w` below 32 and while the
-- index fits a uint32, `2 ^ (32 - w)` places on, the same subnet is given again.
pub subnets_repeat :
    (to : ℕ → ℕ) (w i : ℕ)
    → Converts to
    → w < 32
    → i + 2 ^ (32 - w) < u32_mod
    → subnet_cidr_str to w subnet_start (i + 2 ^ (32 - w)) ≡ subnet_cidr_str to w subnet_start i
unfolding subnet_cidr_str
subnets_repeat to w i c h k =
    let here : u32 i ≡ i = omega arith in
    let there : u32 (i + 2 ^ (32 - w)) ≡ i + 2 ^ (32 - w) = omega arith in
    let round : u32 ((i + 2 ^ (32 - w)) * 2 ^ w) ≡ u32 (i * 2 ^ w) =
      omega (arith, blocks_fill w (omega arith), distribute i (2 ^ (32 - w)) (2 ^ w)) in
    rw (c (2 ^ w) (size_fits to w c h), here, there, round)
  where
    distribute : (a b d : ℕ) → (a + b) * d ≡ a * d + b * d
    distribute a b d = omega arith
