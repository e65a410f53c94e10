-- ===== src/Kea/Counters/Bounds.antt =====
-- `_counters` and `_status` of dhcp-server/kea_pool_stats.py: rounding, bounds and order.
use mathlib.Core.Path.{subst, sym}
use native.Mathlib.Nat.{div-add-mod, mod-lt, mul-add, mul-one}
use ffmuc_salt_public.Prelude.{
  ℕ, ◌+◌, ◌*◌, ◌/◌, ◌%◌, ◌≤◌, ◌<◌, ◌≡◌, refl, false, Option, none, some, arith, Bool-cases, inl,
  inr, ◌==◌, nat_eq, ltb,
}
use ffmuc_salt_public.Kea.Counters.{round, percent_of, counters, status}

-- `x` is as near to the quotient of `a` and `b` as an integer can be.
abbrev pub Near : ℕ → ℕ → ℕ → Type 0
Near a b x = (2 * (b * x) ≤ 2 * a + b) × (2 * a ≤ 2 * (b * x) + b)

module _ (a b q r : ℕ) (e : b * q + r ≡ a) where
  Near-down : 2 * r ≤ b → Near a b q
  Near-down h = (omega arith, omega arith)

  Near-up : b ≤ 2 * r → r < b → Near a b (q + 1)
  Near-up h k = (omega (arith, mul-add b q 1, mul-one b), omega (arith, mul-add b q 1, mul-one b))

-- `round` gives an integer nearest to the quotient.
round-Near : (a b : ℕ) → 0 < b → Near a b (round a b)
unfolding round
round-Near a b h =
    let e = div-add-mod a b in
    let below = mod-lt a h in
    elim (Bool-cases (ltb (2 * (a % b)) b)) [
      | inl less ↦ rw less (Near-down a b (a / b) (a % b) e (ground arith))
      | inr not_less ↦ elim (Bool-cases (ltb b (2 * (a % b)))) [
        | inl more ↦ rw (not_less, more) (Near-up a b (a / b) (a % b) e (ground arith) below)
        | inr half ↦ elim (Bool-cases (a / b % 2 == 0)) [
          | inl even ↦ rw (not_less, half, even) (Near-down a b (a / b) (a % b) e (ground arith))
          | inr odd ↦ rw (not_less, half, odd) (Near-up a b (a / b) (a % b) e (ground arith) below)
        ]
      ]
    ]

percent_of-round :
    (part whole : ℕ) → 0 < whole → percent_of part whole ≡ round (100000 * part) whole
unfolding percent_of
percent_of-round part whole h = rw nonzero refl
  where
    nonzero : (whole == 0) ≡ false
    nonzero = ground arith

Near-bound :
    (part whole x : ℕ) → 0 < whole → part ≤ whole → Near (100000 * part) whole x → x ≤ 100000
Near-bound part whole x z h n = grind (arith, n.0)

-- Where no more addresses are in use than there are, the free and the used ones are all of them, the
-- percentage is at most 100, and it is within half a thousandth of the exact quotient.
pub counters-bounds :
    (defined used touched : ℕ)
    → 0 < defined
    → used ≤ defined
    → ((counters defined used touched).free + used ≡ defined)
      × ((counters defined used touched).percent ≤ 100000)
      × Near (100000 * used) defined (counters defined used touched).percent
unfolding counters
counters-bounds defined used touched h k =
    let near =
      subst (Near (100000 * used) defined) (sym (percent_of-round used defined h))
        (round-Near (100000 * used) defined h) in
    (omega arith, Near-bound used defined (percent_of used defined) h k near, near)

-- A higher percentage has no lower status.
pub status_monotone :
    (p q : ℕ) (warning critical : Option ℕ)
    → p ≤ q
    → status p warning critical ≤ status q warning critical
unfolding status
status_monotone p q none none h = ground arith
status_monotone p q none (some c) h = ground arith
status_monotone p q (some w) none h = ground arith
status_monotone p q (some w) (some c) h = ground arith
