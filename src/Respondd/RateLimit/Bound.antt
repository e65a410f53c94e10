-- ===== src/Respondd/RateLimit/Bound.antt =====
-- `rateLimit.limit` of respondd/respondd-tmpl/lib/ratelimit.py: how many calls a run admits.
use mathlib.Core.Path.{subst}
use native.Mathlib.Nat.{mul-le-mul_right}
use ffmuc_salt_public.Prelude.{
  ℕ, ◌+◌, ◌*◌, ◌≤◌, ◌<◌, ◌≡◌, refl, ◌∙◌, Bool, true, false, some, List, [], ◌∷◌, arith, ◌==◌,
  nat_eq, ltb, leb, Bool-cases, inl, inr,
}
use ffmuc_salt_public.Prelude.Result.{Result, ok, err}
use ffmuc_salt_public.Respondd.RateLimit.{RateLimit, init, refill, take_token, limit_after, limit}

abbrev pub admitted_one : Result Bool → ℕ
admitted_one (ok true) = 1
admitted_one (ok false) = 0
admitted_one (err e) = 0

-- The number of calls that are admitted, one after the other at the times given
abbrev pub admitted : List ℕ → RateLimit → ℕ
admitted [] s = 0
admitted (now ∷ times) s = let (r, s') = limit now s in admitted_one r + admitted times s'

-- The times do not go back.
abbrev pub Ascending : ℕ → List ℕ → Type 0
Ascending from [] = Unit
Ascending from (now ∷ times) = (from ≤ now) × Ascending now times

abbrev pub end : ℕ → List ℕ → ℕ
end from [] = from
end from (now ∷ times) = end now times

-- A bucket of no less than 0, and the time of the last call
abbrev pub Sound : ℕ → RateLimit → Type 0
Sound last s = (s.t_last ≡ some last) × (s.debt ≤ s.credit)

module _ (last now : ℕ) (s : RateLimit) (h : Sound last s) (le : last ≤ now) where
  refill-Sound :
      Sound now (refill last now s)
      × ((refill last now s).rate_limit ≡ s.rate_limit)
      × ((refill last now s).credit + (s.debt + last * s.rate_limit)
          ≤ s.credit + now * s.rate_limit + (refill last now s).debt)
  unfolding refill
  refill-Sound =
      let m = mul-le-mul_right s.rate_limit le in
      elim (Bool-cases (
        ltb (s.rate_burst * 60000 + (s.debt + last * s.rate_limit))
          (s.credit + now * s.rate_limit))) [
            | inl full ↦ rw full ((refl, omega arith), refl, ground arith)
            | inr free ↦ rw free ((refl, omega arith), refl, omega arith)
          ]

take_token-Sound :
    (now : ℕ) (s : RateLimit)
    → Sound now s
    → Sound now (take_token s).1
      × ((take_token s).1.rate_limit ≡ s.rate_limit)
      × (60000 * admitted_one (take_token s).0 + (s.debt + (take_token s).1.credit)
          ≤ s.credit + (take_token s).1.debt)
unfolding take_token
take_token-Sound now s h = elim (Bool-cases (leb (s.debt + 60000) s.credit)) [
  | inl has ↦ rw has ((h.0, ground arith), refl, omega arith)
  | inr less ↦ rw less (h, refl, omega arith)
]

pub limit-Sound :
    (last now : ℕ) (s : RateLimit)
    → 0 < s.rate_limit
    → Sound last s
    → last ≤ now
    → Sound now (limit now s).1
      × ((limit now s).1.rate_limit ≡ s.rate_limit)
      × (60000 * admitted_one (limit now s).0
            + (s.debt + last * s.rate_limit + (limit now s).1.credit)
          ≤ s.credit + now * s.rate_limit + (limit now s).1.debt)
unfolding limit limit_after
limit-Sound last now s z h le =
    let nonzero = positive s.rate_limit z in
    let (sound, same, flow) = refill-Sound last now s h le in
    let (sound', same', flow') = take_token-Sound now (refill last now s) sound in
    rw (h.0, nonzero) (sound', same' ∙ same, omega arith)
  where
    positive : (n : ℕ) → 0 < n → (n == 0) ≡ false
    positive n p = ground arith

admitted-flow :
    (times : List ℕ) (last : ℕ) (s : RateLimit)
    → 0 < s.rate_limit
    → Sound last s
    → Ascending last times
    → 60000 * admitted times s + (s.debt + last * s.rate_limit)
      ≤ s.credit + end last times * s.rate_limit
admitted-flow [] last s z h a = omega (arith, h.1)
admitted-flow (now ∷ times) last s z h a =
    let (sound, same, flow) = limit-Sound last now s z h a.0 in
    let rest = admitted-flow times now (limit now s).1 (rw same z) sound a.1 in
    let here =
      subst
        (λ r.
          60000 * admitted times (limit now s).1 + ((limit now s).1.debt + now * r)
          ≤ (limit now s).1.credit + end now times * r)
        same rest in
    omega (arith, flow, here)

-- Whatever calls come, from the first at the time `start` on and at times that do not go back, a new
-- limiter admits no more than one call, the burst, and its rate per minute since then: a token
-- is 60000 parts, and a millisecond adds `rate_limit` of them.
pub admitted-bound :
    (rate burst start : ℕ) (times : List ℕ)
    → 0 < rate
    → Ascending start times
    → 60000 * admitted (start ∷ times) (init rate burst) + start * rate
      ≤ 60000 * (1 + burst) + end start times * rate
unfolding limit limit_after init
admitted-bound rate burst start times z a =
    let s : RateLimit = record {
      rate_limit = rate;
      rate_burst = burst;
      credit = burst * 60000;
      debt = 0;
      t_last = some start;
    } in
    let flow = admitted-flow times start s z (refl, omega arith) a in omega (arith, flow)
