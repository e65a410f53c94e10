-- ===== src/Respondd/Client/Budget.antt =====
-- The class `ResponddClient`: counts of structures, and what the rate limit lets through.
use mathlib.Core.Path.{subst}
use ffmuc_salt_public.Prelude.{
  ℕ, zero, suc, ◌+◌, ◌*◌, ◌≤◌, ◌<◌, String, ◌≡◌, refl, ◌∙◌, Option, none, some, List, [], ◌∷◌, ◌++◌,
  arith, string_eq, ◌==◌, Bool-cases, inl, inr,
}
use ffmuc_salt_public.Prelude.Dict.{Dict, insert}
use ffmuc_salt_public.Respondd.RateLimit.{RateLimit, limit, limit_after}
use ffmuc_salt_public.Respondd.RateLimit.Bound.{limit-Sound, admitted_one}
use ffmuc_salt_public.Respondd.Struct.{Answer}
use ffmuc_salt_public.Respondd.Client.{Reply, single, multi, Sent}

-- The structures in a reply, and in the packets that were sent
abbrev pub weight : Option Answer → ℕ
weight none = 0
weight (some a) = 1

abbrev pub weights : Dict String (Option Answer) → ℕ
weights [] = 0
weights ((k, a) ∷ d) = weight a + weights d

abbrev pub structures : Reply → ℕ
structures (single a) = weight a
structures (multi d) = weights d

abbrev pub count : List Sent → ℕ
count [] = 0
count (p ∷ sent) = structures p.reply + count sent

pub count-append :
    (sent : List Sent) (p : Sent) → count (sent ++ p ∷ []) ≡ count sent + structures p.reply
count-append [] p = omega arith
count-append (q ∷ sent) p = omega (arith, count-append sent p)

pub weights-insert :
    (k : String) (a : Option Answer) (d : Dict String (Option Answer))
    → weights (insert k a d) ≤ weight a + weights d
unfolding insert
weights-insert k a [] = omega arith
weights-insert k a ((j, b) ∷ d) = elim (Bool-cases (k == j)) [
  | inl same ↦ rw same (omega arith)
  | inr other ↦ rw other (omega (arith, weights-insert k a d))
]

module _ (time : ℕ → ℕ) (rate bst : ℕ) where
  -- After `calls` calls the limiter has let through `x` structures at least.
  abbrev pub Spent : ℕ → ℕ → RateLimit → Type 0
  Spent zero x r =
      (r.t_last ≡ none) × (r.debt ≤ r.credit) × (60000 * x + r.credit ≤ 60000 * bst + r.debt)
  Spent (suc n) x r =
      (r.t_last ≡ some (time n))
      × (r.debt ≤ r.credit)
      × (60000 * x + time 0 * rate + r.credit ≤ 60000 * (1 + bst) + time n * rate + r.debt)

  pub Spent-less : (n x y : ℕ) (r : RateLimit) → Spent n x r → y ≤ x → Spent n y r
  Spent-less zero x y r h le = (h.0, h.1, omega arith)
  Spent-less (suc n) x y r h le = (h.0, h.1, omega arith)

  module _ (positive : 0 < rate) (ascends : (n : ℕ) → time n ≤ time (suc n)) where
    pub limit-Spent :
        (n x : ℕ) (r : RateLimit)
        → r.rate_limit ≡ rate
        → Spent n x r
        → Spent (suc n) (admitted_one (limit (time n) r).0 + x) (limit (time n) r).1
          × ((limit (time n) r).1.rate_limit ≡ rate)
    unfolding limit limit_after
    limit-Spent zero x r e h = rw h.0 ((refl, h.1, omega arith), e)
    limit-Spent (suc n) x r e h =
        let (sound, same, flow) =
          limit-Sound (time n) (time (suc n)) r (rw e positive) (h.0, h.1) (ascends n) in
        let flow' =
          subst
            (λ k.
              60000 * admitted_one (limit (time (suc n)) r).0
                + (r.debt + time n * k + (limit (time (suc n)) r).1.credit)
              ≤ r.credit + time (suc n) * k + (limit (time (suc n)) r).1.debt)
            e flow in
        ((sound.0, sound.1, omega arith), same ∙ e)
