-- ===== src/Rdns/Longest.antt =====
-- `_zone_for` of _modules/ffmuc_rdns.py: the zone of the longest prefix.

use mathlib.Core.Path.{subst}
use ffmuc_salt_public.Prelude.{
  ℕ, ◌≤◌, String, ◌≡◌, refl, Option, none, some, List, [], ◌∷◌, keep_if, All, arith, if◌then◌else◌,
  ltb, Bool-cases, Option-cases, inl, inr, ◌⊎◌,
}
use ffmuc_salt_public.Rdns.{Address, Network, in_network, longest, zone_for}

-- `x` stands in the list.
abbrev pub Among : {A : Type 0} → A → List A → Type 0
Among x [] = ⊥
Among x (y ∷ ys) = (x ≡ y) ⊎ Among x ys

-- No longer prefix stands in the list.
abbrev pub NoLonger : ℕ → Network × String → Type 0
NoLonger n m = m.0.prefixlen ≤ n

NoLonger-le :
    (n k : ℕ) (ms : List (Network × String)) → n ≤ k → All (NoLonger n) ms → All (NoLonger k) ms
NoLonger-le n k [] h a = tt
NoLonger-le n k (m ∷ ms) h a = (omega (arith, a.0), NoLonger-le n k ms h a.1)

-- A best one of a list: it stands in the list, and no longer prefix does.
abbrev pub IsLongest : Network × String → List (Network × String) → Type 0
IsLongest best ms = Among best ms × All (NoLonger best.0.prefixlen) ms

pub some_inj : {A : Type 0} {a b : A} → some a ≡ some b → a ≡ b
some_inj h = cc

first-IsLongest :
    (m : Network × String) (ms : List (Network × String))
    → All (NoLonger m.0.prefixlen) ms
    → IsLongest m (m ∷ ms)
first-IsLongest m ms a = (inl refl, (omega arith, a))

IsLongest-step :
    (m : Network × String) (ms : List (Network × String)) (found : Option (Network × String))
    (best : Network × String)
    → ((b : Network × String) → found ≡ some b → IsLongest b ms)
    → (found ≡ none → ms ≡ [])
    → (elim found [
      | none ↦ some m
      | some b ↦ if ltb m.0.prefixlen b.0.prefixlen then some b else some m
    ])
      ≡ some best
    → IsLongest best (m ∷ ms)
IsLongest-step m ms none best f e h =
    subst (λ b. IsLongest b (m ∷ ms)) (some_inj h) (first-IsLongest m ms (rw (e refl) tt))
IsLongest-step m ms (some b) best f e h = elim (Bool-cases (ltb m.0.prefixlen b.0.prefixlen)) [
  | inl longer ↦
      subst (λ b. IsLongest b (m ∷ ms)) (some_inj (rw longer at h))
        (inr (f b refl).0, (ground arith, (f b refl).1))
  | inr not_longer ↦
      subst (λ b. IsLongest b (m ∷ ms)) (some_inj (rw not_longer at h))
        (first-IsLongest m ms
          (NoLonger-le b.0.prefixlen m.0.prefixlen ms (ground arith) (f b refl).1))
]

longest-none : (ms : List (Network × String)) → longest ms ≡ none → ms ≡ []
unfolding longest
longest-none [] h = refl
longest-none (m ∷ ms) h = elim (Option-cases (longest ms)) [
  | inl n ↦ absurd (ground arith)
  | inr (b, e) ↦ absurd (ground arith)
]

longest-IsLongest :
    (ms : List (Network × String)) (best : Network × String)
    → longest ms ≡ some best
    → IsLongest best ms
unfolding longest
longest-IsLongest [] best h = cc
longest-IsLongest (m ∷ ms) best h =
    IsLongest-step m ms (longest ms) best (λ b. longest-IsLongest ms b) (longest-none ms) h

-- Where `_zone_for` finds a zone, it is that of a configured network that has the address in it, and
-- no configured network with the address in it has a longer prefix.
pub zone_for-IsLongest :
    (a : Address) (networks : List (Network × String)) (zone : String)
    → zone_for a networks ≡ some zone
    → (best : Network × String) × (best.1 ≡ zone)
      × IsLongest best (keep_if (λ m. in_network a m.0) networks)
unfolding zone_for
zone_for-IsLongest a networks zone h =
    elim (Option-cases (longest (keep_if (λ m. in_network a m.0) networks))) [
      | inl n ↦ absurd (ground arith)
      | inr (best, e) ↦
          (best, ground arith, longest-IsLongest (keep_if (λ m. in_network a m.0) networks) best e)
    ]
