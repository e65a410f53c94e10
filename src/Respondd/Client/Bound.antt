-- ===== src/Respondd/Client/Bound.antt =====
-- The class `ResponddClient`: how many structures it sends.
use mathlib.Core.Path.{subst}
use ffmuc_salt_public.Prelude.{
  ℕ, suc, ◌+◌, ◌*◌, ◌≤◌, ◌<◌, String, ◌≡◌, refl, ap, sym, Bool, true, false, Option, none, some,
  List, [], ◌∷◌, arith, string_eq, ◌==◌, Bool-cases, inl, inr,
}
use ffmuc_salt_public.Prelude.Dict.{Dict, insert}
use ffmuc_salt_public.Prelude.Result.{Result, ok, err}
use ffmuc_salt_public.Prelude.Exec.{Exec, continue}
use ffmuc_salt_public.Prelude.Text.{split}
use ffmuc_salt_public.Respondd.RateLimit.{RateLimit, init, limit}
use ffmuc_salt_public.Respondd.RateLimit.Bound.{admitted_one}
use ffmuc_salt_public.Respondd.Struct.{Answer}
use ffmuc_salt_public.Respondd.Client.{
  Config, Kind, statistics, nodeinfo, neighbours, Moment, Reply, single, multi, Client, new_client,
  burst, admit, build_at, build_struct, build_all, send_struct, answer, serve, serve_all, kind_of,
  structure, by_kind, if_admitted, limited_by, new_limiter,
}
use ffmuc_salt_public.Respondd.Client.Budget.{
  weight, weights, structures, count, count-append, weights-insert, Spent, Spent-less, limit-Spent,
}

module _ (moment : ℕ → Moment) (config : Config) (rate bst : ℕ) where
  abbrev time : ℕ → ℕ
  time n = (moment n).limit_time

  -- What was let through pays for the structures that were sent, and for `x` more.
  abbrev Paid : ℕ → Client → Type 0
  Paid x s =
      (r : RateLimit) × (s.limiter ≡ some r)
      × (r.rate_limit ≡ rate)
      × Spent time rate bst s.calls (x + count s.sent) r

  Paid-less : (x y : ℕ) (s : Client) → Paid x s → y ≤ x → Paid y s
  Paid-less x y s (r, e, f, h) le = (
    r,
    e,
    f,
    Spent-less time rate bst s.calls (x + count s.sent) (y + count s.sent) r h (omega arith),
  )

  -- After a part that returns, `y` more and the value are paid for, and `y` more if it raises.
  abbrev After {ℓ} : {A : Type ℓ} → (A → ℕ) → ℕ → Result A × Client → Type 0
  After w y (ok a, s) = Paid (w a + y) s
  After w y (err e, s) = Paid y s

  continue-After {ℓ κ} :
      {A : Type ℓ} {B : Type κ} (w : A → ℕ) (w' : B → ℕ) (y y' : ℕ) (r : Result A) (s : Client)
      (f : A → Exec Client B)
      → After w y (r, s)
      → y' ≤ y
      → ((a : A) (t : Client) → Paid (w a + y) t → After w' y' (f a t))
      → After w' y' (continue r f s)
  continue-After w w' y y' (ok a) s f h le k = k a s h
  continue-After w w' y y' (err e) s f h le k = Paid-less y y' s h le

  module _ (positive : 0 < rate) (ascends : (n : ℕ) → time n ≤ time (suc n)) where
    abbrev flag_weight : Bool → ℕ
    flag_weight true = 1
    flag_weight false = 0

    paid-After :
        (y : ℕ) (s : Client) (admitted : Result Bool) (r : RateLimit)
        → r.rate_limit ≡ rate
        → Spent time rate bst (suc s.calls) (admitted_one admitted + (y + count s.sent)) r
        → After flag_weight y (admitted, record s { limiter = some r; calls = suc s.calls })
    paid-After y s (ok true) r f h =
        (r, refl, f, Spent-less time rate bst (suc s.calls) _ _ r h (omega arith))
    paid-After y s (ok false) r f h =
        (r, refl, f, Spent-less time rate bst (suc s.calls) _ _ r h (omega arith))
    paid-After y s (err e) r f h =
        (r, refl, f, Spent-less time rate bst (suc s.calls) _ _ r h (omega arith))

    admit-After :
        (y : ℕ) (s : Client)
        → Paid y s
        → After flag_weight y (admit (time s.calls) (record s { calls = suc s.calls }))
    unfolding admit
    admit-After y s (r, e, f, h) =
        let (h', f') =
          limit-Spent time rate bst positive ascends s.calls (y + count s.sent) r f h in
        subst
          (λ l.
            After flag_weight y (limited_by l (time s.calls) (record s { calls = suc s.calls })))
          (sym e) (paid-After y s (limit (time s.calls) r).0 (limit (time s.calls) r).1 f' h')

    kept-After :
        {A : Type 0} (y : ℕ) (r : Result A) (t : Client) → Paid (1 + y) t → After (λ a. 1) y (r, t)
    kept-After y (ok a) t h = h
    kept-After y (err e) t h = Paid-less (1 + y) y t h (omega arith)

    -- A structure takes up what its call was admitted for.
    structure-After :
        (y : ℕ) (m : Moment) (kind : Kind) (t : Client)
        → Paid (1 + y) t
        → After (λ a. 1) y (structure moment config m kind t)
    unfolding structure
    structure-After y m statistics t h = kept-After y _ _ h
    structure-After y m nodeinfo t h = kept-After y _ _ h
    structure-After y m neighbours t h = kept-After y _ _ h

    if_admitted-After :
        (y : ℕ) (m : Moment) (response_type : String) (admitted : Bool) (t : Client)
        → Paid (flag_weight admitted + y) t
        → After weight y (if_admitted moment config m response_type admitted t)
    if_admitted-After y m response_type false t h = h
    if_admitted-After y m response_type true t h = known (kind_of response_type)
      where
        known : (kind : Option Kind) → After weight y (by_kind moment config m kind t)
        known none = Paid-less (1 + y) (0 + y) t h (omega arith)
        known (some kind) =
            continue-After (λ a. 1) weight y y (structure moment config m kind t).0
              (structure moment config m kind t).1 _ (structure-After y m kind t h) (omega arith)
              (λ a u k. k)

    build_struct-After :
        (y : ℕ) (response_type : String) (s : Client)
        → Paid y s
        → After weight y (build_struct moment config response_type s)
    unfolding build_struct build_at
    build_struct-After y response_type s h =
        let a = admit (time s.calls) (record s { calls = suc s.calls }) in
        continue-After flag_weight weight y y a.0 a.1 _ (admit-After y s h) (omega arith)
          (if_admitted-After y (moment s.calls) response_type)

    build_all-After :
        (requests : List String) (replies : Dict String (Option Answer)) (s : Client)
        → Paid (weights replies) s
        → After weights 0 (build_all moment config requests replies s)
    unfolding build_all
    build_all-After [] replies s h =
        Paid-less (weights replies) (weights replies + 0) s h (omega arith)
    build_all-After (request ∷ requests) replies s h =
        let b = build_struct moment config request s in
        continue-After weight weights (weights replies) 0 b.0 b.1 _
          (build_struct-After (weights replies) request s h) (omega arith)
          λ a t k. build_all-After requests (insert request a replies) t (
            Paid-less (weight a + weights replies) (weights (insert request a replies)) t k
              (weights-insert request a replies))

    module _ (dumps : Reply → String) (deflate : String → String) (site : String) where
      abbrev none_left : Unit {0} → ℕ
      none_left u = 0

      abbrev run : List (String × Option String) → Exec Client (Unit {0})
      run = serve_all moment config dumps deflate site

      send_struct-After :
          (address : String) (reply : Reply) (with_compression : Bool) (s : Client)
          → Paid (structures reply + 0) s
          → After none_left 0
              (send_struct moment config dumps deflate site address reply with_compression s)
      unfolding send_struct
      send_struct-After address reply with_compression s (r, e, f, h) =
          elim (Bool-cases config.dry_run) [
            | inl dry ↦ rw dry (
              r,
              e,
              f,
              Spent-less time rate bst s.calls (structures reply + 0 + count s.sent) _ r h
                  (omega arith),
            )
            | inr wet ↦ rw wet (
              r,
              e,
              f,
              Spent-less time rate bst s.calls (structures reply + 0 + count s.sent) _ r h
                  (omega (arith, count-append s.sent _)),
            )
          ]

      answer-After :
          (address : String) (words : List String) (s : Client)
          → Paid 0 s
          → After none_left 0 (answer moment config dumps deflate site address words s)
      unfolding answer
      answer-After address [] s h = h
      answer-After address (word ∷ requests) s h = elim (Bool-cases (word == "GET")) [
        | inl many ↦ rw many (
            continue-After weights none_left 0 0 (build_all moment config requests [] s).0
              (build_all moment config requests [] s).1 _ (build_all-After requests [] s h)
              (omega arith) λ d t k. send_struct-After address (multi d) true t k)
        | inr one ↦ rw one (
            continue-After weight none_left 0 0 (build_struct moment config word s).0
              (build_struct moment config word s).1 _ (build_struct-After 0 word s h) (omega arith)
              λ a t k. send_struct-After address (single a) false t k)
      ]

      serve-After :
          (message : String × Option String) (s : Client)
          → Paid 0 s
          → After none_left 0 (serve moment config dumps deflate site message s)
      unfolding serve
      serve-After (address, none) s h = h
      serve-After (address, some msg) s h = answer-After address (split " " msg) s h

      serve_all-After :
          (messages : List (String × Option String)) (s : Client)
          → Paid 0 s
          → After none_left 0 (run messages s)
      unfolding serve_all
      serve_all-After [] s h = h
      serve_all-After (message ∷ messages) s h =
          let m = serve moment config dumps deflate site message s in
          continue-After none_left none_left 0 0 m.0 m.1 _ (serve-After message s h) (omega arith)
            λ a t k. serve_all-After messages t k

After-Paid :
    (moment : ℕ → Moment) (config : Config) (rate bst : ℕ) (r : Result (Unit {0})) (s : Client)
    → After moment config rate bst (λ u. 0) 0 (r, s)
    → Paid moment config rate bst 0 s
After-Paid moment config rate bst (ok u) s h = h
After-Paid moment config rate bst (err e) s h = h

new_client-Paid :
    (moment : ℕ → Moment) (config : Config) (rate : ℕ)
    → config.rate_limit ≡ some rate
    → Paid moment config rate (burst config.rate_limit_burst) 0 (new_client config)
unfolding new_client init
new_client-Paid moment config rate e = (
  init rate (burst config.rate_limit_burst),
  ap (λ o. new_limiter o config.rate_limit_burst) e,
  refl,
  (refl, omega arith, omega arith),
)

-- Where a rate limit above 0 is configured, whatever messages come, of however many requests each, up to the
-- last call of `buildStruct` no more structures are sent than one, the burst, and the rate per minute
-- since the first call. The clock that `limit` reads does not go back.
pub sent-bound :
    (moment : ℕ → Moment) (config : Config) (dumps : Reply → String) (deflate : String → String)
    (site : String) (messages : List (String × Option String)) (rate last : ℕ)
    → config.rate_limit ≡ some rate
    → 0 < rate
    → ((n : ℕ) → (moment n).limit_time ≤ (moment (suc n)).limit_time)
    → (serve_all moment config dumps deflate site messages (new_client config)).1.calls ≡ suc last
    → 60000 * count (serve_all moment config dumps deflate site messages (new_client config)).1.sent
        + (moment 0).limit_time * rate
      ≤ 60000 * (1 + burst config.rate_limit_burst) + (moment last).limit_time * rate
sent-bound moment config dumps deflate site messages rate last e positive ascends calls =
    let bst = burst config.rate_limit_burst in
    let end = serve_all moment config dumps deflate site messages (new_client config) in
    let (r, l, f, h) = After-Paid moment config rate bst end.0 end.1 (
      serve_all-After moment config rate bst positive ascends dumps deflate site messages
        (new_client config) (new_client-Paid moment config rate e)) in
    let h' =
      subst (λ n. Spent (λ k. (moment k).limit_time) rate bst n (0 + count end.1.sent) r) calls h in
    omega (arith, h'.1, h'.2)
