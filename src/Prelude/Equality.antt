-- ===== src/Prelude/Equality.antt =====
-- Python's `==` and `in`, for every type whose equality can be decided.
use Prim.Native.Nat.{ℕ}
use Prim.Native.String.{String}
use mathlib.Core.Path.{◌≡◌, refl, sym, ap}
use mathlib.Core.Logic.{◌≢◌, ite, dite, if_pos, if_neg}
use mathlib.Core.Bool.{Bool, true, false, ◌||◌, false≢true, Bool-discrete as Bool_dec}
use mathlib.Core.Option
use mathlib.Core.Option.{Option, none, some}
use mathlib.Core.List.{List, [], ◌∷◌}
use native.Mathlib.Decide.{ℕ_discrete}
use text.Mathlib.Text
use text.Mathlib.TextEquality.{eq_iff}

pub record Eq {ℓ} (A : Type ℓ) : Type ℓ where
  pub dec : Discrete A

module _ {ℓ} {A : Type ℓ} ⦃e : Eq A⦄ where
  infix 50 ◌==◌
  abbrev pub ◌==◌ : A → A → Bool
  a == b = ite (e.dec a b) true false

  -- `a in xs`
  abbrev pub contains : List A → A → Bool
  contains [] a = false
  contains (x ∷ xs) a = a == x || contains xs a

  pub ==_of_eq : {a b : A} → a ≡ b → (a == b) ≡ true
  ==_of_eq {a} {b} p = if_pos (e.dec a b) p _ _

  pub ==_of_ne : {a b : A} → a ≢ b → (a == b) ≡ false
  ==_of_ne {a} {b} p = if_neg (e.dec a b) p _ _

-- Shut in proofs, where a split on `s == t` yields the equation or its negation.
unfoldable pub String-discrete : Discrete String
String-discrete s t =
    dite (Bool_dec (Text.◌==◌ s t) true) (λ same. yes ((eq_iff s t).0 same))
      (λ differ. no (λ p. differ ((eq_iff s t).1 p)))

instance unfoldable pub string_eq : Eq String
unfolding String-discrete
string_eq = record { dec = String-discrete }

instance unfoldable pub nat_eq : Eq ℕ
unfolding ℕ_discrete
nat_eq = record { dec = ℕ_discrete }

module _ {ℓ} {A : Type ℓ} ⦃e : Eq A⦄ where
  option_dec : Discrete (Option A)
  option_dec none none = yes refl
  option_dec none (some b) = no (Option.none-ne-some b)
  option_dec (some a) none = no (Option.some-ne-none a)
  option_dec (some a) (some b) =
      dite (e.dec a b) (λ p. yes (ap some p))
        (λ differ. no (λ p. differ (Option.some-injective a b p)))

  instance unfoldable pub option_eq : Eq (Option A)
  unfolding option_dec
  option_eq = record { dec = option_dec }

unfoldable pub Bool-discrete : Discrete Bool
Bool-discrete true true = yes refl
Bool-discrete true false = no (λ p. false≢true (sym p))
Bool-discrete false true = no false≢true
Bool-discrete false false = yes refl

instance unfoldable pub bool_eq : Eq Bool
unfolding Bool-discrete
bool_eq = record { dec = Bool-discrete }
