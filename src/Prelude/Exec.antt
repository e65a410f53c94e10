-- ===== src/Prelude/Exec.antt =====
-- Code that changes a state and may raise. What was changed before a raise stays changed, so the
-- state comes back beside the error too.
use mathlib.Core.Path.{◌≡◌, refl, ap, subst}
use mathlib.Core.Bool.{Bool, true, false}
use ffmuc_salt_public.Prelude.Tests.{if◌then◌else◌}
use ffmuc_salt_public.Prelude.Result
use ffmuc_salt_public.Prelude.Result.{Error, Result, ok, err, ok_inj}

abbrev pub Exec {ℓ κ} : Type ℓ → Type κ → Type (ℓ ⊔ κ)
Exec S A = S → Result A × S

module _ {ℓ κ} {S : Type ℓ} {A : Type κ} where
  abbrev pub pure : A → Exec S A
  pure a s = (ok a, s)

  abbrev pub raise : Error → Exec S A
  raise e s = (err e, s)

  abbrev pub lift : Result A → Exec S A
  lift r s = (r, s)

module _ {ℓ κ μ} {S : Type ℓ} {A : Type κ} {B : Type μ} where
  abbrev pub continue : Result A → (A → Exec S B) → Exec S B
  continue (ok a) f s = f a s
  continue (err e) f s = (err e, s)

  infixl 5 ◌>>=◌ ◌>>◌
  abbrev pub ◌>>=◌ : Exec S A → (A → Exec S B) → Exec S B
  ◌>>=◌ m next s = let (r, after) = m s in continue r next after

  abbrev pub ◌>>◌ : Exec S A → Exec S B → Exec S B
  m >> next = m >>= λ _. next

module _ {ℓ κ μ} {S : Type ℓ} {A : Type κ} {B : Type μ} where
  -- A block whose first part returns goes on from the state that the part left.
  pub bind_ok :
      (m : Exec S A) (f : A → Exec S B) (s : S) {a : A} → (m s).0 ≡ ok a → (m >>= f) s ≡ f a (m s).1
  bind_ok m f s h = ap (λ r. continue r f (m s).1) h

  pub bind_err :
      (m : Exec S A) (f : A → Exec S B) (s : S) {e : Error}
      → (m s).0 ≡ err e
      → (m >>= f) s ≡ (err e, (m s).1)
  bind_err m f s h = ap (λ r. continue r f (m s).1) h

  continue-eq-ok :
      (r : Result A) (f : A → Exec S B) (s : S) (b : B)
      → (continue r f s).0 ≡ ok b
      → (a : A) × (r ≡ ok a) × ((f a s).0 ≡ ok b)
  continue-eq-ok (ok a) f s b h = (a, refl, h)
  continue-eq-ok (err e) f s b h = cc

  -- Inversion of a block that returned.
  pub bind-eq-ok :
      (m : Exec S A) (f : A → Exec S B) (s : S) {b : B}
      → ((m >>= f) s).0 ≡ ok b
      → (a : A) × ((m s).0 ≡ ok a) × ((f a (m s).1).0 ≡ ok b)
  bind-eq-ok m f s {b} h = continue-eq-ok (m s).0 f (m s).1 b h

  -- What a block returns whose last step only maps the value.
  pub bind-pure_fst :
      (m : Exec S A) (g : A → B) (s : S)
      → ((m >>= λ a. pure (g a)) s).0 ≡ (Result.◌>>=◌ (m s).0 λ a. ok (g a))
  bind-pure_fst m g s = mapped (m s).0 (m s).1
    where
      mapped :
          (r : Result A) (s' : S)
          → (continue r (λ a. pure (g a)) s').0 ≡ (Result.◌>>=◌ r λ a. ok (g a))
      mapped (ok a) s' = refl
      mapped (err e) s' = refl

  -- A last step that cannot change the state
  pub bind-lift_snd :
      (m : Exec S A) (g : A → Result B) (s : S) → ((m >>= λ a. lift (g a)) s).1 ≡ (m s).1
  bind-lift_snd m g s = left (m s).0 (m s).1
    where
      left : (r : Result A) (s' : S) → (continue r (λ a. lift (g a)) s').1 ≡ s'
      left (ok a) s' = refl
      left (err e) s' = refl

-- Blocks that keep an invariant of the state, also where they raise.
module _ {ℓ κ} {S : Type ℓ} (I : S → Type κ) where
  abbrev pub Keeps {μ} : {A : Type μ} → Exec S A → Type (ℓ ⊔ κ)
  Keeps m = (s : S) → I s → I (m s).1

  continue-Keeps {μ ν} :
      {A : Type μ} {B : Type ν} (r : Result A) (f : A → Exec S B)
      → ((a : A) → Keeps (f a))
      → (s : S) → I s
      → I (continue r f s).1
  continue-Keeps (ok a) f k s i = k a s i
  continue-Keeps (err e) f k s i = i

  pub bind-Keeps {μ ν} :
      {A : Type μ} {B : Type ν} (m : Exec S A) (f : A → Exec S B)
      → Keeps m
      → ((a : A) → Keeps (f a))
      → Keeps (m >>= f)
  bind-Keeps m f km kf s i = continue-Keeps (m s).0 f kf (m s).1 (km s i)

  pub if-Keeps {μ} :
      {A : Type μ} (b : Bool) (m n : Exec S A)
      → (b ≡ true → Keeps m)
      → (b ≡ false → Keeps n)
      → Keeps (if b then m else n)
  if-Keeps true m n km kn = km refl
  if-Keeps false m n km kn = kn refl

-- What holds of the value and the state where a block returns
module _ {ℓ κ μ} {S : Type ℓ} {A : Type κ} (Q : A → S → Type μ) where
  abbrev pub Ensures : Exec S A → S → Type (κ ⊔ μ)
  Ensures m s = (a : A) → (m s).0 ≡ ok a → Q a (m s).1

  pub pure-Ensures : (a : A) (s : S) → Q a s → Ensures (pure a) s
  pure-Ensures a s q b h = subst (λ x. Q x s) (ok_inj h) q

  continue-Ensures {ν} :
      {B : Type ν} (r : Result B) (f : B → Exec S A) (s : S)
      → ((b : B) → r ≡ ok b → Ensures (f b) s)
      → (a : A) → (continue r f s).0 ≡ ok a
      → Q a (continue r f s).1
  continue-Ensures (ok b) f s k a h = k b refl a h
  continue-Ensures (err e) f s k a h = cc

  pub bind-Ensures {ν} :
      {B : Type ν} (m : Exec S B) (f : B → Exec S A) (s : S)
      → ((b : B) → (m s).0 ≡ ok b → Ensures (f b) (m s).1)
      → Ensures (m >>= f) s
  bind-Ensures m f s k = continue-Ensures (m s).0 f (m s).1 k

  pub if-Ensures :
      (b : Bool) (m n : Exec S A) (s : S)
      → (b ≡ true → Ensures m s)
      → (b ≡ false → Ensures n s)
      → Ensures (if b then m else n) s
  if-Ensures true m n s k l = k refl
  if-Ensures false m n s k l = l refl
