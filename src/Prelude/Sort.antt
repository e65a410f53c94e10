-- ===== src/Prelude/Sort.antt =====
-- Python's `sorted(xs, key=…)`: stable, here by insertion.
use mathlib.Core.List.{Perm}
use mathlib.Core.List.Perm
use ffmuc_salt_public.Prelude.Tests.{if◌then◌else◌}
use ffmuc_salt_public.Prelude.Equality.{◌==◌, nat_eq}
use ffmuc_salt_public.Prelude.Lists.{keep_if, All}
use mathlib.Core.Path.{◌≡◌, refl, ◌∙◌}
use mathlib.Core.Bool.{Bool}
use mathlib.Core.List.{List, [], ◌∷◌}
use native.Mathlib.Omega.{arith}
use Prim.Native.Nat.{ℕ, ◌≤◌}
use ffmuc_salt_public.Prelude.Tests.{leb, Bool-cases}
use mathlib.Core.Logic.{inl, inr}

module _ {ℓ} {A : Type ℓ} (le : A → A → Bool) where
  -- `x` stands before its equals, since it stood before them in the input.
  unfoldable pub insert_by : A → List A → List A
  insert_by x [] = x ∷ []
  insert_by x (y ∷ ys) = if le x y then x ∷ y ∷ ys else y ∷ insert_by x ys

  unfoldable pub sorted_by : List A → List A
  unfolding insert_by
  sorted_by [] = []
  sorted_by (x ∷ xs) = insert_by x (sorted_by xs)

  insert_by-perm : (x : A) (xs : List A) → Perm (insert_by x xs) (x ∷ xs)
  unfolding insert_by
  insert_by-perm x [] = Perm.rfl
  insert_by-perm x (y ∷ ys) = elim (Bool-cases (le x y)) [
    | inl first ↦ rw (first, insert_by) Perm.rfl
    | inr later ↦
        rw (later, insert_by) (Perm.trans (Perm.cons y (insert_by-perm x ys)) (Perm.swap x y ys))
  ]

  pub sorted_by-perm : (xs : List A) → Perm (sorted_by xs) xs
  unfolding sorted_by
  sorted_by-perm [] = Perm.rfl
  sorted_by-perm (x ∷ xs) =
      Perm.trans (insert_by-perm x (sorted_by xs)) (Perm.cons x (sorted_by-perm xs))

-- `sorted(xs, key=f)` for a numeric key
unfoldable pub sorted_on {ℓ} : {A : Type ℓ} → (A → ℕ) → List A → List A
unfolding sorted_by
sorted_on f = sorted_by (λ x y. leb (f x) (f y))

module _ {ℓ} {A : Type ℓ} (f : A → ℕ) where
  -- Every later key is at least the bound.
  abbrev pub AtLeast : ℕ → List A → Type 0
  AtLeast n [] = Unit
  AtLeast n (x ∷ xs) = (n ≤ f x) × AtLeast n xs

  abbrev pub IsSortedOn : List A → Type 0
  IsSortedOn [] = Unit
  IsSortedOn (x ∷ xs) = AtLeast (f x) xs × IsSortedOn xs

  AtLeast-le : (m n : ℕ) (xs : List A) → m ≤ n → AtLeast n xs → AtLeast m xs
  AtLeast-le m n [] h a = tt
  AtLeast-le m n (x ∷ xs) h a = (omega arith, AtLeast-le m n xs h a.1)

  abbrev before : A → A → Bool
  before x y = leb (f x) (f y)

  AtLeast-insert_by :
      (n : ℕ) (x : A) (xs : List A) → n ≤ f x → AtLeast n xs → AtLeast n (insert_by before x xs)
  unfolding insert_by
  AtLeast-insert_by n x [] h a = (h, tt)
  AtLeast-insert_by n x (y ∷ ys) h a = ground (arith, AtLeast-insert_by n x ys h a.1)

  insert_by-IsSortedOn : (x : A) (xs : List A) → IsSortedOn xs → IsSortedOn (insert_by before x xs)
  unfolding insert_by
  insert_by-IsSortedOn x [] s = (tt, tt)
  insert_by-IsSortedOn x (y ∷ ys) s = elim (Bool-cases (before x y)) [
    | inl first ↦
        rw (first, insert_by) ((ground arith, AtLeast-le (f x) (f y) ys (ground arith) s.0), s)
    | inr later ↦
        rw (later, insert_by)
          (AtLeast-insert_by (f y) x ys (ground arith) s.0, insert_by-IsSortedOn x ys s.1)
  ]

  pub sorted_on-IsSortedOn : (xs : List A) → IsSortedOn (sorted_on f xs)
  unfolding sorted_on
  sorted_on-IsSortedOn [] = tt
  sorted_on-IsSortedOn (x ∷ xs) = insert_by-IsSortedOn x _ (sorted_on-IsSortedOn xs)

  pub sorted_on-perm : (xs : List A) → Perm (sorted_on f xs) xs
  unfolding sorted_on
  sorted_on-perm xs = sorted_by-perm before xs

module _ {ℓ} {A : Type ℓ} (f : A → ℕ) (n : ℕ) where
  abbrev at_key : List A → List A
  at_key = keep_if (λ x. f x == n)

  at_key-insert_by : (x : A) (xs : List A) → at_key (insert_by (before f) x xs) ≡ at_key (x ∷ xs)
  unfolding insert_by
  at_key-insert_by x [] = refl
  at_key-insert_by x (y ∷ ys) = ground (arith, at_key-insert_by x ys)

  -- Stability: the items of one key stay in the order of the input.
  pub keep_if-sorted_on : (xs : List A) → at_key (sorted_on f xs) ≡ at_key xs
  unfolding sorted_on
  keep_if-sorted_on [] = refl
  keep_if-sorted_on (x ∷ xs) = at_key-insert_by x _ ∙ ground (arith, keep_if-sorted_on xs)

module _ {ℓ κ} {A : Type ℓ} (P : A → Type κ) (le : A → A → Bool) where
  pub All-insert_by : (x : A) (xs : List A) → P x → All P xs → All P (insert_by le x xs)
  unfolding insert_by
  All-insert_by x [] h a = (h, tt)
  All-insert_by x (y ∷ ys) h a = elim (Bool-cases (le x y)) [
    | inl first ↦ rw (first, insert_by) (h, a)
    | inr later ↦ rw (later, insert_by) (a.0, All-insert_by x ys h a.1)
  ]

  pub All-sorted_by : (xs : List A) → All P xs → All P (sorted_by le xs)
  unfolding sorted_by
  All-sorted_by [] a = tt
  All-sorted_by (x ∷ xs) a = All-insert_by x _ a.0 (All-sorted_by xs a.1)

  All-of_insert_by : (x : A) (xs : List A) → All P (insert_by le x xs) → P x × All P xs
  unfolding insert_by
  All-of_insert_by x [] a = (a.0, tt)
  All-of_insert_by x (y ∷ ys) a = elim (Bool-cases (le x y)) [
    | inl first ↦ rw first at a
    | inr later ↦ let b = rw later at a in let c = All-of_insert_by x ys b.1 in (c.0, (b.0, c.1))
  ]

  -- What holds of all items of the sorted list holds of those of the list.
  pub All-of_sorted_by : (xs : List A) → All P (sorted_by le xs) → All P xs
  unfolding sorted_by
  All-of_sorted_by [] a = tt
  All-of_sorted_by (x ∷ xs) a =
      let b = All-of_insert_by x (sorted_by le xs) a in (b.0, All-of_sorted_by xs b.1)

pub All-sorted_on {ℓ κ} :
    {A : Type ℓ} (P : A → Type κ) (f : A → ℕ) (xs : List A) → All P xs → All P (sorted_on f xs)
unfolding sorted_on
All-sorted_on P f xs a = All-sorted_by P _ xs a
