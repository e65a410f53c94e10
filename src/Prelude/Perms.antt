-- ===== src/Prelude/Perms.antt =====
-- Permutations and the native filter.
use mathlib.Core.Path.{◌≡◌, refl, subst, subst₂}
use mathlib.Core.Logic.{∥∥₁_map, inl, inr}
use mathlib.Core.Bool.{Bool}
use mathlib.Core.List.{List, [], ◌∷◌, Perm, Permᴰ, perm-replicate}
use mathlib.Core.List.Permᴰ as PermD
use ffmuc_salt_public.Prelude.Tests.{Bool-cases}
use ffmuc_salt_public.Prelude.Lists.{keep_if, keep_if_yes, keep_if_no}

module _ {ℓ} {A : Type ℓ} (p : A → Bool) where
  keep_if-cons :
      (a : A) (xs ys : List A)
      → Permᴰ (keep_if p xs) (keep_if p ys)
      → Permᴰ (keep_if p (a ∷ xs)) (keep_if p (a ∷ ys))
  keep_if-cons a xs ys q = elim (Bool-cases (p a)) [
    | inl h ↦ rw (keep_if_yes p a xs h, keep_if_yes p a ys h) (Permᴰ.cons refl q)
    | inr h ↦ rw (keep_if_no p a xs h, keep_if_no p a ys h) q
  ]

  keep_if-swap : (a b : A) (l : List A) → Permᴰ (keep_if p (a ∷ b ∷ l)) (keep_if p (b ∷ a ∷ l))
  keep_if-swap a b l = elim (Bool-cases (p a)) [
    | inl ka ↦ elim (Bool-cases (p b)) [
      | inl kb ↦
          rw
            (
              keep_if_yes p a (b ∷ l) ka,
              keep_if_yes p b l kb,
              keep_if_yes p b (a ∷ l) kb,
              keep_if_yes p a l ka,
            )
            (Permᴰ.swap refl refl)
      | inr lb ↦
          rw (keep_if_no p b (a ∷ l) lb)
            (keep_if-cons a (b ∷ l) l (rw (keep_if_no p b l lb) (PermD.refl (keep_if p l))))
    ]
    | inr la ↦
        rw (keep_if_no p a (b ∷ l) la)
          (keep_if-cons b l (a ∷ l) (rw (keep_if_no p a l la) (PermD.refl (keep_if p l))))
  ]

  keep_if-permᴰ : {xs ys : List A} → Permᴰ xs ys → Permᴰ (keep_if p xs) (keep_if p ys)
  keep_if-permᴰ Permᴰ.nil = Permᴰ.nil
  keep_if-permᴰ (Permᴰ.cons {a = a} {l₁ = xs} {l₂ = ys} e q) =
      subst (λ b. Permᴰ (keep_if p (a ∷ xs)) (keep_if p (b ∷ ys))) e
        (keep_if-cons a xs ys (keep_if-permᴰ q))
  keep_if-permᴰ (Permᴰ.swap {a = a} {b = b} {l = l} e f) =
      subst₂ (λ a' b'. Permᴰ (keep_if p (a ∷ b ∷ l)) (keep_if p (a' ∷ b' ∷ l))) f e
        (keep_if-swap a b l)
  keep_if-permᴰ (Permᴰ.trans q r) = Permᴰ.trans (keep_if-permᴰ q) (keep_if-permᴰ r)

  pub keep_if-perm : {xs ys : List A} → Perm xs ys → Perm (keep_if p xs) (keep_if p ys)
  keep_if-perm q = ∥∥₁_map q keep_if-permᴰ

-- A list of one element has no other order.
pub perm_single {ℓ} :
    {A : Type ℓ} → IsSet A → (a : A) {xs : List A} → Perm xs (a ∷ []) → xs ≡ a ∷ []
perm_single s a q = (perm-replicate s 1 a).0 q
