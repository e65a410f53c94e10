-- ===== src/Respondd/Merge/Overlay.antt =====
-- `merge` of respondd/respondd-tmpl/lib/helper.py: what becomes of the values of its two arguments.
use mathlib.Core.Path.{subst}
use ffmuc_salt_public.Prelude.{
  String, ◌≡◌, refl, ap, sym, ◌∙◌, Option, none, some, List, [], ◌∷◌, if◌then◌else◌, ◌==◌,
  string_eq, arith, Bool-cases, inl, inr, true, Option-cases, ◌⊎◌,
}
use ffmuc_salt_public.Prelude.Result.{ok, >>=-eq-ok, ok_inj}
use ffmuc_salt_public.Prelude.Json.{
  Json, null, flag, num, decimal, str, arr, obj, Fields, end, field, get, put, update, get-put,
}
use ffmuc_salt_public.Respondd.Merge.{or_null, merge, merge_fields}

-- No key of an object stands twice.
abbrev pub Distinct : Fields → Type 0
Distinct end = Unit
Distinct (field k v d) = (get k d ≡ none) × Distinct d

abbrev or_else : Option Json → Option Json → Option Json
or_else none o = o
or_else (some v) o = some v

get-update :
    (k : String) (d m : Fields) → Distinct m → get k (update d m) ≡ or_else (get k m) (get k d)
unfolding get update
get-update k d end h = refl
get-update k d (field j v m) h = get-update k (put j v d) m h.1 ∙ ground (arith, get-put k j v d)

-- At a key, `merge_fields` has nothing or a merged value, as its second argument has.
abbrev Merged : String → Fields → Option Json → Option Json → Type 0
Merged k a none m = m ≡ none
Merged k a (some v) m = (w : Json) × (m ≡ some w) × (merge (or_null (get k a)) v ≡ ok w)

same : (k j : String) → (k == j) ≡ true → j ≡ k
same k j h = ground arith

add-Merged :
    (k j : String) (a : Fields) (v w : Json) (o m : Option Json)
    → Merged k a o m
    → merge (or_null (get j a)) v ≡ ok w
    → Merged k a (if k == j then some v else o) (if k == j then some w else m)
add-Merged k j a v w o m h e = elim (Bool-cases (k == j)) [
  | inl b ↦ rw b (w, refl, subst (λ i. merge (or_null (get i a)) v ≡ ok w) (same k j b) e)
  | inr b ↦ rw b h
]

merge_fields-Merged :
    (k : String) (a b m : Fields) → merge_fields a b ≡ ok m → Merged k a (get k b) (get k m)
unfolding get merge
merge_fields-Merged k a end m h = ap (get k) (sym (ok_inj h))
merge_fields-Merged k a (field j v b) m h =
    let (w, e, h1) = >>=-eq-ok (merge (or_null (get j a)) v) _ h in
    let (m', e', h2) = >>=-eq-ok (merge_fields a b) _ h1 in
    subst (λ x. Merged k a (get k (field j v b)) (get k x)) (ok_inj h2)
      (add-Merged k j a v w (get k b) (get k m') (merge_fields-Merged k a b m' e') e)

merge_fields-Distinct : (a b m : Fields) → Distinct b → merge_fields a b ≡ ok m → Distinct m
unfolding merge
merge_fields-Distinct a end m d h = subst Distinct (ok_inj h) tt
merge_fields-Distinct a (field j v b) m d h =
    let (w, e, h1) = >>=-eq-ok (merge (or_null (get j a)) v) _ h in
    let (m', e', h2) = >>=-eq-ok (merge_fields a b) _ h1 in
    let absent = subst (λ o. Merged j a o (get j m')) d.0 (merge_fields-Merged j a b m' e') in
    subst Distinct (ok_inj h2) (absent, merge_fields-Distinct a b m' d.1 e')

-- What a merged object has at a key
merge-get :
    (k : String) (a b c : Fields)
    → Distinct b
    → merge (obj a) (obj b) ≡ ok (obj c)
    → (m : Option Json) × Merged k a (get k b) m × (get k c ≡ or_else m (get k a))
unfolding merge
merge-get k a b c d h =
    let (m, e, h1) = >>=-eq-ok (merge_fields a b) _ h in
    (
      get k m,
      merge_fields-Merged k a b m e,
      ap (get k) (sym (obj_inj h1)) ∙ get-update k a m (merge_fields-Distinct a b m d e),
    )
  where
    obj_inj : {x y : Fields} → ok (obj x) ≡ ok (obj y) → x ≡ y
    obj_inj p = cc

-- The value at a path of keys
abbrev pub at : List String → Json → Option Json
at [] v = some v
at (k ∷ path) (obj d) = elim (get k d) [ none ↦ none | some v ↦ at path v ]
at (k ∷ path) null = none
at (k ∷ path) (flag b) = none
at (k ∷ path) (num n) = none
at (k ∷ path) (decimal s) = none
at (k ∷ path) (str s) = none
at (k ∷ path) (arr vs) = none

-- Neither None nor an object
abbrev pub IsLeaf : Json → Type 0
IsLeaf null = ⊥
IsLeaf (flag b) = Unit
IsLeaf (num n) = Unit
IsLeaf (decimal s) = Unit
IsLeaf (str s) = Unit
IsLeaf (arr vs) = Unit
IsLeaf (obj d) = ⊥

-- The path leads to None, or to nothing, past objects only.
abbrev pub Leaves : List String → Json → Type 0
Leaves path null = Unit
Leaves [] (flag b) = ⊥
Leaves [] (num n) = ⊥
Leaves [] (decimal s) = ⊥
Leaves [] (str s) = ⊥
Leaves [] (arr vs) = ⊥
Leaves [] (obj d) = ⊥
Leaves (k ∷ path) (flag b) = ⊥
Leaves (k ∷ path) (num n) = ⊥
Leaves (k ∷ path) (decimal s) = ⊥
Leaves (k ∷ path) (str s) = ⊥
Leaves (k ∷ path) (arr vs) = ⊥
Leaves (k ∷ path) (obj d) = elim (get k d) [ none ↦ Unit | some v ↦ Leaves path v ]

-- No object in the value has a key twice.
abbrev mutual
  pub IsDict : Json → Type 0
  IsDict null = Unit
  IsDict (flag b) = Unit
  IsDict (num n) = Unit
  IsDict (decimal s) = Unit
  IsDict (str s) = Unit
  IsDict (arr vs) = Unit
  IsDict (obj d) = Distinct d × AreDicts d

  pub AreDicts : Fields → Type 0
  AreDicts end = Unit
  AreDicts (field k v d) = IsDict v × AreDicts d

get-IsDict : (k : String) (d : Fields) (v : Json) → AreDicts d → get k d ≡ some v → IsDict v
unfolding get
get-IsDict k end v h e = absurd (cc e)
get-IsDict k (field j w d) v h e = elim (Bool-cases (k == j)) [
  | inl b ↦ subst IsDict (some_inj (ap (λ t. if t then some w else get k d) (sym b) ∙ e)) h.0
  | inr b ↦ get-IsDict k d v h.1 (ap (λ t. if t then some w else get k d) (sym b) ∙ e)
]
  where
    some_inj : {x y : Json} → some x ≡ some y → x ≡ y
    some_inj p = cc

merge-leaf : (a b c : Json) → IsLeaf b → merge a b ≡ ok c → b ≡ c
unfolding merge
merge-leaf (arr x) (arr y) c l h = cc
merge-leaf a null c l h = absurd l
merge-leaf a (obj d) c l h = absurd l
merge-leaf a b c l h = ok_inj h

merge-null : (a c : Json) → merge a null ≡ ok c → a ≡ c
unfolding merge
merge-null (arr x) c h = ok_inj h
merge-null a c h = ok_inj h

-- Two objects merge into one.
merge-obj : (a b : Fields) (c : Json) → merge (obj a) (obj b) ≡ ok c → (d : Fields) × (obj d ≡ c)
unfolding merge
merge-obj a b c h = let (m, e, h1) = >>=-eq-ok (merge_fields a b) _ h in (update a m, ok_inj h1)

abbrev follow : List String → Option Json → Option Json
follow path o = elim o [ none ↦ none | some v ↦ at path v ]

-- What holds of the values at a key of two objects holds of the value at it in the merged one.
at_key :
    (k : String) (path : List String) (a b : Fields) (c w v : Json)
    → Distinct b
    → merge (obj a) (obj b) ≡ ok c
    → get k b ≡ some w
    → ((x : Json) → merge (or_null (get k a)) w ≡ ok x → at path x ≡ some v)
    → at (k ∷ path) c ≡ some v
at_key k path a b c w v d h e ih =
    let (c', p) = merge-obj a b c h in
    let (m, merged, f) = merge-get k a b c' d (h ∙ ap (λ x. ok x) (sym p)) in
    let (x, q, g) = subst (λ o. Merged k a o m) e merged in
    ap (at (k ∷ path)) (sym p) ∙ ap (follow path) (f ∙ ap (λ o. or_else o (get k a)) q) ∙ ih x g

wins :
    (path : List String) (a b c v : Json)
    → IsDict b
    → merge a b ≡ ok c
    → at path b ≡ some v
    → IsLeaf v
    → at path c ≡ some v
unfolding merge
wins [] a b c v d h e l = ap some (sym (merge-leaf a b c (subst IsLeaf (sym (some_inj e)) l) h)) ∙ e
  where
    some_inj : {x y : Json} → some x ≡ some y → x ≡ y
    some_inj p = cc
wins (k ∷ path) (obj a) (obj b) c v d h e l = elim (Option-cases (get k b)) [
  | inl n ↦ absurd (cc (ap (follow path) (sym n) ∙ e))
  | inr (w, n) ↦ at_key k path a b c w v d.0 h n λ x g.
      wins path (or_null (get k a)) w x v (get-IsDict k b w d.1 n) g (ap (follow path) (sym n) ∙ e)
        l
]
wins (k ∷ path) a (obj b) c v d h e l = ap (at (k ∷ path)) (sym (ok_inj h)) ∙ e
wins (k ∷ path) a b c v d h e l = absurd (cc e)

stays :
    (path : List String) (a b c v : Json)
    → IsDict b
    → merge a b ≡ ok c
    → at path a ≡ some v
    → Leaves path b
    → at path c ≡ some v
unfolding merge
stays path a null c v d h e l = ap (at path) (sym (merge-null a c h)) ∙ e
stays (k ∷ path) (obj a) (obj b) c v d h e l = elim (Option-cases (get k b)) [
  | inl n ↦
      let (c', p) = merge-obj a b c h in
      let (m, merged, f) = merge-get k a b c' d.0 (h ∙ ap (λ x. ok x) (sym p)) in
      ap (at (k ∷ path)) (sym p)
      ∙ ap (follow path) (f ∙ ap (λ o. or_else o (get k a)) (subst (λ o. Merged k a o m) n merged))
      ∙ e
  | inr (w, n) ↦ at_key k path a b c w v d.0 h n λ x g.
      let (y, q) = followed path (get k a) v e in
      stays path y w x v (get-IsDict k b w d.1 n) (ap (λ o. merge (or_null o) w) (sym q.0) ∙ g) q.1
        (subst (λ o. elim o [ none ↦ Unit | some u ↦ Leaves path u ]) n l)
]
  where
    followed :
        (path : List String) (o : Option Json) (v : Json)
        → follow path o ≡ some v
        → (y : Json) × ((o ≡ some y) × (at path y ≡ some v))
    followed path none v e = absurd (cc e)
    followed path (some y) v e = (y, (refl, e))
stays (k ∷ path) a (obj b) c v d h e l = absurd (cc e)
stays (k ∷ path) a b c v d h e l = absurd l
stays [] a b c v d h e l = absurd l

-- Where two values merge, what stands in the second at a path and is no object and not None stands
-- there in the result; and what stands in the first at a path stays where the second has None or
-- nothing there or at a part of the path.
pub merge-Overlay :
    (a b c : Json)
    → IsDict b
    → merge a b ≡ ok c
    → (path : List String) (v : Json)
    → (((at path b ≡ some v) × IsLeaf v) ⊎ ((at path a ≡ some v) × Leaves path b))
    → at path c ≡ some v
merge-Overlay a b c d h path v (inl (e, l)) = wins path a b c v d h e l
merge-Overlay a b c d h path v (inr (e, l)) = stays path a b c v d h e l
