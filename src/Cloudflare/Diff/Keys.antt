-- ===== src/Cloudflare/Diff/Keys.antt =====
-- The dicts and sets of `Zone.diff` in _states/cloudflare.py: keys, and the change at one key.
use ffmuc_salt_public.Prelude.{
  ◌≡◌, refl, ◌∙◌, ap, inl, inr, Option-cases, Bool, false, ◌&&◌, List, [], ◌∷◌, Option, none, some,
  keep_if, contains, arith, ◌==◌, if◌then◌else◌,
}
use ffmuc_salt_public.Prelude.Dict.{lookup, insert, keys, has-lookup, NodupKeys, insert-NodupKeys}
use ffmuc_salt_public.Cloudflare.Record.{Record}
use ffmuc_salt_public.Cloudflare.Order.{Op}
use ffmuc_salt_public.Cloudflare.Diff.{Key, key_eq, key, Tuples, collect, collect_ops}

-- Each record stands under its own key.
abbrev pub Keyed : Tuples → Type 0
Keyed [] = Unit
Keyed ((k, r) ∷ t) = (key r ≡ k) × Keyed t

insert-Keyed : (k : Key) (r : Record) (t : Tuples) → key r ≡ k → Keyed t → Keyed (insert k r t)
unfolding insert
insert-Keyed k r [] h q = (h, tt)
insert-Keyed k r ((j, s) ∷ t) h q = ground (arith, insert-Keyed k r t h q.1)

pub collect-Keyed : (rs : List Record) (t : Tuples) → Keyed t → Keyed (collect rs t)
unfolding collect
collect-Keyed [] t q = q
collect-Keyed (r ∷ rs) t q = collect-Keyed rs _ (insert-Keyed (key r) r t refl q)

pub collect-NodupKeys : (rs : List Record) (t : Tuples) → NodupKeys t → NodupKeys (collect rs t)
unfolding collect
collect-NodupKeys [] t u = u
collect-NodupKeys (r ∷ rs) t u = collect-NodupKeys rs _ (insert-NodupKeys (key r) r t u)

pub lookup-Keyed : (k : Key) (t : Tuples) (r : Record) → Keyed t → lookup k t ≡ some r → key r ≡ k
unfolding lookup
lookup-Keyed k [] r q h = cc
lookup-Keyed k ((j, s) ∷ t) r q h = ground (arith, lookup-Keyed k t r q.1)

-- No key stands twice.
abbrev pub Distinct : List Key → Type 0
Distinct [] = Unit
Distinct (k ∷ ks) = (contains ks k ≡ false) × Distinct ks

pub keys-Distinct : (t : Tuples) → NodupKeys t → Distinct (keys t)
unfolding keys
keys-Distinct [] u = tt
keys-Distinct ((k, r) ∷ t) u = (ground (arith, has-lookup k t, u.0), keys-Distinct t u.1)

module _ (p : Key → Bool) where
  pub contains-keep_if :
      (ks : List Key) (k : Key) → contains (keep_if p ks) k ≡ (contains ks k && p k)
  contains-keep_if [] k = refl
  contains-keep_if (j ∷ ks) k = ground (arith, contains-keep_if ks k)

  pub keep_if-Distinct : (ks : List Key) → Distinct ks → Distinct (keep_if p ks)
  keep_if-Distinct [] d = tt
  keep_if-Distinct (k ∷ ks) d = ground (arith, contains-keep_if ks k, keep_if-Distinct ks d.1)

-- A walk over a set gives each of its elements once, in some order.
abbrev pub IsWalk : (List Key → List Key) → Type 0
IsWalk walk =
    (ks : List Key)
    → Distinct ks
    → Distinct (walk ks) × ((k : Key) → contains (walk ks) k ≡ contains ks k)

abbrev pub to_list : Option Op → List Op
to_list none = []
to_list (some op) = op ∷ []

-- The changes at one key.
abbrev pub only_at : Key → List Op → List Op
only_at k = keep_if (λ op. key op.subject == k)

==_comm : (j k : Key) → (j == k) ≡ (k == j)
==_comm j k = ground arith

module _ (f : Key → Option Op) (keyed : (j : Key) (op : Op) → f j ≡ some op → key op.subject ≡ j)
    (k : Key) where
  only_at-cons :
      (j : Key) (op : Op) (ops : List Op)
      → f j ≡ some op
      → only_at k (op ∷ ops) ≡ (if k == j then op ∷ only_at k ops else only_at k ops)
  only_at-cons j op ops e = ground (arith, ap (λ (x : Key). x == k) (keyed j op e), ==_comm j k)

  only_at_absent : (ks : List Key) → contains ks k ≡ false → only_at k (collect_ops f ks) ≡ []
  unfolding collect_ops
  only_at_absent [] h = refl
  only_at_absent (j ∷ ks) h = elim (Option-cases (f j)) [
    | inl e ↦ rw (e, collect_ops) (ground (arith, only_at_absent ks))
    | inr (op, e) ↦
        rw (e, collect_ops)
          (only_at-cons j op (collect_ops f ks) e ∙ ground (arith, only_at_absent ks))
  ]

  pub only_at-collect_ops :
      (ks : List Key)
      → Distinct ks
      → only_at k (collect_ops f ks) ≡ (if contains ks k then to_list (f k) else [])
  unfolding collect_ops
  only_at-collect_ops [] d = refl
  only_at-collect_ops (j ∷ ks) d = elim (Option-cases (f j)) [
    | inl e ↦ rw (e, collect_ops) (ground (arith, only_at-collect_ops ks d.1))
    | inr (op, e) ↦
        rw (e, collect_ops)
          (only_at-cons j op (collect_ops f ks) e
            ∙ ground (arith, only_at-collect_ops ks d.1, only_at_absent ks))
  ]
