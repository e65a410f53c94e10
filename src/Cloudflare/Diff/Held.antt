-- ===== src/Cloudflare/Diff/Held.antt =====
-- `Zone.diff` of _states/cloudflare.py: the zone it aims at, and what the change at one key leaves.
use mathlib.Core.Option
use ffmuc_salt_public.Prelude.{
  String, ◌≡◌, refl, ◌∙◌, ap, Bool, true, Option, none, some, arith, ◌==◌, if◌then◌else◌, string_eq,
  ==_of_eq, Option-cases, Bool-cases, inl, inr,
}
use ffmuc_salt_public.Prelude.Dict.{Dict, lookup}
use ffmuc_salt_public.Cloudflare.Record.{Record, pure, record_eq}
use ffmuc_salt_public.Cloudflare.Order.{Op}
use ffmuc_salt_public.Cloudflare.Diff.{
  Key, key_eq, key, Tuples, add_op, remove_op, update_op, updated, is_unmanaged,
}
use ffmuc_salt_public.Cloudflare.Diff.Keys.{Keyed, lookup-Keyed, to_list}
use ffmuc_salt_public.Cloudflare.Diff.AtKey.{after, op_at}

-- The zone aimed at, ids aside: a desired record that Salt manages is there as desired; one that
-- Salt does not manage is left as it is; any other record goes, unless its name is left to others.
abbrev pub target : Tuples → Tuples → Dict String Bool → Key → Option Record
target existing desired managed k = elim (lookup k desired) [
  | some d ↦ if d.salt_managed then some (pure d) else Option.map pure (lookup k existing)
  | none ↦
      if is_unmanaged (lookup k.name managed) then Option.map pure (lookup k existing) else none
]

module _ (existing desired : Tuples) (managed : Dict String Bool) (k : Key) where
  -- The record at `k`, ids aside, after the changes in `o`.
  abbrev held : Option Op → Option Record
  held o = Option.map pure (after k (lookup k existing) (to_list o))

  held_add :
      (d : Record)
      → lookup k existing ≡ none
      → lookup k desired ≡ some d
      → (key d == k) ≡ true
      → held (add_op desired k) ≡ target existing desired managed k
  unfolding add_op
  held_add d hx hd hk = ground arith

  held_remove :
      (x : Record)
      → lookup k existing ≡ some x
      → lookup k desired ≡ none
      → (key x == k) ≡ true
      → held (remove_op existing managed k) ≡ target existing desired managed k
  unfolding remove_op
  held_remove x hx hd hk = ground arith

  pure-updated : (x d : Record) → d.salt_managed ≡ true → pure (updated x d) ≡ pure d
  unfolding pure updated
  pure-updated x d h = ground arith

  pure-pure : (x : Record) → pure (pure x) ≡ pure x
  unfolding pure
  pure-pure x = refl

  held_update :
      (x d : Record)
      → lookup k existing ≡ some x
      → lookup k desired ≡ some d
      → (d.salt_managed ≡ true → (key (updated x d) == k) ≡ true)
      → held (update_op existing desired k) ≡ target existing desired managed k
  unfolding update_op
  held_update x d hx hd hk = elim (Bool-cases d.salt_managed) [
    | inl m ↦ let here = hk m in ground (arith, pure-updated x d, pure-pure x)
    | inr m ↦ ground arith
  ]

  op_at_remove :
      (x : Record)
      → lookup k existing ≡ some x
      → lookup k desired ≡ none
      → op_at existing desired managed k ≡ remove_op existing managed k
  op_at_remove x hx hd = ground arith

  op_at_add :
      (d : Record)
      → lookup k existing ≡ none
      → lookup k desired ≡ some d
      → op_at existing desired managed k ≡ add_op desired k
  op_at_add d hx hd = ground arith

  op_at_update :
      (x d : Record)
      → lookup k existing ≡ some x
      → lookup k desired ≡ some d
      → op_at existing desired managed k ≡ update_op existing desired k
  op_at_update x d hx hd = ground arith

  key-updated : (x d : Record) → d.salt_managed ≡ true → key (updated x d) ≡ key d
  unfolding key updated
  key-updated x d h = ground arith

  pub held-op_at :
      Keyed existing
      → Keyed desired
      → held (op_at existing desired managed k) ≡ target existing desired managed k
  held-op_at qe qd = elim (Option-cases (lookup k desired)) [
    | inl nd ↦ elim (Option-cases (lookup k existing)) [
      | inl nx ↦ ground arith
      | inr (x, hx) ↦
          ap held (op_at_remove x hx nd)
          ∙ held_remove x hx nd (==_of_eq (lookup-Keyed k existing x qe hx))
    ]
    | inr (d, hd) ↦
        let own = lookup-Keyed k desired d qd hd in
        elim (Option-cases (lookup k existing)) [
          | inl nx ↦ ap held (op_at_add d nx hd) ∙ held_add d nx hd (==_of_eq own)
          | inr (x, hx) ↦
              ap held (op_at_update x d hx hd)
              ∙ held_update x d hx hd (λ m. ==_of_eq (key-updated x d m ∙ own))
        ]
  ]
