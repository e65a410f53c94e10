-- ===== src/Cloudflare/Diff/AtKey.antt =====
-- The change that `Zone.diff` of _states/cloudflare.py makes at one key.

use ffmuc_salt_public.Prelude.{
  String, ◌≡◌, refl, ◌∙◌, ap, sym, inl, inr, Bool-cases, Option-cases, Bool, true, false, ◌&&◌,
  List, [], ◌∷◌, Option, none, some, keep_if, keep_if_yes, keep_if_no, contains, is_some, arith,
  ◌==◌, if◌then◌else◌, string_eq,
}
use ffmuc_salt_public.Prelude.Dict.{Dict, lookup, keys, has-lookup, NodupKeys}
use ffmuc_salt_public.Cloudflare.Record.{Record, record_eq}
use ffmuc_salt_public.Cloudflare.Order.{Op, add, remove, update}
use ffmuc_salt_public.Cloudflare.Diff.{
  Key, key_eq, key, Tuples, add_op, remove_op, update_op, updated, collect_ops,
}
use ffmuc_salt_public.Cloudflare.Diff.Keys.{
  Keyed, lookup-Keyed, Distinct, keys-Distinct, contains-keep_if, keep_if-Distinct, IsWalk, to_list,
  only_at, only_at-collect_ops,
}

-- What a change does to the record that the zone holds at a key.
abbrev pub effect : Key → Option Record → Op → Option Record
effect k old op =
    if key op.subject == k
    then elim op.action [ add ↦ some op.subject | remove ↦ none | update ↦ some op.subject ]
    else old

abbrev pub after : Key → Option Record → List Op → Option Record
after k old [] = old
after k old (op ∷ ops) = after k (effect k old op) ops

effect_other :
    (k : Key) (old : Option Record) (op : Op)
    → (key op.subject == k) ≡ false
    → effect k old op ≡ old
effect_other k old op h = ground arith

-- Only the changes at a key act on it.
pub after-only_at :
    (k : Key) (ops : List Op) (old : Option Record) → after k old ops ≡ after k old (only_at k ops)
after-only_at k [] old = refl
after-only_at k (op ∷ ops) old = elim (Bool-cases (key op.subject == k)) [
  | inl here ↦
      after-only_at k ops (effect k old op)
      ∙ sym (ap (after k old) (keep_if_yes (λ op. key op.subject == k) op ops here))
  | inr other ↦
      ap (λ o. after k o ops) (effect_other k old op other)
      ∙ after-only_at k ops old
      ∙ sym (ap (after k old) (keep_if_no (λ op. key op.subject == k) op ops other))
]

module _ (existing desired : Tuples) (managed : Dict String Bool) (qe : Keyed existing)
    (qd : Keyed desired) where
  pub add_op_keyed : (j : Key) (op : Op) → add_op desired j ≡ some op → key op.subject ≡ j
  unfolding add_op
  add_op_keyed j op h = elim (Option-cases (lookup j desired)) [
    | inl e ↦ ground arith
    | inr (d, e) ↦ ground (arith, lookup-Keyed j desired d qd e)
  ]

  pub remove_op_keyed :
      (j : Key) (op : Op) → remove_op existing managed j ≡ some op → key op.subject ≡ j
  unfolding remove_op
  remove_op_keyed j op h = elim (Option-cases (lookup j existing)) [
    | inl e ↦ ground arith
    | inr (x, e) ↦ ground (arith, lookup-Keyed j existing x qe e)
  ]

  key-updated : (x d : Record) → d.salt_managed ≡ true → key (updated x d) ≡ key d
  unfolding key updated
  key-updated x d h = ground arith

  pub update_op_keyed :
      (j : Key) (op : Op) → update_op existing desired j ≡ some op → key op.subject ≡ j
  unfolding update_op
  update_op_keyed j op h = elim (Option-cases (lookup j existing)) [
    | inl e ↦ ground arith
    | inr (x, e) ↦ elim (Option-cases (lookup j desired)) [
      | inl n ↦ ground arith
      | inr (d, n) ↦ ground (arith, lookup-Keyed j desired d qd n, key-updated x d)
    ]
  ]

-- The change at a key, if there is one.
abbrev pub op_at : Tuples → Tuples → Dict String Bool → Key → Option Op
op_at existing desired managed k = elim (lookup k desired) [
  | none ↦ elim (lookup k existing) [ none ↦ none | some x ↦ remove_op existing managed k ]
  | some d ↦ elim (lookup k existing) [
    | none ↦ add_op desired k
    | some x ↦ update_op existing desired k
  ]
]

module _ (walk : List Key → List Key) (is_walk : IsWalk walk) (a : Tuples) (ua : NodupKeys a)
    (p : Key → Bool) (k : Key) where
  walked : Distinct (walk (keep_if p (keys a)))
  walked = (is_walk (keep_if p (keys a)) (keep_if-Distinct p (keys a) (keys-Distinct a ua))).0

  contains-walk : contains (walk (keep_if p (keys a))) k ≡ (is_some (lookup k a) && p k)
  contains-walk =
      (is_walk (keep_if p (keys a)) (keep_if-Distinct p (keys a) (keys-Distinct a ua))).1 k
      ∙ contains-keep_if p (keys a) k
      ∙ ap (λ b. b && p k) (has-lookup k a)

  pub walk-ops :
      (f : Key → Option Op)
      → ((j : Key) (op : Op) → f j ≡ some op → key op.subject ≡ j)
      → only_at k (collect_ops f (walk (keep_if p (keys a))))
        ≡ (if is_some (lookup k a) && p k then to_list (f k) else [])
  walk-ops f keyed =
      only_at-collect_ops f keyed k (walk (keep_if p (keys a))) walked
      ∙ ap (λ b. if b then to_list (f k) else []) contains-walk
