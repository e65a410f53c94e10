-- ===== src/Cloudflare/Diff/Settled.antt =====
-- `Zone.diff` of _states/cloudflare.py: a zone that is as aimed at needs no change.
use mathlib.Core.Option
use ffmuc_salt_public.Prelude.{
  String, ◌≡◌, refl, ◌∙◌, ap, sym, Bool, true, List, [], ◌∷◌, none, some, keep_if_yes, All, arith,
  ◌==◌, string_eq, ==_of_eq, Option-cases, inl, inr,
}
use ffmuc_salt_public.Prelude.Dict.{Dict, lookup, insert, lookup-insert}
use ffmuc_salt_public.Cloudflare.Record.{Record, pure, record_eq}
use ffmuc_salt_public.Cloudflare.Order.{Op}
use ffmuc_salt_public.Cloudflare.Diff.{
  Key, key_eq, key, Tuples, collect, collect_managed, add_op, remove_op, update_op, diff,
}
use ffmuc_salt_public.Cloudflare.Diff.Keys.{IsWalk, to_list, only_at}
use ffmuc_salt_public.Cloudflare.Diff.AtKey.{op_at}
use ffmuc_salt_public.Cloudflare.Diff.Held.{target}
use ffmuc_salt_public.Cloudflare.Diff.Target.{only_at-diff}

-- A record without an id, as the pillar gives it; `record_from_dict` would keep one.
abbrev pub NoId : Record → Type 0
NoId r = r.id ≡ none

pure-NoId : (r : Record) → NoId r → pure r ≡ r
unfolding pure
pure-NoId r h = ground arith

lookup-insert-NoId :
    (k j : Key) (r : Record) (t : Tuples) (d : Record)
    → NoId r
    → ((e : Record) → lookup k t ≡ some e → NoId e)
    → lookup k (insert j r t) ≡ some d
    → NoId d
lookup-insert-NoId k j r t d n f h = ground (arith, lookup-insert k j r t, f d)

collect-NoId :
    (rs : List Record) (t : Tuples) (k : Key) (d : Record)
    → All NoId rs
    → ((e : Record) → lookup k t ≡ some e → NoId e)
    → lookup k (collect rs t) ≡ some d
    → NoId d
unfolding collect
collect-NoId [] t k d a f h = f d h
collect-NoId (r ∷ rs) t k d a f h =
    collect-NoId rs (insert (key r) r t) k d a.1 (λ e. lookup-insert-NoId k (key r) r t e a.0 f) h

module _ (existing desired : Tuples) (managed : Dict String Bool) (k : Key) where
  quiet_update :
      (x d : Record)
      → NoId d
      → lookup k existing ≡ some x
      → lookup k desired ≡ some d
      → Option.map pure (lookup k existing) ≡ target existing desired managed k
      → update_op existing desired k ≡ none
  unfolding update_op
  quiet_update x d n hx hd h = ground (arith, pure-NoId d n)

  op_at-settled :
      ((d : Record) → lookup k desired ≡ some d → NoId d)
      → Option.map pure (lookup k existing) ≡ target existing desired managed k
      → op_at existing desired managed k ≡ none
  unfolding add_op remove_op
  op_at-settled n h = elim (Option-cases (lookup k desired)) [
    | inl nd ↦ ground arith
    | inr (d, hd) ↦ elim (Option-cases (lookup k existing)) [
      | inl nx ↦ ground arith
      | inr (x, hx) ↦ let q = quiet_update x d (n d hd) hx hd h in ground arith
    ]
  ]

key_refl : (k : Key) → (k == k) ≡ true
key_refl k = ==_of_eq {A = Key} {a = k} refl

only_at-nil : (ops : List Op) → ((k : Key) → only_at k ops ≡ []) → ops ≡ []
only_at-nil [] h = refl
only_at-nil (op ∷ ops) h =
    let e =
      sym (keep_if_yes (λ o. key o.subject == key op.subject) op ops (key_refl (key op.subject)))
      ∙ h (key op.subject) in
    cc

-- Where no record of the pillar has an id, and whatever the order in which Python walks its sets, a
-- zone that holds at every key the record that `diff` aims at needs no change: a second run changes
-- nothing.
pub diff-settled :
    (walk : List Key → List Key) (is_walk : IsWalk walk) (found wanted : List Record)
    → All NoId wanted
    → ((k : Key)
        → Option.map pure (lookup k (collect found []))
          ≡ target (collect found []) (collect wanted []) (collect_managed wanted []) k)
    → diff walk found wanted ≡ []
unfolding lookup
diff-settled walk is_walk found wanted n h = only_at-nil (diff walk found wanted) λ k.
    only_at-diff walk is_walk found wanted k
    ∙ ap to_list (
        op_at-settled (collect found []) (collect wanted []) (collect_managed wanted []) k
          (λ d. collect-NoId wanted [] k d n (λ e q. cc)) (h k))
