-- ===== src/Cloudflare/Diff/Target.antt =====
-- `Zone.diff` of _states/cloudflare.py against a description of the zone that it aims at.
use mathlib.Core.Option
use mathlib.Core.HLevel.{hedberg}
use mathlib.Core.List.{Perm, append-nil}
use mathlib.Core.List.Perm
use native.Mathlib.Decide.{ℕ_discrete}
use ffmuc_salt_public.Prelude.{
  String, ◌≡◌, refl, ◌∙◌, ap, Bool, not, ◌&&◌, List, [], ◌++◌, Option, none, some, keep_if-append,
  is_some, ◌==◌, if◌then◌else◌, string_eq, String-discrete, Bool-discrete,
}
use ffmuc_salt_public.Prelude.Dict.{Dict, lookup, has, has-lookup}
use ffmuc_salt_public.Prelude.Perms.{keep_if-perm, perm_single}
use ffmuc_salt_public.Cloudflare.Record.{Record, pure, record_eq}
use ffmuc_salt_public.Cloudflare.Order.{Op, Action}
use ffmuc_salt_public.Cloudflare.Order.Rearranges.{ordered-perm}
use ffmuc_salt_public.Cloudflare.Diff.{
  Key, key_eq, key, Tuples, collect, collect_managed, difference, intersection, add_op, remove_op,
  update_op, collect_ops, changes, diff,
}
use ffmuc_salt_public.Cloudflare.Diff.Keys.{
  Keyed, collect-Keyed, collect-NodupKeys, IsWalk, to_list, only_at,
}
use ffmuc_salt_public.Cloudflare.Diff.AtKey.{
  after, after-only_at, add_op_keyed, remove_op_keyed, update_op_keyed, op_at, walk-ops,
}
use ffmuc_salt_public.Cloudflare.Diff.Held.{target, held-op_at}

Action-discrete : Discrete Action
Action-discrete = hlevel

Op-discrete : Discrete Op
Op-discrete = hlevel (String-discrete, Bool-discrete, ℕ_discrete)

combine :
    (d x : Option Record) (a r u : Option Op)
    → (if is_some d && not (is_some x) then to_list a else [])
        ++ ((if is_some x && not (is_some d) then to_list r else [])
            ++ (if is_some x && is_some d then to_list u else []))
      ≡ to_list (elim d [
        | none ↦ elim x [ none ↦ none | some _ ↦ r ]
        | some _ ↦ elim x [ none ↦ a | some _ ↦ u ]
      ])
combine none none a r u = refl
combine none (some x) a r u = append-nil (to_list r)
combine (some d) none a r u = append-nil (to_list a)
combine (some d) (some x) a r u = refl

module _ (walk : List Key → List Key) (is_walk : IsWalk walk) (found wanted : List Record)
    (k : Key) where
  only_at-append : (xs ys : List Op) → only_at k (xs ++ ys) ≡ only_at k xs ++ only_at k ys
  only_at-append = keep_if-append (λ op. key op.subject == k)

  abbrev existing : Tuples
  existing = collect found []

  abbrev desired : Tuples
  desired = collect wanted []

  abbrev managed : Dict String Bool
  managed = collect_managed wanted []

  qe : Keyed existing
  qe = collect-Keyed found [] tt

  qd : Keyed desired
  qd = collect-Keyed wanted [] tt

  adds : only_at k (collect_ops (add_op desired) (walk (difference desired existing))) ≡ (
      if is_some (lookup k desired) && not (is_some (lookup k existing))
      then to_list (add_op desired k)
      else [])
  unfolding difference
  adds =
      walk-ops walk is_walk desired (collect-NodupKeys wanted [] tt) (λ j. not (has j existing)) k
        (add_op desired) (add_op_keyed existing desired managed qe qd)
      ∙ ap (λ b. if is_some (lookup k desired) && not b then to_list (add_op desired k) else [])
          (has-lookup k existing)

  removals :
      only_at k (collect_ops (remove_op existing managed) (walk (difference existing desired))) ≡ (
        if is_some (lookup k existing) && not (is_some (lookup k desired))
        then to_list (remove_op existing managed k)
        else [])
  unfolding difference
  removals =
      walk-ops walk is_walk existing (collect-NodupKeys found [] tt) (λ j. not (has j desired)) k
        (remove_op existing managed) (remove_op_keyed existing desired managed qe qd)
      ∙ ap
          (λ b.
            if is_some (lookup k existing) && not b
            then to_list (remove_op existing managed k)
            else [])
          (has-lookup k desired)

  updates :
      only_at k (collect_ops (update_op existing desired) (walk (intersection existing desired)))
      ≡ (if is_some (lookup k existing) && is_some (lookup k desired)
          then to_list (update_op existing desired k)
          else [])
  unfolding intersection
  updates =
      walk-ops walk is_walk existing (collect-NodupKeys found [] tt) (λ j. has j desired) k
        (update_op existing desired) (update_op_keyed existing desired managed qe qd)
      ∙ ap
          (λ b.
            if is_some (lookup k existing) && b then to_list (update_op existing desired k) else [])
          (has-lookup k desired)

  only_at-changes :
      only_at k (changes walk found wanted) ≡ to_list (op_at existing desired managed k)
  unfolding changes
  only_at-changes =
      only_at-append (collect_ops (add_op desired) (walk (difference desired existing))) (
        collect_ops (remove_op existing managed) (walk (difference existing desired))
        ++ collect_ops (update_op existing desired) (walk (intersection existing desired)))
      ∙ rw
          (
            adds,
            only_at-append
                (collect_ops (remove_op existing managed) (walk (difference existing desired)))
                (collect_ops (update_op existing desired) (walk (intersection existing desired))),
            removals,
            updates,
          )
          (combine (lookup k desired) (lookup k existing) (add_op desired k)
            (remove_op existing managed k) (update_op existing desired k))

  -- One change has no other order.
  of_perm : (o : Option Op) (ops : List Op) → Perm ops (to_list o) → ops ≡ to_list o
  of_perm none ops q = Perm.eq-nil q
  of_perm (some op) ops q = perm_single (hedberg Op-discrete) op q

  pub only_at-diff : only_at k (diff walk found wanted) ≡ to_list (op_at existing desired managed k)
  unfolding diff
  only_at-diff = of_perm (op_at existing desired managed k) _ (
      rw only_at-changes at
        (keep_if-perm (λ op. key op.subject == k) (ordered-perm (changes walk found wanted))))

  at_target :
      Option.map pure (after k (lookup k existing) (to_list (op_at existing desired managed k)))
      ≡ target existing desired managed k
  at_target = held-op_at existing desired managed k qe qd

  -- After the changes the zone holds, at every key and whatever the order in which Python walks its
  -- sets, the record aimed at: a record desired and managed is there as desired, with any id; what
  -- Salt does not manage is as it was; every other record is gone.
  pub diff-target :
      Option.map pure (after k (lookup k existing) (diff walk found wanted))
      ≡ target existing desired managed k
  diff-target =
      ap (Option.map pure) (
        after-only_at k (diff walk found wanted) (lookup k existing)
        ∙ ap (after k (lookup k existing)) only_at-diff)
      ∙ at_target
