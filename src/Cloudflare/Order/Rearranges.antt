-- ===== src/Cloudflare/Order/Rearranges.antt =====
-- `Zone._order` of _states/cloudflare.py loses and invents no change.
use mathlib.Core.List.{Perm, perm_middle, append_assoc, append-nil}
use mathlib.Core.List.Perm
use ffmuc_salt_public.Prelude.{inl, inr, Bool-cases, List, [], ◌∷◌, ◌++◌, ◌==◌, string_eq}
use ffmuc_salt_public.Prelude.Sort.{sorted_on-perm}
use ffmuc_salt_public.Cloudflare.Order.{
  Op, Group, Groups, op_name, is_primary, append_op, add_to_groups, group_ops, in_order,
  primary_order, regular_apply_order, flush_primary, flush_rest, ordered,
}
use ffmuc_salt_public.Cloudflare.Order.Grouping.{append_to, append_op-append_to}

-- All changes of a group, list by list.
flat : Group → List Op
flat [] = []
flat ((name, ops) ∷ g) = ops ++ flat g

flush_primary-perm : (g : Group) → Perm (flush_primary g) (flat g)
unfolding flush_primary flat in_order
flush_primary-perm [] = Perm.rfl
flush_primary-perm ((name, ops) ∷ g) =
    Perm.append (sorted_on-perm (λ op. primary_order ops op.action) ops) (flush_primary-perm g)

flush_rest-perm : (g : Group) → Perm (flush_rest g) (flat g)
unfolding flush_rest flat in_order
flush_rest-perm [] = Perm.rfl
flush_rest-perm ((name, ops) ∷ g) =
    Perm.append (sorted_on-perm (λ op. regular_apply_order op.action) ops) (flush_rest-perm g)

append_to-perm : (op : Op) (g : Group) → Perm (flat (append_to op g)) (op ∷ flat g)
unfolding flat append_to
append_to-perm op [] = Perm.rfl
append_to-perm op ((name, ops) ∷ g) = elim (Bool-cases (op_name op == name)) [
  | inl same ↦ rw same (rw (append_assoc ops (op ∷ []) (flat g)) (perm_middle ops (flat g)))
  | inr other ↦
      rw other (Perm.trans (Perm.append_left ops (append_to-perm op g)) (perm_middle ops (flat g)))
]

append_op-perm : (op : Op) (g : Group) → Perm (flat (append_op op g)) (op ∷ flat g)
append_op-perm op g = rw append_op-append_to (append_to-perm op g)

abbrev all_of : Groups → List Op
all_of g = flat g.primary ++ flat g.rest

add_to_groups-perm : (op : Op) (g : Groups) → Perm (all_of (add_to_groups op g)) (op ∷ all_of g)
unfolding add_to_groups
add_to_groups-perm op g = elim (Bool-cases (is_primary op)) [
  | inl p ↦ rw p (Perm.append_right (flat g.rest) (append_op-perm op g.primary))
  | inr p ↦ rw p (
      Perm.trans (Perm.append_left (flat g.primary) (append_op-perm op g.rest))
        (perm_middle (flat g.primary) (flat g.rest)))
]

group_ops-perm : (ops : List Op) (g : Groups) → Perm (all_of (group_ops ops g)) (ops ++ all_of g)
unfolding group_ops
group_ops-perm [] g = Perm.rfl
group_ops-perm (op ∷ ops) g =
    Perm.trans (group_ops-perm ops (add_to_groups op g))
      (Perm.trans (Perm.append_left ops (add_to_groups-perm op g)) (perm_middle ops (all_of g)))

-- The changes are the same, each as often.
pub ordered-perm : (ops : List Op) → Perm (ordered ops) ops
unfolding ordered flat
ordered-perm ops =
    let g = group_ops ops (record { primary = []; rest = [] }) in
    Perm.trans (Perm.append (flush_primary-perm g.primary) (flush_rest-perm g.rest))
      (rw append-nil at (group_ops-perm ops (record { primary = []; rest = [] })))
