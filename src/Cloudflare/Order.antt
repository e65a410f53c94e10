-- ===== src/Cloudflare/Order.antt =====
-- _states/cloudflare.py: `Zone._order`, the order in which changes are applied.
pub mod Grouping
pub mod ByName
pub mod Rearranges
pub mod Sequence
use ffmuc_salt_public.Prelude.{
  ℕ, String, Bool, ◌||◌, List, [], ◌∷◌, ◌++◌, none, some, any, if◌then◌else◌, ◌==◌, string_eq,
}
use ffmuc_salt_public.Prelude.Dict.{Dict, lookup, insert}
use ffmuc_salt_public.Prelude.Sort.{sorted_on}
use ffmuc_salt_public.Cloudflare.Record.{Record}

-- ACTION_ADD, ACTION_REMOVE, ACTION_UPDATE
pub data Action : Type 0 where
  add remove update : Action

-- The dicts `{"action": …, "record": …}`.
pub record Op : Type 0 where
  pub action : Action
  pub subject : Record

-- SPECIAL_APPLY_ORDER and REGULAR_APPLY_ORDER
abbrev pub special_apply_order : Action → ℕ
special_apply_order remove = 0
special_apply_order add = 1
special_apply_order update = 2

abbrev pub regular_apply_order : Action → ℕ
regular_apply_order add = 0
regular_apply_order update = 1
regular_apply_order remove = 2

abbrev pub op_name : Op → String
op_name op = op.subject.name

unfoldable pub is_primary : Op → Bool
is_primary op = op.subject.type == "A" || (op.subject.type == "AAAA" || op.subject.type == "CNAME")

unfoldable pub is_cname_op : Op → Bool
is_cname_op op = op.subject.type == "CNAME"

abbrev pub Group : Type 0
Group = Dict String (List Op)

-- The two statements that put an op at the end of the list of its name.
unfoldable pub append_op : Op → Group → Group
append_op op g = elim (lookup (op_name op) g) [
  | none ↦ insert (op_name op) (op ∷ []) g
  | some ops ↦ insert (op_name op) (ops ++ (op ∷ [])) g
]

-- groups["primary"] and groups["rest"]
pub record Groups : Type 0 where
  pub primary : Group
  pub rest : Group

unfoldable pub add_to_groups : Op → Groups → Groups
unfolding is_primary append_op
add_to_groups op g =
    if is_primary op
    then record { primary = append_op op g.primary; rest = g.rest }
    else record { primary = g.primary; rest = append_op op g.rest }

unfoldable pub group_ops : List Op → Groups → Groups
unfolding add_to_groups
group_ops [] g = g
group_ops (op ∷ ops) g = group_ops ops (add_to_groups op g)

-- `append_in_order`
unfoldable pub in_order : (Action → ℕ) → List Op → List Op
in_order order = sorted_on (λ op. order op.action)

unfoldable pub primary_order : List Op → Action → ℕ
primary_order ops = if any is_cname_op ops then special_apply_order else regular_apply_order

unfoldable pub flush_primary : Group → List Op
unfolding in_order primary_order
flush_primary [] = []
flush_primary ((name, ops) ∷ g) = in_order (primary_order ops) ops ++ flush_primary g

unfoldable pub flush_rest : Group → List Op
unfolding in_order
flush_rest [] = []
flush_rest ((name, ops) ∷ g) = in_order regular_apply_order ops ++ flush_rest g

-- `_order`
unfoldable pub ordered : List Op → List Op
unfolding group_ops flush_primary flush_rest
ordered ops =
    let g = group_ops ops (record { primary = []; rest = [] }) in
    flush_primary g.primary ++ flush_rest g.rest
