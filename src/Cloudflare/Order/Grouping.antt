-- ===== src/Cloudflare/Order/Grouping.antt =====
-- The groups of `Zone._order` in _states/cloudflare.py: what the list of each name holds.
use ffmuc_salt_public.Prelude.{
  String, ◌≡◌, refl, ◌∙◌, ap, sym, inl, inr, Bool-cases, Bool, true, false, not, ◌&&◌, List, [],
  ◌∷◌, ◌++◌, Option, none, some, All, All-append, keep_if, arith, ◌==◌, string_eq, if◌then◌else◌,
}
use mathlib.Core.List.{append_assoc, append-nil}
use ffmuc_salt_public.Prelude.Dict.{lookup, insert, lookup-insert, NodupKeys, insert-NodupKeys}
use ffmuc_salt_public.Cloudflare.Order.{
  Op, Group, Groups, op_name, is_primary, append_op, add_to_groups, group_ops,
}

-- The changes of one name, primary or not, in the order of the input.
abbrev pub belongs : Bool → String → Op → Bool
belongs true name op = is_primary op && op_name op == name
belongs false name op = not (is_primary op) && op_name op == name

abbrev pub of_name : Bool → String → List Op → List Op
of_name primary name = keep_if (belongs primary name)

abbrev pub side : Bool → Groups → Group
side true g = g.primary
side false g = g.rest

abbrev pub list_or : Option (List Op) → List Op
list_or none = []
list_or (some ops) = ops

-- `append_op` as one walk over the group
unfoldable pub append_to : Op → Group → Group
append_to op [] = (op_name op, op ∷ []) ∷ []
append_to op ((name, ops) ∷ g) =
    if op_name op == name then (name, ops ++ (op ∷ [])) ∷ g else (name, ops) ∷ append_to op g

pub append_op-append_to : (op : Op) (g : Group) → append_op op g ≡ append_to op g
unfolding append_op append_to lookup insert
append_op-append_to op [] = refl
append_op-append_to op ((name, ops) ∷ g) = ground (arith, append_op-append_to op g)

lookup-append_op :
    (op : Op) (name : String) (g : Group)
    → list_or (lookup name (append_op op g)) ≡ (
        if name == op_name op
        then list_or (lookup name g) ++ (op ∷ [])
        else list_or (lookup name g))
unfolding append_op
lookup-append_op op name g = ground (
  arith,
  lookup-insert name (op_name op) (op ∷ []) g,
  lookup-insert name (op_name op) (list_or (lookup (op_name op) g) ++ (op ∷ [])) g,
)

lookup-add_to_groups :
    (primary : Bool) (op : Op) (name : String) (g : Groups)
    → list_or (lookup name (side primary (add_to_groups op g)))
      ≡ list_or (lookup name (side primary g)) ++ of_name primary name (op ∷ [])
unfolding add_to_groups
lookup-add_to_groups true op name g =
    ground (arith, lookup-append_op op name g.primary, append-nil (list_or (lookup name g.primary)))
lookup-add_to_groups false op name g =
    ground (arith, lookup-append_op op name g.rest, append-nil (list_or (lookup name g.rest)))

of_name-cons :
    (primary : Bool) (name : String) (op : Op) (ops : List Op)
    → of_name primary name (op ∷ ops) ≡ of_name primary name (op ∷ []) ++ of_name primary name ops
of_name-cons primary name op ops = ground arith

-- After the first loop the list of a name holds the changes of that name, in order.
pub lookup-group_ops :
    (primary : Bool) (name : String) (ops : List Op) (g : Groups)
    → list_or (lookup name (side primary (group_ops ops g)))
      ≡ list_or (lookup name (side primary g)) ++ of_name primary name ops
unfolding group_ops
lookup-group_ops primary name [] g = sym (append-nil _)
lookup-group_ops primary name (op ∷ ops) g =
    lookup-group_ops primary name ops (add_to_groups op g)
    ∙ ap (λ l. l ++ of_name primary name ops) (lookup-add_to_groups primary op name g)
    ∙ append_assoc (list_or (lookup name (side primary g))) (of_name primary name (op ∷ []))
        (of_name primary name ops)
    ∙ ap (λ l. list_or (lookup name (side primary g)) ++ l) (sym (of_name-cons primary name op ops))

-- Every list holds changes of its own name and side only, and no name stands twice.
abbrev pub Fits : Bool → Group → Type 0
Fits primary [] = Unit
Fits primary ((name, ops) ∷ g) = All (λ op. belongs primary name op ≡ true) ops × Fits primary g

belongs_of_eq :
    (primary : Bool) (op : Op) (name : String)
    → belongs primary (op_name op) op ≡ true
    → (op_name op == name) ≡ true
    → belongs primary name op ≡ true
belongs_of_eq true op name h e = ground arith
belongs_of_eq false op name h e = ground arith

append_to-Fits :
    (primary : Bool) (op : Op) (g : Group)
    → belongs primary (op_name op) op ≡ true
    → Fits primary g
    → Fits primary (append_to op g)
unfolding append_to
append_to-Fits primary op [] h f = ((h, tt), tt)
append_to-Fits primary op ((name, ops) ∷ g) h f = elim (Bool-cases (op_name op == name)) [
  | inl same ↦
      rw same (All-append _ ops (op ∷ []) f.0 (belongs_of_eq primary op name h same, tt), f.1)
  | inr other ↦ rw other (f.0, append_to-Fits primary op g h f.1)
]

abbrev pub IsGrouped : Bool → Groups → Type 0
IsGrouped primary g = NodupKeys (side primary g) × Fits primary (side primary g)

append_op-NodupKeys : (op : Op) (g : Group) → NodupKeys g → NodupKeys (append_op op g)
unfolding append_op
append_op-NodupKeys op g u = ground (
  arith,
  insert-NodupKeys (op_name op) (op ∷ []) g u,
  insert-NodupKeys (op_name op) (list_or (lookup (op_name op) g) ++ (op ∷ [])) g u,
)

append_op-Fits :
    (primary : Bool) (op : Op) (g : Group)
    → belongs primary (op_name op) op ≡ true
    → Fits primary g
    → Fits primary (append_op op g)
append_op-Fits primary op g h f = rw append_op-append_to (append_to-Fits primary op g h f)

add_to_groups-IsGrouped :
    (primary : Bool) (op : Op) (g : Groups)
    → IsGrouped primary g
    → IsGrouped primary (add_to_groups op g)
unfolding add_to_groups
add_to_groups-IsGrouped true op g (u, f) = elim (Bool-cases (is_primary op)) [
  | inl p ↦
      rw p (append_op-NodupKeys op g.primary u, append_op-Fits true op g.primary (ground arith) f)
  | inr p ↦ rw p (u, f)
]
add_to_groups-IsGrouped false op g (u, f) = elim (Bool-cases (is_primary op)) [
  | inl p ↦ rw p (u, f)
  | inr p ↦ rw p (append_op-NodupKeys op g.rest u, append_op-Fits false op g.rest (ground arith) f)
]

pub group_ops-IsGrouped :
    (primary : Bool) (ops : List Op) (g : Groups)
    → IsGrouped primary g
    → IsGrouped primary (group_ops ops g)
unfolding group_ops
group_ops-IsGrouped primary [] g h = h
group_ops-IsGrouped primary (op ∷ ops) g h =
    group_ops-IsGrouped primary ops (add_to_groups op g) (add_to_groups-IsGrouped primary op g h)
