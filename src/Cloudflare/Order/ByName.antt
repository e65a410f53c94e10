-- ===== src/Cloudflare/Order/ByName.antt =====
-- `Zone._order` of _states/cloudflare.py: the order in which the changes of one name come out.
use mathlib.Core.List.{append-nil}
use ffmuc_salt_public.Prelude.{
  String, ◌≡◌, ◌⊎◌, refl, ◌∙◌, ap, sym, inl, inr, Bool-cases, Bool, true, false, not, List, [], ◌∷◌,
  ◌++◌, none, All, All-imp, keep_if-append, keep_if-All, keep_if_none, arith, ◌==◌, string_eq,
}
use ffmuc_salt_public.Prelude.Sort.{All-sorted_on, sorted_on}
use ffmuc_salt_public.Prelude.Dict.{lookup, NodupKeys}
use ffmuc_salt_public.Cloudflare.Order.{
  Op, Group, Groups, group_ops, in_order, primary_order, regular_apply_order, flush_primary,
  flush_rest, ordered,
}
use ffmuc_salt_public.Cloudflare.Order.Grouping.{
  belongs, of_name, side, list_or, Fits, IsGrouped, group_ops-IsGrouped, lookup-group_ops,
}

-- The order that the code picks for the list of a name.
abbrev pub order_of : Bool → List Op → List Op
order_of true ops = in_order (primary_order ops) ops
order_of false ops = in_order regular_apply_order ops

abbrev flush : Bool → Group → List Op
flush true g = flush_primary g
flush false g = flush_rest g

All-order_of :
    (P : Op → Type 0) (primary : Bool) (ops : List Op) → All P ops → All P (order_of primary ops)
unfolding in_order
All-order_of P true ops a = All-sorted_on P _ ops a
All-order_of P false ops a = All-sorted_on P _ ops a

flush-cons :
    (primary : Bool) (name : String) (ops : List Op) (g : Group)
    → flush primary ((name, ops) ∷ g) ≡ order_of primary ops ++ flush primary g
unfolding flush_primary flush_rest
flush-cons true name ops g = refl
flush-cons false name ops g = refl

belongs_eq :
    (primary : Bool) (m name : String) (op : Op)
    → (name == m) ≡ true
    → belongs primary m op ≡ true
    → belongs primary name op ≡ true
belongs_eq true m name op e h = ground arith
belongs_eq false m name op e h = ground arith

belongs_ne :
    (primary : Bool) (m name : String) (op : Op)
    → (name == m) ≡ false
    → belongs primary m op ≡ true
    → belongs primary name op ≡ false
belongs_ne true m name op ne h = ground arith
belongs_ne false m name op ne h = ground arith

belongs_other_side :
    (primary : Bool) (m name : String) (op : Op)
    → belongs primary m op ≡ true
    → belongs (not primary) name op ≡ false
belongs_other_side true m name op h = ground arith
belongs_other_side false m name op h = ground arith

order_of-nil : (primary : Bool) → order_of primary [] ≡ []
unfolding in_order sorted_on
order_of-nil true = refl
order_of-nil false = refl

flush_nil : (primary : Bool) (name : String) → of_name primary name (flush primary []) ≡ []
unfolding flush_primary flush_rest
flush_nil true name = refl
flush_nil false name = refl

flush_nil_other :
    (primary : Bool) (name : String) → of_name (not primary) name (flush primary []) ≡ []
unfolding flush_primary flush_rest
flush_nil_other true name = refl
flush_nil_other false name = refl

module _ (primary : Bool) (name m : String) (ops : List Op)
    (f : All (λ op. belongs primary m op ≡ true) ops) where
  of_name-order_of_same :
      (name == m) ≡ true → of_name primary name (order_of primary ops) ≡ order_of primary ops
  of_name-order_of_same same = keep_if-All (belongs primary name) (order_of primary ops) (
      All-order_of (λ op. belongs primary name op ≡ true) primary ops
        (All-imp _ _ ops (λ op h. belongs_eq primary m name op same h) f))

  of_name-order_of_other : (name == m) ≡ false → of_name primary name (order_of primary ops) ≡ []
  of_name-order_of_other other = keep_if_none (belongs primary name) (order_of primary ops) (
      All-order_of (λ op. belongs primary name op ≡ false) primary ops
        (All-imp _ _ ops (λ op h. belongs_ne primary m name op other h) f))

  of_name-other_side : of_name (not primary) name (order_of primary ops) ≡ []
  of_name-other_side = keep_if_none (belongs (not primary) name) (order_of primary ops) (
      All-order_of (λ op. belongs (not primary) name op ≡ false) primary ops
        (All-imp _ _ ops (λ op h. belongs_other_side primary m name op h) f))

module _ (primary : Bool) (name : String) where
  -- A flushed side shows, for each name, the list of that name in its order.
  of_name-flush :
      (g : Group)
      → NodupKeys g
      → Fits primary g
      → of_name primary name (flush primary g) ≡ order_of primary (list_or (lookup name g))
  unfolding lookup
  of_name-flush [] u f = flush_nil primary name ∙ sym (order_of-nil primary)
  of_name-flush ((m, ops) ∷ g) u f =
      ap (of_name primary name) (flush-cons primary m ops g)
      ∙ keep_if-append (belongs primary name) (order_of primary ops) (flush primary g)
      ∙ join (of_name-flush g u.1 f.1) (Bool-cases (name == m))
    where
      absent : (name == m) ≡ true → lookup name g ≡ none
      absent same = ground (arith, u.0)

      join :
          of_name primary name (flush primary g) ≡ order_of primary (list_or (lookup name g))
          → ((name == m) ≡ true) ⊎ ((name == m) ≡ false)
          → of_name primary name (order_of primary ops) ++ of_name primary name (flush primary g)
            ≡ order_of primary (list_or (lookup name ((m, ops) ∷ g)))
      join ih (inl same) =
          rw
            (same, of_name-order_of_same primary name m ops f.0 same, ih, absent same, order_of-nil)
            (append-nil (order_of primary ops))
      join ih (inr other) = rw (other, of_name-order_of_other primary name m ops f.0 other) ih

  of_name-flush_other :
      (g : Group) → Fits primary g → of_name (not primary) name (flush primary g) ≡ []
  of_name-flush_other [] f = flush_nil_other primary name
  of_name-flush_other ((m, ops) ∷ g) f =
      ap (of_name (not primary) name) (flush-cons primary m ops g)
      ∙ keep_if-append (belongs (not primary) name) (order_of primary ops) (flush primary g)
      ∙ ap (λ l. l ++ of_name (not primary) name (flush primary g))
          (of_name-other_side primary name m ops f.0)
      ∙ of_name-flush_other g f.1

module _ (name : String) (ops : List Op) where
  abbrev groups : Groups
  groups = group_ops ops (record { primary = []; rest = [] })

  grouped : (primary : Bool) → IsGrouped primary groups
  grouped true = group_ops-IsGrouped true ops (record { primary = []; rest = [] }) (tt, tt)
  grouped false = group_ops-IsGrouped false ops (record { primary = []; rest = [] }) (tt, tt)

  held : (primary : Bool) → list_or (lookup name (side primary groups)) ≡ of_name primary name ops
  unfolding lookup
  held true = lookup-group_ops true name ops (record { primary = []; rest = [] })
  held false = lookup-group_ops false name ops (record { primary = []; rest = [] })

  flushed :
      (primary : Bool)
      → of_name primary name (flush primary (side primary groups))
        ≡ order_of primary (of_name primary name ops)
  flushed primary =
      of_name-flush primary name (side primary groups) (grouped primary).0 (grouped primary).1
      ∙ ap (order_of primary) (held primary)

  -- The changes of a name come out in their order. For A, AAAA and CNAME records that is remove,
  -- add, update if one of them is a CNAME, and add, update, remove otherwise; for the other
  -- types it is always the latter.
  pub of_name-ordered :
      (primary : Bool)
      → of_name primary name (ordered ops) ≡ order_of primary (of_name primary name ops)
  unfolding ordered
  of_name-ordered true =
      keep_if-append (belongs true name) (flush true groups.primary) (flush false groups.rest)
      ∙ ap (λ l. of_name true name (flush true groups.primary) ++ l)
          (of_name-flush_other false name groups.rest (grouped false).1)
      ∙ append-nil (of_name true name (flush true groups.primary))
      ∙ flushed true
  of_name-ordered false =
      keep_if-append (belongs false name) (flush true groups.primary) (flush false groups.rest)
      ∙ ap (λ l. l ++ of_name false name (flush false groups.rest))
          (of_name-flush_other true name groups.primary (grouped true).1)
      ∙ flushed false
