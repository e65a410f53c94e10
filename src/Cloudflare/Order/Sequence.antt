-- ===== src/Cloudflare/Order/Sequence.antt =====
-- `Zone._order` of _states/cloudflare.py: what comes first among the changes of a name.
use ffmuc_salt_public.Prelude.{
  ℕ, ◌≤◌, String, ◌≡◌, refl, sym, Bool, true, false, not, ◌&&◌, ◌||◌, List, [], ◌∷◌, All, any,
  keep_if, if◌then◌else◌, arith, ◌==◌, string_eq,
}
use mathlib.Core.Path.{subst}
use ffmuc_salt_public.Prelude.Sort.{AtLeast, IsSortedOn, sorted_on-IsSortedOn}
use ffmuc_salt_public.Cloudflare.Order.{
  Action, add, remove, update, Op, is_primary, is_cname_op, in_order, primary_order,
  special_apply_order, regular_apply_order, ordered,
}
use ffmuc_salt_public.Cloudflare.Order.ByName.{of_name-ordered}

-- A change to the address or the alias of a host, and one to an alias
abbrev pub is_host : Op → Bool
is_host op = op.subject.type == "A" || (op.subject.type == "AAAA" || op.subject.type == "CNAME")

abbrev pub is_alias : Op → Bool
is_alias op = op.subject.type == "CNAME"

-- The changes of a name to its address or alias, and its other changes
abbrev pub host_changes : String → List Op → List Op
host_changes name = keep_if (λ op. is_host op && op.subject.name == name)

abbrev pub other_changes : String → List Op → List Op
other_changes name = keep_if (λ op. not (is_host op) && op.subject.name == name)

-- May a change of the first kind stand before one of the second? With the removals first, then the additions,
-- then the updates; and with the additions first, then the updates, then the removals.
abbrev pub removals_first : Action → Action → Bool
removals_first remove later = true
removals_first add remove = false
removals_first add add = true
removals_first add update = true
removals_first update remove = false
removals_first update add = false
removals_first update update = true

abbrev pub additions_first : Action → Action → Bool
additions_first add later = true
additions_first update add = false
additions_first update update = true
additions_first update remove = true
additions_first remove add = false
additions_first remove update = false
additions_first remove remove = true

-- Every change may stand before all that come later.
abbrev pub InSequence : (Action → Action → Bool) → List Op → Type 0
InSequence may [] = Unit
InSequence may (op ∷ ops) =
    All (λ later. may op.action later.action ≡ true) ops × InSequence may ops

special_apply_order-removals_first :
    (a b : Action) → special_apply_order a ≤ special_apply_order b → removals_first a b ≡ true
special_apply_order-removals_first remove b h = refl
special_apply_order-removals_first add remove h = absurd (omega (arith, h))
special_apply_order-removals_first add add h = refl
special_apply_order-removals_first add update h = refl
special_apply_order-removals_first update remove h = absurd (omega (arith, h))
special_apply_order-removals_first update add h = absurd (omega (arith, h))
special_apply_order-removals_first update update h = refl

regular_apply_order-additions_first :
    (a b : Action) → regular_apply_order a ≤ regular_apply_order b → additions_first a b ≡ true
regular_apply_order-additions_first add b h = refl
regular_apply_order-additions_first update add h = absurd (omega (arith, h))
regular_apply_order-additions_first update update h = refl
regular_apply_order-additions_first update remove h = refl
regular_apply_order-additions_first remove add h = absurd (omega (arith, h))
regular_apply_order-additions_first remove update h = absurd (omega (arith, h))
regular_apply_order-additions_first remove remove h = refl

module _ (rank : Action → ℕ) (may : Action → Action → Bool)
    (agree : (a b : Action) → rank a ≤ rank b → may a b ≡ true) where
  AtLeast-All :
      (a : Action) (ops : List Op)
      → AtLeast (λ op. rank op.action) (rank a) ops
      → All (λ later. may a later.action ≡ true) ops
  AtLeast-All a [] h = tt
  AtLeast-All a (op ∷ ops) h = (agree a op.action h.0, AtLeast-All a ops h.1)

  IsSortedOn-InSequence :
      (ops : List Op) → IsSortedOn (λ op. rank op.action) ops → InSequence may ops
  IsSortedOn-InSequence [] h = tt
  IsSortedOn-InSequence (op ∷ ops) h =
      (AtLeast-All op.action ops h.0, IsSortedOn-InSequence ops h.1)

in_order-special : (ops : List Op) → InSequence removals_first (in_order special_apply_order ops)
unfolding in_order
in_order-special ops =
    IsSortedOn-InSequence special_apply_order removals_first special_apply_order-removals_first _
      (sorted_on-IsSortedOn (λ op. special_apply_order op.action) ops)

in_order-regular : (ops : List Op) → InSequence additions_first (in_order regular_apply_order ops)
unfolding in_order
in_order-regular ops =
    IsSortedOn-InSequence regular_apply_order additions_first regular_apply_order-additions_first _
      (sorted_on-IsSortedOn (λ op. regular_apply_order op.action) ops)

picked :
    (alias : Bool) (ops : List Op)
    → InSequence
        (if alias then removals_first else additions_first)
        (in_order (if alias then special_apply_order else regular_apply_order) ops)
picked true ops = in_order-special ops
picked false ops = in_order-regular ops

-- The changes of a name to A, AAAA and CNAME records come out with the removals first, then the additions, then the
-- updates, if one of them is about a CNAME; and else with the additions first, then the updates, then the removals, as
-- do its changes to other records.
pub ordered-InSequence :
    (name : String) (ops : List Op)
    → InSequence
        (if any is_alias (host_changes name ops) then removals_first else additions_first)
        (host_changes name (ordered ops))
      × InSequence additions_first (other_changes name (ordered ops))
unfolding is_primary is_cname_op primary_order
ordered-InSequence name ops = (
  subst
      (InSequence
        (if any is_alias (host_changes name ops) then removals_first else additions_first))
      (sym (of_name-ordered name ops true))
      (picked (any is_alias (host_changes name ops)) (host_changes name ops)),
  subst (InSequence additions_first) (sym (of_name-ordered name ops false))
      (in_order-regular (other_changes name ops)),
)
