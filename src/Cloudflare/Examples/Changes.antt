-- ===== src/Cloudflare/Examples/Changes.antt =====
-- Runs of the model of _states/cloudflare.py on a small zone: changes and their order.
use mathlib.Core.List.{Perm}
use mathlib.Core.Option
use ffmuc_salt_public.Prelude.{
  ◌≡◌, refl, if◌then◌else◌, true, false, some, [], ◌∷◌, any, string_eq, nat_eq, option_eq, bool_eq,
  arith,
}
use ffmuc_salt_public.Prelude.Dict.{lookup, insert}
use ffmuc_salt_public.Cloudflare.Record.{record_eq, pure}
use ffmuc_salt_public.Cloudflare.Order.{ordered}
use ffmuc_salt_public.Cloudflare.Order.Rearranges.{ordered-perm}
use ffmuc_salt_public.Cloudflare.Order.Sequence.{
  is_alias, host_changes, other_changes, removals_first, additions_first, InSequence,
  ordered-InSequence,
}
use ffmuc_salt_public.Cloudflare.Diff.{Key, key_eq, key, collect, collect_managed, diff}
use ffmuc_salt_public.Cloudflare.Diff.AtKey.{after}
use ffmuc_salt_public.Cloudflare.Diff.Held.{target}
use ffmuc_salt_public.Cloudflare.Diff.Target.{diff-target}
use ffmuc_salt_public.Cloudflare.Diff.Settled.{diff-settled}
use ffmuc_salt_public.Cloudflare.Examples.{web, alias, walk, ops, walk-IsWalk}

diff-target_example :
    Option.map pure (
      after
        (key web)
        (lookup (key web) (collect (web ∷ []) []))
        (diff walk (web ∷ []) (alias ∷ [])))
    ≡ target
        (collect (web ∷ []) [])
        (collect (alias ∷ []) [])
        (collect_managed (alias ∷ []) [])
        (key web)
diff-target_example = diff-target walk walk-IsWalk (web ∷ []) (alias ∷ []) (key web)

-- The zone that holds `alias`, under an id, is as desired.
settled :
    (k : Key)
    → Option.map pure (lookup k (collect (record alias { id = some "r2" } ∷ []) []))
      ≡ target
          (collect (record alias { id = some "r2" } ∷ []) [])
          (collect (alias ∷ []) [])
          (collect_managed (alias ∷ []) [])
          k
unfolding collect insert lookup key pure collect_managed
settled k = ground arith

diff-settled_example : diff walk (record alias { id = some "r2" } ∷ []) (alias ∷ []) ≡ []
diff-settled_example =
    diff-settled walk walk-IsWalk (record alias { id = some "r2" } ∷ []) (alias ∷ []) (refl, tt)
      settled

ordered-perm_example : Perm (ordered ops) ops
ordered-perm_example = ordered-perm ops

ordered-InSequence_example :
    InSequence
      (if any is_alias (host_changes "web.example.com" ops)
        then removals_first
        else additions_first)
      (host_changes "web.example.com" (ordered ops))
    × InSequence additions_first (other_changes "web.example.com" (ordered ops))
ordered-InSequence_example = ordered-InSequence "web.example.com" ops

has_alias : any is_alias (host_changes "web.example.com" ops) ≡ true
unfolding string_eq
has_alias = refl

has_no_alias : any is_alias (host_changes "example.com" ops) ≡ false
unfolding string_eq
has_no_alias = refl
