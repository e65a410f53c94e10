-- ===== src/Cloudflare/Manage.antt =====
-- _states/cloudflare.py: `Zone.apply`, `_changes` and the state function `manage_zone_records`.
pub mod Sent
pub mod Requests
pub mod Effects
use ffmuc_salt_public.Prelude.{
  ℕ, String, ◌<>◌, Bool, true, false, List, [], ◌∷◌, Option, none, some, length, if◌then◌else◌,
  ◌==◌, nat_eq,
}
use ffmuc_salt_public.Prelude.Numbers.{show_ℕ}
use ffmuc_salt_public.Prelude.Text.{join}
use ffmuc_salt_public.Prelude.Result
use ffmuc_salt_public.Prelude.Result.{Error, Result, ok, err, salt_invocation_error}
use ffmuc_salt_public.Prelude.Exec.{Exec, pure, raise, lift, ◌>>=◌, ◌>>◌}
use ffmuc_salt_public.Cloudflare.Data.{show_record}
use ffmuc_salt_public.Cloudflare.Zone.{
  Zone, ZoneDict, Api, World, Body, init, desired, add_record, remove_record, update_record,
}
use ffmuc_salt_public.Cloudflare.Sanity.{Names, sanity_check}
use ffmuc_salt_public.Cloudflare.Existing.{existing}
use ffmuc_salt_public.Cloudflare.Order.{Op, Action, add, remove, update}
use ffmuc_salt_public.Cloudflare.Diff.{Key, diff}

abbrev pub action_text : Action → String
action_text add = "add"
action_text remove = "remove"
action_text update = "update"

unfoldable pub op_lines : List Op → Result (List String)
op_lines [] = ok []
op_lines (op ∷ ops) =
    Result.◌>>=◌ (show_record op.subject) λ text.
      Result.◌>>=◌ (op_lines ops) λ rest. ok ((action_text op.action <> (" " <> text)) ∷ rest)

-- `_changes`. A `map` object is true even if it is empty, so the key "diff" is always set.
unfoldable pub describe_changes : List Op → Result String
describe_changes ops = Result.◌>>=◌ (op_lines ops) λ lines. ok (join "\n" lines)

-- What a state function returns. `changes` is the text at the key "diff", if it is set.
pub record StateReturn : Type 0 where
  pub name : String
  pub changes : Option String
  pub pchanges : Option String
  pub result : Option Bool
  pub comment : String

abbrev zone_text : String → String → String → String
zone_text name zone_id rest = "The state of " <> (name <> (" (" <> (zone_id <> (")" <> rest))))

abbrev counted : String → ℕ → String
counted verb n = verb <> (" (" <> (show_ℕ n <> " changes)."))

-- The parts of the environment: the API, `re.match`, the order in which a set is walked, and the
-- bound on the pages that are read.
pub record Env : Type 1 where
  pub api : Api
  pub matches : String → String → Bool
  pub walk : List Key → List Key
  pub rounds : ℕ

module _ (env : Env) where
  unfoldable pub apply_op : Zone → Op → Exec (World env.api) Body
  apply_op z op = elim op.action [
    | add ↦ add_record env.api z op.subject
    | remove ↦ remove_record env.api z op.subject
    | update ↦ update_record env.api z op.subject
  ]

  -- `apply`
  unfoldable pub apply : Zone → List Op → Exec (World env.api) (Unit {0})
  apply z [] = pure tt
  apply z (op ∷ ops) = do apply_op z op; apply z ops

  -- `managed.diff()`: the requests of `existing`, then the comparison.
  unfoldable pub zone_diff : Zone → Exec (World env.api) (List Op)
  zone_diff z = do
    found ← existing env.matches env.api env.rounds z
    wanted ← lift (desired z)
    pure (diff env.walk found wanted)

  -- What follows the sanity check.
  unfoldable pub converge : Bool → Zone → Exec (World env.api) StateReturn
  converge test z = do
    ops ← zone_diff z
    text ← lift (describe_changes ops)
    if length ops == 0
        then pure (record {
          name = z.name;
          changes = none;
          pchanges = none;
          result = if test then none else some true;
          comment = zone_text z.name z.zone_id " is up to date.";
        })
        else if test
        then pure (record {
          name = z.name;
          changes = some text;
          pchanges = some text;
          result = none;
          comment = zone_text z.name z.zone_id (counted " will be changed" (length ops));
        })
        else do
          apply z ops
          pure (record {
            name = z.name;
            changes = some text;
            pchanges = none;
            result = some true;
            comment = zone_text z.name z.zone_id (counted " was changed" (length ops));
          })

  -- Only a `SaltInvocationError` of the sanity check is caught.
  unfoldable pub handle : Bool → Zone → Result Names → Exec (World env.api) StateReturn
  handle test z (ok names) = converge test z
  handle test z (err (salt_invocation_error text)) = pure (record {
    name = z.name;
    changes = none;
    pchanges = none;
    result = some false;
    comment = text;
  })
  handle test z (err e) = raise e

  -- `manage_zone_records`, with `__opts__["test"]`
  unfoldable pub manage_zone_records : Bool → String → ZoneDict → Exec (World env.api) StateReturn
  manage_zone_records test name dict = do
    z ← lift (init name dict)
    λ w. let (checked, w') = sanity_check env.api z w in handle test z checked w'
