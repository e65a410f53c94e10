-- ===== src/Cloudflare/Examples.antt =====
-- Runs of the model of _states/cloudflare.py on a small zone: the zone, the API and the changes.
mod Changes
mod Runs
use mathlib.Core.List.{Perm}
use mathlib.Core.Option
use ffmuc_salt_public.Prelude.{
  ◌≤◌, ◌≡◌, refl, String, true, false, none, some, List, [], ◌∷◌, All, any, ◌==◌, string_eq, nat_eq,
  option_eq, bool_eq, arith,
}
use ffmuc_salt_public.Prelude.Dict.{lookup, insert, values}
use ffmuc_salt_public.Prelude.Sort.{IsSortedOn}
use ffmuc_salt_public.Prelude.Result.{ok, err, is_ok, salt_invocation_error, exception, ◌>>=◌}
use ffmuc_salt_public.Cloudflare.Record.{
  RecordDict, Record, record_eq, record_from_dict, validate_record, pure,
}
use ffmuc_salt_public.Cloudflare.Data.{json, synthesize, show_record}
use ffmuc_salt_public.Cloudflare.Data.Show.{show_record_hides_ttl}
use ffmuc_salt_public.Cloudflare.Zone.{
  Zone, ZoneDict, Api, Request, Reply, response, zone_body, page_body, other_body, zone_uri,
  records_uri, Uri, add_record_uri, remove_record_uri, update_record_uri, World, init, request,
  request_of, add_record, remove_record, headers, get, desired,
}
use ffmuc_salt_public.Cloudflare.Zone.Desired.{IsInvocation, desired_errors}
use ffmuc_salt_public.Cloudflare.Sanity.{
  check_records, no_names, sanity_check, check_zone, found_name,
}
use ffmuc_salt_public.Cloudflare.Sanity.Accepts.{is_sane, check_records-is_sane}
use ffmuc_salt_public.Cloudflare.Existing.{
  existing, pages, found_page, add_page, add_dict, is_excluded,
}
use ffmuc_salt_public.Cloudflare.Existing.Pages.{Serves, all_pages, last_page, existing-reads_all}
use ffmuc_salt_public.Cloudflare.Existing.Exclude.{Kept, existing-Kept}
use ffmuc_salt_public.Cloudflare.Order.{
  Op, add, remove, ordered, is_cname_op, is_primary, special_apply_order, regular_apply_order,
}
use ffmuc_salt_public.Cloudflare.Order.Grouping.{of_name}
use ffmuc_salt_public.Cloudflare.Order.ByName.{order_of, of_name-ordered}
use ffmuc_salt_public.Cloudflare.Order.Rearranges.{ordered-perm}
use ffmuc_salt_public.Cloudflare.Diff.{Key, key_eq, key, collect, collect_managed, diff}
use ffmuc_salt_public.Cloudflare.Diff.Keys.{IsWalk}
use ffmuc_salt_public.Cloudflare.Diff.AtKey.{after}
use ffmuc_salt_public.Cloudflare.Diff.Held.{target}
use ffmuc_salt_public.Cloudflare.Diff.Target.{diff-target}
use ffmuc_salt_public.Cloudflare.Diff.Settled.{diff-settled}
use ffmuc_salt_public.Cloudflare.Manage.{Env, apply, apply_op, manage_zone_records}
use ffmuc_salt_public.Cloudflare.Manage.Requests.{
  IsGet, HasHeaders, dry_run-IsGet, run-HasHeaders, failed_check-sent,
}
use ffmuc_salt_public.Cloudflare.Manage.Effects.{op_requests}

abbrev web : Record
web = record {
  id = some "r1";
  type = "A";
  name = "web.example.com";
  content = "10.0.0.1";
  priority = none;
  proxied = false;
  ttl = 1;
  salt_managed = true;
}

-- The same name as an alias
abbrev alias : Record
alias = record {
  id = none;
  type = "CNAME";
  name = "web.example.com";
  content = "example.com";
  priority = none;
  proxied = false;
  ttl = 300;
  salt_managed = true;
}

abbrev web_dict : RecordDict
web_dict = record {
  id = some "r1";
  type = some "A";
  name = some "web.example.com";
  content = some "10.0.0.1";
  priority = none;
  proxied = none;
  ttl = none;
  salt_managed = none;
}

abbrev alias_dict : RecordDict
alias_dict = record {
  id = none;
  type = some "CNAME";
  name = some "web.example.com";
  content = some "example.com";
  priority = none;
  proxied = none;
  ttl = some 300;
  salt_managed = none;
}

abbrev zone_dict : ZoneDict
zone_dict = record {
  api_token = some "token";
  auth_email = none;
  auth_key = none;
  zone_id = some "z1";
  records = some (alias_dict ∷ []);
  exclude = some ("static" ∷ []);
}

abbrev zone : Zone
zone = record {
  name = "example.com";
  api_token = some "token";
  auth_email = none;
  auth_key = none;
  zone_id = "z1";
  records = alias_dict ∷ [];
  exclude = "static" ∷ [];
}

abbrev answer : Uri → Reply
answer (zone_uri z) = response true 200 "" (zone_body "example.com")
answer (records_uri z n) = response true 200 "" (page_body (web_dict ∷ []) n 1)
answer (add_record_uri z) = response true 200 "" other_body
answer (remove_record_uri z r) = response true 200 "" other_body
answer (update_record_uri z r) = response true 200 "" other_body

-- An API that serves one page with the record `web` and accepts every change.
abbrev api : Api
api = record { State = Unit {0}; send = λ r s. (answer r.uri, s) }

abbrev walk : List Key → List Key
walk ks = ks

walk-IsWalk : IsWalk walk
walk-IsWalk ks d = (d, λ k. refl)

abbrev env : Env
env = record { api = api; matches = λ p s. p == s; walk = walk; rounds = 2 }

abbrev start : World api
start = record { server = tt; sent = [] }

abbrev ops : List Op
ops = record { action = add; subject = alias } ∷ record { action = remove; subject = web } ∷ []
