-- ===== src/Cloudflare/Examples/Runs.antt =====
-- Runs of the model of _states/cloudflare.py on a small zone: checks, pages and whole runs.

use ffmuc_salt_public.Prelude.{
  ◌≤◌, ◌≡◌, refl, true, false, none, [], ◌∷◌, All, ◌==◌, string_eq, nat_eq, option_eq, bool_eq,
  arith,
}
use ffmuc_salt_public.Prelude.Dict.{insert, values}
use ffmuc_salt_public.Prelude.Result.{ok, err, is_ok, salt_invocation_error, exception, ◌>>=◌}
use ffmuc_salt_public.Cloudflare.Record.{record_eq, record_from_dict, validate_record}
use ffmuc_salt_public.Cloudflare.Zone.{Zone, zone_uri, init, request, request_of, get, desired}
use ffmuc_salt_public.Cloudflare.Sanity.{
  check_records, no_names, sanity_check, check_zone, found_name,
}
use ffmuc_salt_public.Cloudflare.Sanity.Accepts.{is_sane, check_records-is_sane}
use ffmuc_salt_public.Cloudflare.Existing.{
  existing, pages, found_page, add_page, add_dict, is_excluded,
}
use ffmuc_salt_public.Cloudflare.Existing.Pages.{Serves, all_pages, last_page, existing-reads_all}
use ffmuc_salt_public.Cloudflare.Existing.Exclude.{Kept, existing-Kept}
use ffmuc_salt_public.Cloudflare.Diff.{key_eq}
use ffmuc_salt_public.Cloudflare.Manage.{manage_zone_records}
use ffmuc_salt_public.Cloudflare.Manage.Requests.{IsGet, dry_run-IsGet, failed_check-sent}
use ffmuc_salt_public.Cloudflare.Examples.{web, alias, web_dict, zone_dict, zone, api, env, start}

check_records-is_sane_example :
    is_ok (check_records "example.com" (web ∷ alias ∷ []) no_names)
    ≡ is_sane "example.com" (web ∷ alias ∷ [])
check_records-is_sane_example = check_records-is_sane "example.com" (web ∷ alias ∷ [])

abbrev nameless : Zone
nameless = record zone { records = record web_dict { name = none } ∷ [] }

nameless_runs : desired nameless ≡ err (salt_invocation_error "'name' is required")
unfolding desired validate_record
nameless_runs = refl

api-Serves : Serves api zone (λ n. web_dict ∷ []) 1
unfolding request_of
api-Serves n s = refl

existing-reads_all_example : (existing (λ p s. p == s) api 2 zone start).0 ≡ (do
  found ← add_page (λ p s. p == s) zone.exclude (all_pages (λ n. web_dict ∷ []) 1 (last_page 1)) []
  ok (values found))
existing-reads_all_example =
    existing-reads_all (λ p s. p == s) api zone (λ n. web_dict ∷ []) 1 api-Serves 2 start two
  where
    two : last_page 1 ≤ 2
    two = ground arith

existing_runs : (existing (λ p s. p == s) api 2 zone start).0 ≡ ok (web ∷ [])
unfolding existing pages request found_page add_page add_dict record_from_dict is_excluded insert
    values string_eq nat_eq option_eq request_of
existing_runs = refl

existing-Kept_example : All (Kept (λ p s. p == s) ("static" ∷ [])) (web ∷ [])
existing-Kept_example = existing-Kept (λ p s. p == s) api zone 2 start (web ∷ []) existing_runs

dry_run-IsGet_example :
    All IsGet (manage_zone_records env true "example.com" zone_dict start).1.sent
dry_run-IsGet_example = dry_run-IsGet env "example.com" zone_dict start tt

init_runs : init "example.com" zone_dict ≡ ok zone
unfolding init string_eq
init_runs = refl

-- A zone of another name
renamed_runs :
    (sanity_check api (record zone { name = "example.net" }) start).0
    ≡ err (exception "Zone name does not match: example.net != example.com")
unfolding sanity_check request found_name check_zone string_eq request_of
renamed_runs = refl

other_init : init "example.net" zone_dict ≡ ok (record zone { name = "example.net" })
unfolding init string_eq
other_init = refl

failed_check-sent_example :
    (manage_zone_records env false "example.net" zone_dict start).1.sent
    ≡ request_of (record zone { name = "example.net" }) (zone_uri "z1") get none ∷ []
failed_check-sent_example =
    failed_check-sent env false "example.net" zone_dict (record zone { name = "example.net" })
      (exception "Zone name does not match: example.net != example.com") start other_init
      renamed_runs
