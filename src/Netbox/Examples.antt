-- ===== src/Netbox/Examples.antt =====
-- Runs of the model of the Netbox lookups on small answers.
use ffmuc_salt_public.Prelude.{
  String, ◌<>◌, ◌≡◌, refl, true, none, some, List, [], ◌∷◌, string_eq, nat_eq,
}
use ffmuc_salt_public.Prelude.Dict.{lookup, insert}
use ffmuc_salt_public.Prelude.Text.{split}
use ffmuc_salt_public.Prelude.Result.{Result, ok, err, os_error, command_execution_error}
use ffmuc_salt_public.Netbox.Query.{Request, Response, query, attempt, guarded, results_of, message}
use ffmuc_salt_public.Netbox.Lookups.{
  Prefix, Host, Entry, authorization, get_site_prefixes, add_prefixes, get_extra_dns_entries,
  add_hosts, host_entry,
}
use ffmuc_salt_public.Netbox.Lookups.Closed.{Answered}
use ffmuc_salt_public.Netbox.Lookups.Latest.{latest, get_site_prefixes-latest}
use ffmuc_salt_public.Netbox.Lookups.Addresses.{latest_addresses, get_extra_dns_entries-latest}

abbrev lan : Prefix
lan = record { description = some "lan"; json = "10.0.0.0/24" }

abbrev prefixes_get : Request → Result (Response Prefix)
prefixes_get request =
    ok (record { succeeded = true; status_code = 200; body = some (some (lan ∷ [])) })

prefixes_run : get_site_prefixes prefixes_get "api" "token" "site=1" ≡ ok (("lan", lan) ∷ [])
unfolding get_site_prefixes query attempt guarded add_prefixes insert results_of
prefixes_run = refl

get_site_prefixes-latest_example :
    (results : List Prefix) × Answered prefixes_get
      (record {
        url = "api" <> ("/ipam/prefixes/?" <> "site=1");
        headers = authorization "token" ∷ [];
      })
      results
    × ((description : String)
        → lookup description (("lan", lan) ∷ []) ≡ latest description none results)
get_site_prefixes-latest_example =
    get_site_prefixes-latest prefixes_get "api" "token" "site=1" (("lan", lan) ∷ []) prefixes_run

abbrev gateway : Host
gateway = record {
  name = some "gw";
  primary_ip4 = some (some (some "10.0.0.1/24"));
  primary_ip6 = some none;
}

abbrev hosts_get : Request → Result (Response Host)
hosts_get request =
    ok (record { succeeded = true; status_code = 200; body = some (some (gateway ∷ [])) })

abbrev gateway_entry : Entry
gateway_entry = record { address = some "10.0.0.1"; address6 = none }

hosts_run :
    get_extra_dns_entries hosts_get "api" "token" "role=gw" ≡ ok (("gw", gateway_entry) ∷ [])
unfolding get_extra_dns_entries query attempt guarded add_hosts host_entry insert results_of split
    string_eq nat_eq
hosts_run = refl

get_extra_dns_entries-latest_example :
    (results : List Host) × Answered hosts_get
      (record {
        url = "api" <> ("/dcim/devices/?" <> "role=gw");
        headers = authorization "token" ∷ [];
      })
      results
    × ((name : String)
        → lookup name (("gw", gateway_entry) ∷ []) ≡ latest_addresses name none results)
get_extra_dns_entries-latest_example =
    get_extra_dns_entries-latest hosts_get "api" "token" "role=gw" (("gw", gateway_entry) ∷ [])
      hosts_run

abbrev down : Request → Result (Response Prefix)
down request = err (os_error "timed out")

down_runs :
    query down "lookup" "url" [] ≡ err (command_execution_error "lookup failed (url): timed out")
unfolding query attempt guarded message
down_runs = refl
