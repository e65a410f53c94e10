-- ===== src/Cloudflare/Sanity.antt =====
-- _states/cloudflare.py: `Zone.sanity_check`.
pub mod Accepts
use ffmuc_salt_public.Prelude.{
  String, ◌<>◌, Bool, none, not, ◌&&◌, ◌||◌, List, [], ◌∷◌, contains, ltb, if◌then◌else◌, ◌==◌,
  string_eq, nat_eq,
}
use ffmuc_salt_public.Prelude.Numbers.{show_ℕ}
use ffmuc_salt_public.Prelude.Result.{
  Error, Result, ok, err, exception, key_error, salt_invocation_error, value_error,
  command_execution_error, os_error, runtime_error, unbound_error, overflow_error, index_error,
  type_error, attribute_error, raise_if, ◌>>=◌, ◌>>◌,
}
use ffmuc_salt_public.Prelude.Text.{ends_with}
use ffmuc_salt_public.Prelude.Exec
use ffmuc_salt_public.Prelude.Exec.{Exec}
use ffmuc_salt_public.Cloudflare.Record.{Record}
use ffmuc_salt_public.Cloudflare.Data.{synthesize, show_record}
use ffmuc_salt_public.Cloudflare.Zone.{
  Zone, Api, World, Body, zone_body, page_body, other_body, no_json, zone_uri, get, request,
  desired,
}

-- The two sets of names that the loop fills.
pub record Names : Type 0 where
  pub a_names : List String
  pub cnames : List String

abbrev pub no_names : Names
no_names = record { a_names = []; cnames = [] }

abbrev pub is_address : Record → Bool
is_address r = r.type == "A" || r.type == "AAAA"

abbrev pub is_cname : Record → Bool
is_cname r = r.type == "CNAME"

abbrev pub in_zone : String → Record → Bool
in_zone zone r = ends_with r.name ("." <> zone) || r.name == zone

check_shape : String → Record → Result (Unit {0})
check_shape zone r = do
  raise_if (not (in_zone zone r))
      (exception ("Record " <> (r.name <> (" does not belong to zone " <> zone))))
  raise_if (not (r.ttl == 1) && ltb r.ttl 120)
      (exception ("Record " <> (r.name <> (" has invalid TTL: " <> show_ℕ r.ttl))))
  raise_if (not (r.ttl == 1) && r.proxied) (
      exception (
        "Record "
        <> (r.name <> " has TTL set, but TTL for proxied records is managed by Cloudflare")))

-- `str(e)`
unfoldable pub message : Error → String
message (salt_invocation_error s) = s
message (command_execution_error s) = s
message (key_error s) = "'" <> (s <> "'")
message (value_error s) = s
message index_error = "Replacement index out of range for positional args tuple"
message type_error = ""
message attribute_error = ""
message (unbound_error s) = s
message (overflow_error s) = s
message (os_error s) = s
message (runtime_error s) = s
message (exception s) = s

-- `try: record.data() except Exception as e: raise …`
check_data : Record → Result (Unit {0})
check_data r = elim (synthesize r) [
  | ok d ↦ ok tt
  | err e ↦ do
    text ← show_record r
    err (exception ("Record " <> (text <> (" cannot synthesize data from content: " <> message e))))
]

abbrev both : Record → Error
both r = exception ("Record " <> (r.name <> " has both A/AAAA and CNAME records"))

check_address : Record → Names → Result Names
check_address r n =
    if is_address r
    then (if contains n.cnames r.name
        then err (both r)
        else ok (record { a_names = r.name ∷ n.a_names; cnames = n.cnames }))
    else ok n

check_cname : Record → Names → Result Names
check_cname r n =
    if is_cname r
    then (if contains n.cnames r.name
        then err (exception ("Record " <> (r.name <> " has serveral CNAME records")))
        else if contains n.a_names r.name
        then err (both r)
        else ok (record { a_names = n.a_names; cnames = r.name ∷ n.cnames }))
    else ok n

-- One round of the loop over the desired records.
unfoldable pub check_record : String → Record → Names → Result Names
unfolding check_shape check_data check_address check_cname
check_record zone r n = do
  check_shape zone r
  check_data r
  n' ← check_address r n
  check_cname r n'

unfoldable pub check_records : String → List Record → Names → Result Names
unfolding check_record
check_records zone [] n = ok n
check_records zone (r ∷ rest) n = do n' ← check_record zone r n; check_records zone rest n'

-- `found["result"]["name"]`
unfoldable pub found_name : Body → Result String
found_name (zone_body name) = ok name
found_name (page_body result page total) = err type_error
found_name other_body = err (key_error "result")
found_name no_json = err (key_error "result")

unfoldable pub check_zone : Zone → Body → Result Names
unfolding found_name check_records
check_zone z found = do
  name ← found_name found
  raise_if (not (z.name == name))
      (exception ("Zone name does not match: " <> (z.name <> (" != " <> name))))
  records ← desired z
  check_records z.name records no_names

module _ (api : Api) where
  -- `sanity_check`
  unfoldable pub sanity_check : Zone → Exec (World api) Names
  unfolding check_zone
  sanity_check z =
      Exec.◌>>=◌ (request api z (zone_uri z.zone_id) get none)
        λ found. Exec.lift (check_zone z found)
