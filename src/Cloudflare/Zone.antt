-- ===== src/Cloudflare/Zone.antt =====
-- _states/cloudflare.py: the class `Zone`, its construction, `_request` and the three requests that
-- change a record, and `desired`. Cloudflare is the parameter `Api`.
pub mod Desired
use ffmuc_salt_public.Prelude.{
  ℕ, String, ◌<>◌, Bool, true, false, Option, none, some, not, ◌&&◌, ◌||◌, List, [], ◌∷◌, ◌++◌,
  if◌then◌else◌, ◌==◌, string_eq,
}
use ffmuc_salt_public.Prelude.Numbers.{show_ℕ}
use ffmuc_salt_public.Prelude.Result
use ffmuc_salt_public.Prelude.Result.{Error, Result, ok, err, exception, value_error}
use ffmuc_salt_public.Prelude.Exec.{Exec, pure, raise, lift, ◌>>=◌, ◌>>◌}
use ffmuc_salt_public.Cloudflare.Record.{
  RecordDict, Record, required, validate_record, record_from_dict,
}
use ffmuc_salt_public.Cloudflare.Data.{Payload, json}

-- The pillar's dict of a zone, one optional field for each key that the code reads.
pub record ZoneDict : Type 0 where
  pub api_token : Option String
  pub auth_email : Option String
  pub auth_key : Option String
  pub zone_id : Option String
  pub records : Option (List RecordDict)
  pub exclude : Option (List String)

pub record Zone : Type 0 where
  pub name : String
  pub api_token : Option String
  pub auth_email : Option String
  pub auth_key : Option String
  pub zone_id : String
  pub records : List RecordDict
  pub exclude : List String

-- The truth value of an optional text: None and "" are false.
unfoldable pub is_given : Option String → Bool
is_given none = false
is_given (some s) = not (s == "")

or_empty : Option (List String) → List String
or_empty none = []
or_empty (some xs) = xs

-- `Zone(name, zone)`
unfoldable pub init : String → ZoneDict → Result Zone
unfolding is_given or_empty
init name zone = Result.◌>>=◌ (required "zone_id" zone.zone_id) λ zone_id.
    Result.◌>>=◌ (required "records" zone.records) λ records.
      if not (is_given zone.api_token) && not (is_given zone.auth_email && is_given zone.auth_key)
      then err (exception "Either api_token or auth_email and auth_key must be provided")
      else ok (record {
        name = name;
        api_token = zone.api_token;
        auth_email = zone.auth_email;
        auth_key = zone.auth_key;
        zone_id = zone_id;
        records = records;
        exclude = or_empty zone.exclude;
      })

pub data Method : Type 0 where
  get post put delete : Method

-- A URI is one of the class's templates with the values of its fields.
pub data Uri : Type 0 where
  zone_uri : (zone_id : String) → Uri
  records_uri : (zone_id : String) (page : ℕ) → Uri
  add_record_uri : (zone_id : String) → Uri
  remove_record_uri : (zone_id : String) (record_id : Option String) → Uri
  update_record_uri : (zone_id : String) (record_id : Option String) → Uri

show_id : Option String → String
show_id none = "None"
show_id (some s) = s

abbrev zones : String
zones = "https://api.cloudflare.com/client/v4/zones/"

unfoldable pub uri_text : Uri → String
unfolding show_id
uri_text (zone_uri z) = zones <> z
uri_text (records_uri z page) =
    zones <> (z <> ("/dns_records?page=" <> (show_ℕ page <> "&per_page=50")))
uri_text (add_record_uri z) = zones <> (z <> "/dns_records")
uri_text (remove_record_uri z r) = zones <> (z <> ("/dns_records/" <> show_id r))
uri_text (update_record_uri z r) = zones <> (z <> ("/dns_records/" <> show_id r))

pub data Headers : Type 0 where
  bearer : (token : String) → Headers
  auth : (email key : Option String) → Headers

pub record Request : Type 0 where
  pub method : Method
  pub uri : Uri
  pub headers : Headers
  pub payload : Option Payload

-- The decoded body, as far as the code reads it: the zone's name, a page of records with the
-- page's number and the number of pages, some other JSON, or none.
pub data Body : Type 0 where
  zone_body : (name : String) → Body
  page_body : (result : List RecordDict) (page total_pages : ℕ) → Body
  other_body : Body
  no_json : Body

-- The `requests` library returns a response, with its attribute `ok`, or raises.
pub data Reply : Type 0 where
  response : (succeeded : Bool) (status_code : ℕ) (text : String) (body : Body) → Reply
  failed : Error → Reply

-- Cloudflare behind the `requests` library: a state of its own, and the reply to a request.
pub record Api : Type 1 where
  pub State : Type 0
  pub send : Request → State → Reply × State

-- The state of a run: the API's, and the requests in the order in which they are logged and sent.
pub record World (api : Api) : Type 0 where
  pub server : api.State
  pub sent : List Request

abbrev pub headers : Zone → Headers
headers z = elim z.api_token [
  | none ↦ auth z.auth_email z.auth_key
  | some token ↦ if token == "" then auth z.auth_email z.auth_key else bearer token
]

abbrev pub receive : Reply → Result Body
receive (failed e) = err e
receive (response true status text no_json) = err (value_error "invalid JSON")
receive (response true status text body) = ok body
receive (response false status text body) =
    err (exception ("Got HTTP code " <> (show_ℕ status <> (": " <> text))))

-- GET and DELETE pass no `json` on.
abbrev body_of : Method → Option Payload → Option Payload
body_of get p = none
body_of post p = p
body_of put p = p
body_of delete p = none

unfoldable pub request_of : Zone → Uri → Method → Option Payload → Request
request_of z uri method payload = record {
  method = method;
  uri = uri;
  headers = headers z;
  payload = body_of method payload;
}

module _ (api : Api) where
  -- `_request`
  unfoldable pub request : Zone → Uri → Method → Option Payload → Exec (World api) Body
  unfolding request_of
  request z uri method payload w =
      let r = request_of z uri method payload in
      let (reply, server) = api.send r w.server in
      (receive reply, record { server = server; sent = w.sent ++ (r ∷ []) })

  -- `_add_record`
  unfoldable pub add_record : Zone → Record → Exec (World api) Body
  add_record z r = do
    payload ← lift (json r)
    request z (add_record_uri z.zone_id) post (some payload)

  -- `_remove_record`
  unfoldable pub remove_record : Zone → Record → Exec (World api) Body
  remove_record z r = request z (remove_record_uri z.zone_id r.id) delete none

  -- `_update_record`: the URI's template is filled in before `json` is called, and neither shows.
  unfoldable pub update_record : Zone → Record → Exec (World api) Body
  update_record z r = do
    payload ← lift (json r)
    request z (update_record_uri z.zone_id r.id) put (some payload)

validate_all : List RecordDict → Result (Unit {0})
validate_all [] = ok tt
validate_all (r ∷ rest) = Result.◌>>◌ (validate_record r) (validate_all rest)

convert_all : List RecordDict → Result (List Record)
convert_all [] = ok []
convert_all (r ∷ rest) =
    Result.◌>>=◌ (record_from_dict r) λ x. Result.◌>>=◌ (convert_all rest) λ xs. ok (x ∷ xs)

-- `desired`. The source converts lazily; `convert_all` raises on no validated list.
unfoldable pub desired : Zone → Result (List Record)
unfolding validate_all convert_all
desired z = Result.◌>>◌ (validate_all z.records) (convert_all z.records)
