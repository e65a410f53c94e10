-- ===== src/Pillar/Examples.antt =====
-- Runs of the model of _pillar/netbox.py against a small Netbox.
use ffmuc_salt_public.Prelude.{
  String, ◌≡◌, refl, false, none, some, ◌⊎◌, inl, List, [], ◌∷◌, ◌++◌, if◌then◌else◌, ◌==◌,
  string_eq, nat_eq,
}
use ffmuc_salt_public.Prelude.Dict.{Dict}
use ffmuc_salt_public.Prelude.Numbers.{show_ℕ}
use ffmuc_salt_public.Prelude.Json.{
  Json, null, num, str, arr, obj, end, get, items, elements, object,
}
use ffmuc_salt_public.Prelude.Result.{ok, err, key_error}
use ffmuc_salt_public.Pillar.Api.{Kwargs, Settings, Request, Response, settings}
use ffmuc_salt_public.Pillar.Interfaces.{go, app_of, add_addresses}
use ffmuc_salt_public.Pillar.Interfaces.Assigned.{addresses_of, assigned_to, add_addresses-assigned}
use ffmuc_salt_public.Pillar.Run.{netbox, ext_pillar}
use ffmuc_salt_public.Pillar.Run.Keys.{ext_pillar-keys}
use ffmuc_salt_public.Pillar.Run.Failures.{failed_query-raises}

abbrev kwargs : Kwargs
kwargs = record {
  api_url = some "api/";
  api_token = some "t";
  site_details = none;
  site_prefixes = none;
  proxy_username = none;
  proxy_return = none;
}

abbrev base : Settings
base = record { api_url = "api"; headers = ("Authorization", "Token t") ∷ [] }

abbrev one : Dict String Json → Json
one d = obj (object d)

abbrev body : Json → Response
body v = record { error = none; status = none; body = some v }

abbrev listing : List Json → Response
listing vs = body (one (("results", arr (items vs)) ∷ []))

abbrev address : Json
address = one (("assigned_object_id", num 3) ∷ ("address", str "10.0.0.1/24") ∷ [])

abbrev platform : Json
platform = one (("url", str "p") ∷ [])

abbrev http : Request → Response
http request =
    if request.url == "api/dcim/devices"
    then listing (one (("id", num 7) ∷ []) ∷ [])
    else if request.url == "api/dcim/devices/7/"
    then body (
        one (
          ("site", null)
          ∷ ("tags", arr (items (one (("slug", str "x") ∷ []) ∷ [])))
          ∷ ("platform", platform)
          ∷ []))
    else if request.url == "api/dcim/interfaces/"
    then listing (one (("name", str "eth0") ∷ []) ∷ [])
    else if request.url == "api/ipam/ip-addresses/"
    then listing (address ∷ [])
    else if request.url == "api/dcim/interfaces/3/"
    then body (one (("name", str "eth0") ∷ []))
    else if request.url == "p"
    then body (one (("napalm_driver", str "junos") ∷ []))
    else listing []

abbrev repr : Json → String
repr v = "?"

abbrev interface : List Json → Json
interface list = one (("name", str "eth0") ∷ ("ipaddresses", arr (items list)) ∷ [])

abbrev device : Json
device = one (
    ("site", null)
    ∷ ("tags", arr (items (one (("slug", str "x") ∷ []) ∷ [])))
    ∷ ("platform", platform)
    ∷ ("interfaces", one (("eth0", interface (address ∷ [])) ∷ []))
    ∷ ("tag_list", arr (items (str "x" ∷ [])))
    ∷ [])

-- The platform has a driver, and still there is no key "proxy".
pillar_runs : ext_pillar http repr kwargs "gw" ≡ ok (netbox device)
unfolding ext_pillar object items string_eq nat_eq show_ℕ
pillar_runs = refl

ext_pillar-keys_example : (netbox device ≡ end) ⊎ ((d : Json) × (netbox device ≡ netbox d))
ext_pillar-keys_example = ext_pillar-keys http kwargs repr "gw" (netbox device) pillar_runs

abbrev bare : Json
bare = one (("interfaces", one (("eth0", interface []) ∷ [])) ∷ [])

abbrev filled : Json
filled = one (("interfaces", one (("eth0", interface (address ∷ [])) ∷ [])) ∷ [])

bare_app : app_of bare ≡ ok "dcim"
unfolding app_of object string_eq
bare_app = refl

loop_runs : add_addresses http repr base (address ∷ []) bare none ≡ ok (go filled (some address))
unfolding add_addresses object items string_eq nat_eq show_ℕ
loop_runs = refl

bare_addresses : addresses_of "eth0" bare ≡ some []
unfolding get object items elements string_eq
bare_addresses = refl

add_addresses-assigned_example :
    addresses_of "eth0" filled
    ≡ some ([] ++ assigned_to http repr base "dcim" "eth0" (address ∷ []))
add_addresses-assigned_example =
    add_addresses-assigned http repr base (address ∷ []) bare filled none (some address) "dcim"
      "eth0" [] bare_app loop_runs bare_addresses

-- What salt.utils.http.query returns where Netbox refuses
abbrev refused : Request → Response
refused request = record { error = some "HTTP 403: Forbidden"; status = some 403; body = none }

base_run : settings kwargs ≡ ok base
unfolding settings string_eq
base_run = refl

not_master : (◌==◌ {A = String} "gw" "*") ≡ false
unfolding string_eq
not_master = refl

failed_query-raises_example :
    (key : String) × (ext_pillar refused repr kwargs "gw" ≡ err (key_error key))
failed_query-raises_example =
    failed_query-raises refused repr kwargs base "gw" base_run not_master (inl refl)
