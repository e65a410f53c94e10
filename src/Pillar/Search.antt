-- ===== src/Pillar/Search.antt =====
-- _pillar/netbox.py: `ext_pillar`, from the search of the device to its details and the services.
use ffmuc_salt_public.Prelude.{
  String, Bool, true, false, Option, none, some, is_some, List, [], ◌∷◌, if◌then◌else◌,
}
use ffmuc_salt_public.Prelude.Json.{Json, str, obj, end, item, set_item, is_in, first}
use ffmuc_salt_public.Prelude.Result.{Result, ok, ◌>>=◌}
use ffmuc_salt_public.Pillar.Api.{
  Settings, Request, Response, list_url, item_url, required, results, result_list, log_failure,
  name_of,
}

module _ (http : Request → Response) (repr : Json → String) (s : Settings) where
  -- A query without parameters
  abbrev pub get : String → Response
  get url = http (record { url = url; params = []; headers = s.headers })

  abbrev pub search_request : String → String → String → Request
  search_request app endpoint minion_id = record {
    url = list_url s app endpoint;
    params = ("name", str minion_id) ∷ [];
    headers = s.headers;
  }

  abbrev or_vm : Response → String → List Json → Response
  or_vm found minion_id [] = http (search_request "virtualization" "virtual-machines" minion_id)
  or_vm found minion_id (v ∷ vs) = found

  -- `search_results`: the devices of the minion's name, or the virtual machines, where there is none
  unfoldable pub search : String → Result Response
  unfolding result_list
  search minion_id =
      let found = http (search_request "dcim" "devices" minion_id) in
      result_list found >>= λ devices. ok (or_vm found minion_id devices)

  abbrev pub is_single : List Json → Bool
  is_single [] = false
  is_single (v ∷ []) = true
  is_single (v ∷ w ∷ vs) = false

  -- The result of a search that found just one; None stands for `return ret`.
  unfoldable pub only_result : Response → Result (Option Json)
  unfolding result_list log_failure first
  only_result found =
      if is_some found.error
      then (log_failure found >>= λ text. ok none)
      else (result_list found >>= λ list.
          if is_single list then (results found >>= λ r. first r >>= λ v. ok (some v)) else ok none)

  -- The URL of the details: a device has no "vcpus".
  unfoldable pub details_url : Json → Result String
  unfolding is_in item
  details_url found = do
    is_vm ← is_in "vcpus" found
    id ← item "id" found
    ok (
        if is_vm
        then item_url repr s "virtualization" "virtual-machines" id
        else item_url repr s "dcim" "devices" id)

  -- `device_results["dict"]`; None stands for `return ret`. The lines that log a failure read the keys
  -- of the search, not of the details.
  unfoldable pub details : Response → Json → Result (Option Json)
  unfolding details_url log_failure
  details search_results found = do
    url ← details_url found
    if is_some (get url).error
        then (log_failure search_results >>= λ text. ok none)
        else (required "dict" (get url).body >>= λ device. ok (some device))

  unfoldable pub add_services : List Json → Json → Result Json
  unfolding item set_item name_of
  add_services [] services = ok services
  add_services (service ∷ rest) services = do
    name ← item "name" service
    key ← name_of name
    added ← set_item key service services
    add_services rest added

  -- `ret["netbox"]["services"]`, from all the services that Netbox lists
  unfoldable pub with_services : Json → Result Json
  unfolding add_services result_list set_item
  with_services device = do
    services ← result_list (get (list_url s "ipam" "services"))
    elim services [
      | [] ↦ ok device
      | v ∷ vs ↦ add_services (v ∷ vs) (obj end) >>= λ named. set_item "services" named device
    ]
