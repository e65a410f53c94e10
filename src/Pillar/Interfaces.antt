-- ===== src/Pillar/Interfaces.antt =====
-- _pillar/netbox.py: `ext_pillar`, the interfaces and their addresses.
pub mod Adding
pub mod Assigned
use ffmuc_salt_public.Prelude.{
  ℕ, String, Bool, true, false, not, Option, none, some, is_some, List, [], ◌∷◌, if◌then◌else◌,
}
use ffmuc_salt_public.Prelude.Json.{
  Json, num, str, arr, nil, obj, Fields, end, item, set_item, is_in, append, iterate,
}
use ffmuc_salt_public.Prelude.Result.{Result, ok, err, ◌>>=◌, ◌>>◌}
use ffmuc_salt_public.Pillar.Api.{
  Settings, Request, Response, list_url, item_url, required, results, result_list, log_failure,
  name_of,
}
use ffmuc_salt_public.Pillar.Search.{get}

-- How a part of `ext_pillar` ends: with `return ret`, or by going on. The value is `ret["netbox"]`;
-- `last` is the local variable `ipaddress`, which is unbound before the loop has run.
pub data Flow : Type 0 where
  returned : Json → Flow
  go : Json → (last : Option Json) → Flow

abbrev pub if_go : Flow → (Json → Option Json → Result Flow) → Result Flow
if_go (returned device) next = ok (returned device)
if_go (go device last) next = next device last

-- `f(ret["netbox"]["interfaces"])`, put back
unfoldable pub in_interfaces : (Json → Result Json) → Json → Result Json
unfolding item set_item
in_interfaces f device = item "interfaces" device >>= λ interfaces.
    f interfaces >>= λ changed. set_item "interfaces" changed device

-- `interfaces[interface["name"]] = interface`, and its empty list of addresses
unfoldable pub add_interface : Json → Json → Result Json
unfolding item set_item name_of
add_interface interface interfaces = do
  name ← item "name" interface
  key ← name_of name
  bare ← set_item "ipaddresses" (arr nil) interface
  set_item key bare interfaces

unfoldable pub add_interfaces : List Json → Json → Result Json
unfolding add_interface
add_interfaces [] interfaces = ok interfaces
add_interfaces (interface ∷ rest) interfaces =
    add_interface interface interfaces >>= add_interfaces rest

-- The list of an interface with one more address. The list is made where there is none.
unfoldable pub append_address : Json → Json → Result Json
unfolding item set_item is_in append
append_address address interface = do
  has_list ← is_in "ipaddresses" interface
  ready ← if has_list then ok interface else set_item "ipaddresses" (arr nil) interface
  list ← item "ipaddresses" ready
  longer ← append address list
  set_item "ipaddresses" longer ready

-- The end of the loop's body: an interface of the name is put in where there is none.
unfoldable pub add_address : String → Json → Json → Json → Result Json
unfolding append_address item set_item is_in
add_address key found address interfaces = do
  is_known ← is_in key interfaces
  known ← if is_known then ok interfaces else set_item key found interfaces
  interface ← item key known
  changed ← append_address address interface
  set_item key changed known

-- "virtualization", or "dcim"
unfoldable pub app_of : Json → Result String
unfolding is_in
app_of device = is_in "vcpus" device >>= λ is_vm. ok (if is_vm then "virtualization" else "dcim")

unfoldable pub query_param : Json → Result String
unfolding is_in
query_param device =
    is_in "vcpus" device >>= λ is_vm. ok (if is_vm then "virtual_machine_id" else "device_id")

module _ (http : Request → Response) (repr : Json → String) (s : Settings) where
  -- The response for the interface that an address is assigned to
  unfoldable pub assigned : Json → Json → Result Response
  unfolding app_of item
  assigned device address = do
    id ← item "assigned_object_id" address
    app ← app_of device
    ok (get http repr s (item_url repr s app "interfaces" id))

  -- What the body of the loop does with the response: an error ends `ext_pillar`.
  unfoldable pub with_response : Json → Json → Response → Result Flow
  unfolding in_interfaces add_address log_failure item name_of
  with_response device address response =
      if is_some response.error
      then (log_failure response >>= λ text. ok (returned device))
      else (do
        found ← required "dict" response.body
        name ← item "name" found
        key ← name_of name
        changed ← in_interfaces (add_address key found address) device
        ok (go changed (some address)))

  -- The loop over the addresses
  unfoldable pub add_addresses : List Json → Json → Option Json → Result Flow
  unfolding assigned with_response
  add_addresses [] device last = ok (go device last)
  add_addresses (address ∷ rest) device last = assigned device address >>= λ response.
      with_response device address response >>= λ flow. if_go flow (add_addresses rest)

  -- The interfaces of the device; an error ends `ext_pillar`.
  unfoldable pub with_interfaces : Json → Json → Result Flow
  unfolding app_of query_param item set_item add_interfaces in_interfaces result_list log_failure
  with_interfaces id device = do
    app ← app_of device
    param ← query_param device
    empty ← set_item "interfaces" (obj end) device
    let response = http (record {
      url = list_url s app "interfaces/";
      params = (param, id) ∷ ("limit", num 1000) ∷ [];
      headers = s.headers;
    })
    if is_some response.error then (log_failure response >>= λ text. ok (returned empty)) else (do
      list ← result_list response
      filled ← in_interfaces (add_interfaces list) empty
      ok (go filled none))

  -- The addresses of the device, each with its interface
  unfoldable pub with_addresses : Json → Json → Result Flow
  unfolding query_param add_addresses result_list log_failure
  with_addresses id device = do
    param ← query_param device
    let response = http (record {
      url = list_url s "ipam" "ip-addresses/";
      params = (param, id) ∷ [];
      headers = s.headers;
    })
    if is_some response.error
        then (log_failure response >>= λ text. ok (returned device))
        else (result_list response >>= λ list. add_addresses list device none)
