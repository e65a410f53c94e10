-- ===== src/Netbox/Lookups.antt =====
-- _modules/site_prefixes.py, _modules/netbox_vms.py and _modules/extra_dns_entries.py: the lookups.
pub mod Closed
pub mod Latest
pub mod Addresses
use ffmuc_salt_public.Prelude.{
  String, ◌<>◌, Option, none, some, List, [], ◌∷◌, if◌then◌else◌, ◌==◌, string_eq,
}
use ffmuc_salt_public.Prelude.Text.{split}
use ffmuc_salt_public.Prelude.Dict.{Dict, insert}
use ffmuc_salt_public.Prelude.Result.{Result, ok, err, key_error, ◌>>=◌}
use ffmuc_salt_public.Netbox.Query.{Request, Response, query}

abbrev pub required {ℓ} : {A : Type ℓ} → String → Option A → Result A
required key none = err (key_error key)
required key (some a) = ok a

abbrev pub authorization : String → String × String
authorization token = ("Authorization", "Token " <> token)

-- A prefix, as far as the code reads it, and all of it
pub record Prefix : Type 0 where
  pub description : Option String
  pub json : String

unfoldable pub add_prefixes : List Prefix → Dict String Prefix → Result (Dict String Prefix)
add_prefixes [] prefixes = ok prefixes
add_prefixes (p ∷ rest) prefixes =
    required "description" p.description >>= λ d. add_prefixes rest (insert d p prefixes)

-- `get_site_prefixes`
unfoldable pub get_site_prefixes :
    (Request → Result (Response Prefix)) → String → String → String → Result (Dict String Prefix)
get_site_prefixes get netbox_api netbox_token filter =
    query get "site_prefixes: querying Netbox for prefixes"
      (netbox_api <> ("/ipam/prefixes/?" <> filter)) (authorization netbox_token ∷ [])
    >>= λ results. add_prefixes results []

pub record Vm : Type 0 where
  pub name : Option String

unfoldable pub vm_names : List Vm → Result (List String)
vm_names [] = ok []
vm_names (vm ∷ rest) =
    required "name" vm.name >>= λ name. vm_names rest >>= λ names. ok (name ∷ names)

-- `get_vms_by_filter`
unfoldable pub get_vms_by_filter :
    (Request → Result (Response Vm)) → String → String → String → Result (List String)
get_vms_by_filter get netbox_api netbox_token filter =
    query get "netbox_vms: querying Netbox for virtual machines"
      (netbox_api <> ("/virtualization/virtual-machines/?" <> filter))
      (authorization netbox_token ∷ ("Accept", "application/json") ∷ [])
    >>= vm_names

-- A device. Each primary address is missing, None, or a dict with the key "address" or without.
pub record Host : Type 0 where
  pub name : Option String
  pub primary_ip4 : Option (Option (Option String))
  pub primary_ip6 : Option (Option (Option String))

pub record Entry : Type 0 where
  pub address : Option String
  pub address6 : Option String

-- `….split("/")[0]`
abbrev pub first_part : List String → String
first_part [] = ""
first_part (s ∷ rest) = s

-- The address at a key that has to be there
unfoldable pub host_address : String → Option (Option (Option String)) → Result (Option String)
host_address key none = err (key_error key)
host_address key (some none) = ok none
host_address key (some (some none)) = err (key_error "address")
host_address key (some (some (some a))) = ok (some (first_part (split "/" a)))

unfoldable pub host_entry : Host → Result (String × Entry)
unfolding host_address
host_entry host = do
  name ← required "name" host.name
  address ← host_address "primary_ip4" host.primary_ip4
  address6 ← host_address "primary_ip6" host.primary_ip6
  ok (name, record { address = address; address6 = address6 })

unfoldable pub add_hosts : List Host → Dict String Entry → Result (Dict String Entry)
add_hosts [] entries = ok entries
add_hosts (host ∷ rest) entries =
    host_entry host >>= λ found. add_hosts rest (insert found.0 found.1 entries)

-- `get_extra_dns_entries`
unfoldable pub get_extra_dns_entries :
    (Request → Result (Response Host)) → String → String → String → Result (Dict String Entry)
get_extra_dns_entries get netbox_api netbox_token filter =
    query get "extra_dns_entries: querying Netbox for devices"
      (netbox_api <> ("/dcim/devices/?" <> filter)) (authorization netbox_token ∷ [])
    >>= λ results. add_hosts results []
