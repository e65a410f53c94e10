-- ===== src/Respondd/Interfaces.antt =====
-- respondd/respondd-tmpl/lib/nodeinfo.py: `getBatmanInterfaces`. What `batctl` gives is an argument, and so
-- is `lib.helper.getInterfaceMAC`.
pub mod Types
use Prim.Native.Char.{code}
use ffmuc_salt_public.Prelude.{
  String, Bool, true, false, not, Option, none, some, List, [], ◌∷◌, ◌++◌, if◌then◌else◌, ◌==◌,
  contains, nat_eq, string_eq, option_eq,
}
use ffmuc_salt_public.Prelude.Dict.{Dict, lookup, insert}
use ffmuc_salt_public.Prelude.Scan.{span, occurs}

-- `self._config`, as far as the method reads it
pub record Config : Type 0 where
  pub fastd : Option String
  pub mesh_vpn : Option (List String)
  pub mesh_wlan : Option (List String)

-- `interface in self._config[key]`, where the key is there
abbrev pub listed : Option (List String) → String → Bool
listed none interface = false
listed (some interfaces) interface = contains interfaces interface

-- `interfaceType`
unfoldable pub interface_type : Config → String → String
unfolding occurs
interface_type config interface =
    if config.fastd == some interface
    then "tunnel"
    else if occurs "l2tp" interface
    then "l2tp"
    else if listed config.mesh_vpn interface
    then "tunnel"
    else if listed config.mesh_wlan interface
    then "wireless"
    else "other"

-- `re.match(r"^([^:]*)", line).group(0)`
unfoldable pub interface_of : String → String
unfolding span
interface_of line = (span (λ c. not (code c == b':')) line).0

abbrev pub or_empty : Option (List (Option String)) → List (Option String)
or_empty none = []
or_empty (some macs) = macs

-- The lists of addresses, by the type
abbrev pub Meshes : Type 0
Meshes = Dict String (List (Option String))

-- `ret[t].append(mac)`, with the list set first where the key is missing
unfoldable pub append_mac : String → Option String → Meshes → Meshes
unfolding lookup insert
append_mac t mac ret = insert t (or_empty (lookup t ret) ++ mac ∷ []) ret

-- The end of the method. `ret["tunnel"]` is the list `ret["l2tp"]` itself where there is no tunnel
-- yet; neither is changed any more.
abbrev pub with_l2tp : Option (List (Option String)) → Meshes → Meshes
with_l2tp none ret = ret
with_l2tp (some macs) ret = insert "tunnel" (or_empty (lookup "tunnel" ret) ++ macs) ret

unfoldable pub join_l2tp : Meshes → Meshes
unfolding lookup insert
join_l2tp ret = with_l2tp (lookup "l2tp" ret) ret

module _ (config : Config) (get_interface_mac : String → Option String) where
  unfoldable pub add_interfaces : List String → Meshes → Meshes
  unfolding append_mac interface_type interface_of
  add_interfaces [] ret = ret
  add_interfaces (line ∷ lines) ret =
      let interface = interface_of line in
      add_interfaces lines
        (append_mac (interface_type config interface) (get_interface_mac interface) ret)

  -- `getBatmanInterfaces`
  unfoldable pub get_batman_interfaces : List String → Meshes
  unfolding add_interfaces join_l2tp
  get_batman_interfaces lines = join_l2tp (add_interfaces lines [])
