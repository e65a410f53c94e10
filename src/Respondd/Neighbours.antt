-- ===== src/Respondd/Neighbours.antt =====
-- respondd/respondd-tmpl/lib/neighbours.py: what the collector makes of the lines that `iw` and `batctl` give.
-- `float` and `lib.helper.getInterfaceMAC` are parameters; letters and digits are the ASCII ones.
pub mod Lines
pub mod Listed
use ffmuc_salt_public.Prelude.{
  ℕ, String, Bool, true, false, not, ◌&&◌, ◌||◌, Option, none, some, List, [], ◌∷◌, leb,
  if◌then◌else◌, ◌==◌, contains, nat_eq, string_eq, option_eq,
}
use ffmuc_salt_public.Prelude.Int.{ℤ}
use ffmuc_salt_public.Prelude.Numbers.{int}
use ffmuc_salt_public.Prelude.Dict.{Dict, lookup, insert}
use ffmuc_salt_public.Prelude.Result.{Result, ok, err, ◌>>=◌, key_error}
use ffmuc_salt_public.Respondd.Interfaces.{interface_of}
use ffmuc_salt_public.Respondd.Neighbours.Lines.{Originator, station_of, field_of, originator_of}

-- `stationDump`: the fields of each station
abbrev pub Stations : Type 0
Stations = Dict String (Dict String String)

abbrev pub key {ℓ} : {V : Type ℓ} → String → Option V → Result V
key k none = err (key_error k)
key k (some v) = ok v

abbrev set_field : Option (String × String) → String → Stations → Result Stations
set_field none mac ret = ok ret
set_field (some (name, value)) mac ret =
    key mac (lookup mac ret) >>= λ fields. ok (insert mac (insert name value fields) ret)

-- A line of the loop, with the station that it is about
unfoldable pub read_line : String → String × Stations → Result (String × Stations)
unfolding station_of field_of lookup insert
read_line line (mac, ret) = elim (station_of line) [
  | some station ↦ ok (station, insert station [] ret)
  | none ↦ set_field (field_of line) mac ret >>= λ more. ok (mac, more)
]

unfoldable pub read_lines : List String → String × Stations → Result Stations
unfolding read_line
read_lines [] (mac, ret) = ok ret
read_lines (line ∷ lines) s = read_line line s >>= read_lines lines

-- `getStationDump`, from the lines for each interface
unfoldable pub get_station_dump : List (List String) → Stations → Result Stations
unfolding read_lines
get_station_dump [] ret = ok ret
get_station_dump (lines ∷ rest) ret = read_lines lines ("", ret) >>= get_station_dump rest

pub record Config : Type 0 where
  pub mesh_wlan : Option (List String)

pub record Wifi : Type 0 where
  pub signal : String
  pub noise : ℕ
  pub inactive : String

abbrev pub Macs : Type 0
Macs = Dict String (Option String)

-- The lists of neighbours under an interface's address
abbrev pub Under {ℓ} : Type ℓ → Type ℓ
Under V = Dict (Option String) (Dict String V)

unfoldable pub with_key {ℓ} : {V : Type ℓ} → Option String → Under V → Dict String V
unfolding lookup
with_key mac d = elim (lookup mac d) [ none ↦ [] | some neighbours ↦ neighbours ]

-- `ret[…][mac]["neighbours"][origin] = v`, with the empty dict set first where the key is missing
unfoldable pub put_under {ℓ} : {V : Type ℓ} → Option String → String → V → Under V → Under V
unfolding with_key insert
put_under mac origin v d = insert mac (insert origin v (with_key mac d)) d

abbrev pub has_wlan : Config → String → Bool
has_wlan config interface = elim config.mesh_wlan [ none ↦ false | some l ↦ contains l interface ]

unfoldable pub mesh_interfaces : (String → Option String) → List String → Macs → Macs
unfolding interface_of insert
mesh_interfaces get_interface_mac [] ret = ret
mesh_interfaces get_interface_mac (line ∷ lines) ret =
    mesh_interfaces get_interface_mac lines
      (insert (interface_of line) (get_interface_mac (interface_of line)) ret)

module _ {ℓ} {Float : Type ℓ} (float : String → Result Float) where
  pub record Neighbour : Type ℓ where
    pub tq : ℤ
    pub lastseen : Float

  pub record Found : Type ℓ where
    pub wifi : Under Wifi
    pub batadv : Under Neighbour

  -- `ret["wifi"]`. The list of an interface is there as soon as one of its neighbours is a direct one.
  unfoldable pub add_wifi : Stations → Macs → Originator → Under Wifi → Result (Under Wifi)
  unfolding lookup with_key put_under insert
  add_wifi stations macs o wifi = do
    mac ← key o.interface (lookup o.interface macs)
    elim (lookup o.origin stations) [
      | none ↦ ok (insert mac (with_key mac wifi) wifi)
      | some station ↦ do
        signal ← key "signal" (lookup "signal" station)
        inactive ← key "inactive time" (lookup "inactive time" station)
        ok (
            put_under mac o.origin (record { signal = signal; noise = 0; inactive = inactive })
              wifi)
    ]

  -- `ret["batadv"]`
  unfoldable pub add_batadv : Macs → Originator → Under Neighbour → Result (Under Neighbour)
  unfolding lookup put_under int
  add_batadv macs o batadv = elim (lookup o.interface macs) [
    | none ↦ ok batadv
    | some mac ↦ do
      tq ← int o.tq
      lastseen ← float o.lastseen
      ok (put_under mac o.origin (record { tq = tq; lastseen = lastseen }) batadv)
  ]

  -- A line of the table of originators: only direct neighbours are listed.
  unfoldable pub add_direct : Config → Stations → Macs → Originator → Found → Result Found
  unfolding add_wifi add_batadv
  add_direct config stations macs o ret =
      (if has_wlan config o.interface then add_wifi stations macs o ret.wifi else ok ret.wifi)
      >>= λ wifi.
          add_batadv macs o ret.batadv >>= λ batadv. ok (record { wifi = wifi; batadv = batadv })

  unfoldable pub add_originator :
      Config → Stations → Macs → Option Originator → Found → Result Found
  unfolding add_direct
  add_originator config stations macs none ret = ok ret
  add_originator config stations macs (some o) ret =
      if o.origin == o.nexthop then add_direct config stations macs o ret else ok ret

  unfoldable pub add_originators : Config → Stations → Macs → List String → Found → Result Found
  unfolding add_originator originator_of
  add_originators config stations macs [] ret = ok ret
  add_originators config stations macs (line ∷ lines) ret =
      add_originator config stations macs (originator_of line) ret
      >>= add_originators config stations macs lines

  -- `_get`, from what the commands give: the station dumps of the interfaces of mesh-wlan, the interfaces of
  -- the mesh, and the originators
  unfoldable pub get_neighbours :
      (String → Option String)
      → Config
      → List (List String)
      → List String
      → List String
      → Result Found
  unfolding get_station_dump mesh_interfaces add_originators
  get_neighbours get_interface_mac config dumps interfaces originators = do
    stations ← elim config.mesh_wlan [ none ↦ ok [] | some l ↦ get_station_dump dumps [] ]
    add_originators config stations (mesh_interfaces get_interface_mac interfaces []) originators
        (record { wifi = []; batadv = [] })
