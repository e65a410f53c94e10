-- ===== src/Respondd/Collected.antt =====
-- Runs of the models of respondd's collectors on the outputs of commands.
use ffmuc_salt_public.Prelude.{
  ◌≤◌, String, ◌≡◌, refl, Option, none, some, List, [], ◌∷◌, count, string_eq, nat_eq, option_eq,
}
use ffmuc_salt_public.Prelude.Int.{pos}
use ffmuc_salt_public.Prelude.Dict.{lookup}
use ffmuc_salt_public.Prelude.Result.{ok, err, index_error, key_error}
use ffmuc_salt_public.Prelude.Json.{Json, null, str, obj, end, field}
use ffmuc_salt_public.Respondd.Clients.{get_clients, get_gateway}
use ffmuc_salt_public.Respondd.Clients.Counted.{client_line, wifi_line, get_clients-counts}
use ffmuc_salt_public.Respondd.Statistics.{get_traffic, get_memory, get_mesh_vpn_peers}
use ffmuc_salt_public.Respondd.Interfaces.{Config, get_batman_interfaces}
use ffmuc_salt_public.Respondd.Interfaces.Types.{
  expected, unless_empty, get_batman_interfaces-expected,
}

-- A client with WiFi, a roaming one, the bridge, and a multicast address
abbrev table : List String
table =
    "[B.A.T.M.A.N. adv]" ∷ " * c0:11:73:b2:8f:dd   -1 [.P..W.]   1.710   (0xe680a836)"
    ∷ "d4:3d:7e:34:5c:b1   -1 [RP....]   0.000   (0x12a02817)"
    ∷ "d4:3d:7e:34:5c:b2   -1 [.P....]   0.000   (0x12a02817)"
    ∷ "33:33:00:00:00:01   -1 [.P....]   0.000   (0x12a02817)" ∷ []

abbrev bridge : Option String
bridge = some "d4:3d:7e:34:5c:b2"

clients_run : get_clients bridge table ≡ ok (record { total = 1; wifi = 1 })
unfolding get_clients string_eq nat_eq option_eq
clients_run = refl

get_clients-counts_example :
    (1 ≡ count (client_line bridge) table) × (1 ≡ count (wifi_line bridge) table) × (1 ≤ 1)
get_clients-counts_example =
    get_clients-counts bridge table (record { total = 1; wifi = 1 }) clients_run

short_flags_run : get_clients none ("aa:bb -1 [.P]" ∷ []) ≡ err index_error
unfolding get_clients string_eq nat_eq option_eq
short_flags_run = refl

gateway_run :
    get_gateway ("=> 02:ca:fe:00:00:01 (255.0) 02:ca:fe:00:00:02 [bat]: 100/100" ∷ "none" ∷ []) none
    ≡ some (record { gateway = "02:ca:fe:00:00:01"; gateway_nexthop = "02:ca:fe:00:00:02" })
unfolding get_gateway nat_eq
gateway_run = refl

traffic_run : get_traffic ("NIC statistics:" ∷ "  tx: 5" ∷ []) ≡ err (key_error "tx_bytes")
unfolding get_traffic string_eq nat_eq
traffic_run = refl

memory_run :
    get_memory ("MemTotal:   8 kB\n" ∷ "Active:  4 kB\n" ∷ "Cached: 2 kB\n" ∷ []) []
    ≡ ok (("total", pos 8) ∷ ("cached", pos 2) ∷ [])
unfolding get_memory string_eq nat_eq
memory_run = refl

abbrev peer : String → Json → Json
peer name connection = obj (field "name" (str name) (field "connection" connection end))

peers_run :
    get_mesh_vpn_peers (
      obj (
        field "peers"
          (obj (
            field "1"
              (peer "a" null)
              (field "2" (peer "b" (obj (field "established" (str "5") end))) end)))
          end))
    ≡ ok (field "a" null (field "b" (obj (field "established" (str "5") end)) end))
unfolding get_mesh_vpn_peers string_eq nat_eq
peers_run = refl

abbrev config : Config
config = record { fastd = some "vpn0"; mesh_vpn = some ("mesh-vpn" ∷ []); mesh_wlan = none }

abbrev mac_of : String → Option String
mac_of interface = some interface

abbrev interfaces : List String
interfaces = "mesh-l2tp-1: active" ∷ "vpn0: active" ∷ "eth0: active" ∷ []

interfaces_run :
    get_batman_interfaces config mac_of interfaces
    ≡ ("l2tp", some "mesh-l2tp-1" ∷ [])
      ∷ ("tunnel", some "vpn0" ∷ some "mesh-l2tp-1" ∷ [])
      ∷ ("other", some "eth0" ∷ [])
      ∷ []
unfolding get_batman_interfaces string_eq nat_eq option_eq
interfaces_run = refl

get_batman_interfaces-expected_example :
    lookup "tunnel" (get_batman_interfaces config mac_of interfaces)
    ≡ unless_empty (expected config mac_of "tunnel" interfaces)
get_batman_interfaces-expected_example =
    get_batman_interfaces-expected config mac_of interfaces "tunnel"
