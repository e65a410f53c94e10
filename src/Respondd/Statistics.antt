-- ===== src/Respondd/Statistics.antt =====
-- respondd/respondd-tmpl/lib/statistics.py: `getTraffic`, `getMemory`, and `getMeshVPNPeers`. What `ethtool`, the
-- file and fastd give is an argument.
use ffmuc_salt_public.Prelude.{
  String, Option, none, some, List, [], ◌∷◌, if◌then◌else◌, ◌==◌, nat_eq, string_eq, option_eq,
}
use ffmuc_salt_public.Prelude.Int.{ℤ}
use ffmuc_salt_public.Prelude.Numbers.{int}
use ffmuc_salt_public.Prelude.Dict.{Dict, lookup, insert}
use ffmuc_salt_public.Prelude.Json.{
  Json, Fields, null, flag, num, decimal, str, arr, obj, end, field, item, put, truthy,
}
use ffmuc_salt_public.Prelude.Result.{
  Result, ok, err, ◌>>=◌, index_error, key_error, attribute_error, type_error,
}
use ffmuc_salt_public.Prelude.Text.{strip, split_at_most, drop_last}

-- `lineSplit[1]`
abbrev second : List String → Result String
second [] = err index_error
second (a ∷ []) = err index_error
second (a ∷ b ∷ rest) = ok b

abbrev first : List String → String
first [] = ""
first (a ∷ rest) = a

-- A round of the loop in `getTraffic`
unfoldable pub add_counter : String → Dict String ℤ → Result (Dict String ℤ)
unfolding strip split_at_most int insert
add_counter line traffic =
    let parts = split_at_most ":" 1 (strip line) in
    second parts >>= λ value. int (strip value) >>= λ n. ok (insert (first parts) n traffic)

unfoldable pub add_counters : List String → Dict String ℤ → Result (Dict String ℤ)
unfolding add_counter
add_counters [] traffic = ok traffic
add_counters (line ∷ lines) traffic = add_counter line traffic >>= add_counters lines

-- `traffic[name]`
abbrev pub counter : Dict String ℤ → String → Result ℤ
counter traffic name = elim (lookup name traffic) [ none ↦ err (key_error name) | some n ↦ ok n ]

-- The dict that `getTraffic` returns
unfoldable pub traffic_of : Dict String ℤ → Result (Dict String (Dict String ℤ))
unfolding lookup
traffic_of traffic = do
  tx ← counter traffic "tx"
  tx_bytes ← counter traffic "tx_bytes"
  tx_dropped ← counter traffic "tx_dropped"
  rx ← counter traffic "rx"
  rx_bytes ← counter traffic "rx_bytes"
  forward ← counter traffic "forward"
  forward_bytes ← counter traffic "forward_bytes"
  mgmt_rx ← counter traffic "mgmt_rx"
  mgmt_rx_bytes ← counter traffic "mgmt_rx_bytes"
  mgmt_tx ← counter traffic "mgmt_tx"
  mgmt_tx_bytes ← counter traffic "mgmt_tx_bytes"
  ok (
      ("tx", ("packets", tx) ∷ ("bytes", tx_bytes) ∷ ("dropped", tx_dropped) ∷ [])
      ∷ ("rx", ("packets", rx) ∷ ("bytes", rx_bytes) ∷ [])
      ∷ ("forward", ("packets", forward) ∷ ("bytes", forward_bytes) ∷ [])
      ∷ ("mgmt_rx", ("packets", mgmt_rx) ∷ ("bytes", mgmt_rx_bytes) ∷ [])
      ∷ ("mgmt_tx", ("packets", mgmt_tx) ∷ ("bytes", mgmt_tx_bytes) ∷ [])
      ∷ [])

-- `getTraffic`
unfoldable pub get_traffic : List String → Result (Dict String (Dict String ℤ))
unfolding add_counters traffic_of
get_traffic [] = ok []
get_traffic (line ∷ lines) = add_counters lines [] >>= traffic_of

-- The key of `ret` for a line of /proc/meminfo
abbrev memory_key : String → Option String
memory_key name =
    if name == "MemTotal"
    then some "total"
    else if name == "MemFree"
    then some "free"
    else if name == "Buffers"
    then some "buffers"
    else if name == "Cached"
    then some "cached"
    else none

abbrev set_memory : Option String → ℤ → Dict String ℤ → Dict String ℤ
set_memory none n ret = ret
set_memory (some key) n ret = insert key n ret

unfoldable pub add_memory : String → Dict String ℤ → Result (Dict String ℤ)
unfolding strip split_at_most int insert drop_last
add_memory line ret =
    let parts = split_at_most " " 1 line in
    second parts >>= λ rest. int (first (split_at_most " " 1 (strip rest))) >>= λ n.
    ok (set_memory (memory_key (drop_last (first parts))) n ret)

-- `getMemory`, from the lines of the file
unfoldable pub get_memory : List String → Dict String ℤ → Result (Dict String ℤ)
unfolding add_memory
get_memory [] ret = ok ret
get_memory (line ∷ lines) ret = add_memory line ret >>= get_memory lines

-- `.values()`
abbrev values_of : Json → Result Fields
values_of null = err attribute_error
values_of (flag b) = err attribute_error
values_of (num n) = err attribute_error
values_of (decimal s) = err attribute_error
values_of (str s) = err attribute_error
values_of (arr vs) = err attribute_error
values_of (obj d) = ok d

-- A name as a key. Names that are no texts are not modelled.
abbrev name_of : Json → Result String
name_of null = err type_error
name_of (flag b) = err type_error
name_of (num n) = err type_error
name_of (decimal s) = err type_error
name_of (str s) = ok s
name_of (arr vs) = err type_error
name_of (obj d) = err type_error

-- `peer["connection"]` of a peer that is connected, and of one that is not
unfoldable pub connection_of : Json → Result Json
unfolding item truthy
connection_of peer = item "connection" peer >>= λ connection.
    if truthy connection
    then (item "connection" peer >>= item "established" >>= λ v.
        ok (obj (field "established" v end)))
    else ok null

-- The values of `fastd["peers"]`, one after the other
unfoldable pub add_peers : Fields → Fields → Result Fields
unfolding connection_of item put
add_peers end ret = ok ret
add_peers (field key peer rest) ret = connection_of peer >>= λ connection.
    item "name" peer >>= name_of >>= λ name. add_peers rest (put name connection ret)

-- `getMeshVPNPeers`, where fastd_socket is configured, from what `getFastd` returns
unfoldable pub get_mesh_vpn_peers : Json → Result Fields
unfolding add_peers item
get_mesh_vpn_peers fastd = item "peers" fastd >>= values_of >>= λ peers. add_peers peers end
