-- ===== src/Telegraf/Lines.antt =====
-- telegraf/files/haproxy_peers_stats.py: `tag`, `peer_line` and `table_line`.
pub mod Tags
use Prim.Native.Char.{Char, code}
use ffmuc_salt_public.Prelude.{
  ℕ, String, ◌<>◌, Bool, ◌||◌, Option, none, some, List, [], ◌∷◌, ◌++◌, if◌then◌else◌, ◌==◌,
  string_eq, nat_eq, option_eq,
}
use ffmuc_salt_public.Prelude.Dict.{Dict, lookup}
use ffmuc_salt_public.Prelude.Numbers.{show_ℕ}
use ffmuc_salt_public.Prelude.Result.{Result, ok, err, key_error, ◌>>=◌}
use ffmuc_salt_public.Prelude.Scan.{isdigit}
use ffmuc_salt_public.Prelude.Text.{join}
use ffmuc_salt_public.Telegraf.Duration.{Float, duration_s}
use ffmuc_salt_public.Telegraf.Peers.{Peer}
use ffmuc_salt_public.Telegraf.Tables.{Table}

-- `[,= ]`
abbrev pub is_special : Char → Bool
is_special c = code c == b',' || code c == b'=' || code c == b' '

-- `tag`
unfoldable pub tag : String → String
tag String.[] = ""
tag (String.◌∷◌ c s) =
    let rest = String.◌∷◌ c (tag s) in if is_special c then String.◌∷◌ "\\" rest else rest

-- `s.replace("\\", "\\\\").replace('"', '\\"')`. The second puts in backslashes behind
-- the first, which are not doubled, so one pass does both.
unfoldable pub quote : String → String
quote String.[] = ""
quote (String.◌∷◌ c s) =
    let rest = String.◌∷◌ c (quote s) in
    if code c == b'\\' || code c == b'"' then String.◌∷◌ "\\" rest else rest

-- `COUNTERS`
abbrev pub counters : List String
counters = "tx_hbt" ∷ "rx_hbt" ∷ "no_hbt" ∷ "new_conn" ∷ "proto_err" ∷ "coll" ∷ []

-- `peer.get(key, "")`
abbrev pub get : String → Peer → String
get key peer = elim (lookup key peer) [ none ↦ "" | some value ↦ value ]

-- `peer[key]`
abbrev pub item : String → Peer → Result String
item key peer = elim (lookup key peer) [ none ↦ err (key_error key) | some value ↦ ok value ]

-- The fields that the last loop adds. A counter that is all digits is there.
unfoldable pub counter_fields : List String → Peer → Dict String String
unfolding lookup isdigit
counter_fields [] peer = []
counter_fields (counter ∷ rest) peer =
    let fields = counter_fields rest peer in
    if isdigit (get counter peer) then (counter, get counter peer <> "i") ∷ fields else fields

-- `"%s=%s" % kv for kv in fields.items()`
unfoldable pub pairs : Dict String String → List String
pairs [] = []
pairs ((key, value) ∷ fields) = (key <> ("=" <> value)) ∷ pairs fields

module _ (float : Float) where
  open float use {Value, repr}

  abbrev handshake : Option Value → Dict String String
  handshake none = []
  handshake (some seconds) = ("last_hdshk_s", repr seconds) ∷ []

  -- The dict `fields`. No key stands in it twice.
  unfoldable pub fields_of : Peer → Result (Dict String String)
  unfolding quote duration_s counter_fields lookup
  fields_of peer = duration_s float (get "last_hdshk" peer) >>= λ hdshk. ok (
      ("connected", if lookup "state" peer == some "EST" then "1i" else "0i")
      ∷ ("last_status", "\"" <> (quote (get "last_status" peer) <> "\""))
      ∷ (handshake hdshk ++ counter_fields counters peer))

  -- `peer_line`
  unfoldable pub peer_line : Peer → Result String
  unfolding fields_of pairs join tag lookup
  peer_line peer = do
    fields ← fields_of peer
    section ← item "section" peer
    name ← item "peer" peer
    ok (
        "haproxy_peer,section="
        <> (tag section <> (",peer=" <> (tag name <> (" " <> join "," (pairs fields))))))

-- `table_line`
unfoldable pub table_line : Table → String
unfolding tag show_ℕ
table_line t =
    "haproxy_stick_table,table="
    <> (tag t.table <> (" used=" <> (show_ℕ t.used <> ("i,size=" <> (show_ℕ t.size <> "i")))))
