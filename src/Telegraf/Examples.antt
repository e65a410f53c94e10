-- ===== src/Telegraf/Examples.antt =====
-- Runs of the model of telegraf/files/haproxy_peers_stats.py on small answers of HAProxy.
use ffmuc_salt_public.Prelude.{
  ℕ, ◌*◌, ◌+◌, String, ◌<>◌, ◌≡◌, refl, none, some, List, [], ◌∷◌, map, string_eq, nat_eq,
  option_eq, ◌⊎◌, ltb, if◌then◌else◌,
}
use ffmuc_salt_public.Prelude.Numbers.{show_ℕ}
use ffmuc_salt_public.Prelude.Result.{ok, err, int_limit, float_limit}
use ffmuc_salt_public.Prelude.Scan.{splitlines}
use ffmuc_salt_public.Telegraf.Duration.{Float, Part, hours, minutes, findall, duration_s}
use ffmuc_salt_public.Telegraf.Peers.{Peer, parse_peers}
use ffmuc_salt_public.Telegraf.Peers.Headers.{headers, parse_peers-headers}
use ffmuc_salt_public.Telegraf.Peers.Named.{named}
use ffmuc_salt_public.Telegraf.Tables.{parse_tables}
use ffmuc_salt_public.Telegraf.Lines.{peer_line, table_line}
use ffmuc_salt_public.Telegraf.Main.{Event, chunk, broken, Outcome, failed, script}
use ffmuc_salt_public.Telegraf.Main.Exit.{script-ends}

-- A `float` as a number of milliseconds
abbrev millis : Float
millis = record {
  Value = ℕ;
  of_int = λ n. if ltb n 100000 then some (n * 1000) else none;
  thousandths = λ n. some n;
  add = λ a b. a + b;
  repr = show_ℕ;
}

abbrev parts : List Part
parts = record { digits = "13"; unit = hours } ∷ record { digits = "54"; unit = minutes } ∷ []

findall_runs : findall "13h54m" ≡ parts
unfolding findall nat_eq
findall_runs = refl

duration_runs : duration_s millis "1d20ms" ≡ ok (some 86400020)
unfolding duration_s string_eq nat_eq
duration_runs = refl

never_runs : duration_s millis "<NEVER>" ≡ ok none
unfolding duration_s nat_eq
never_runs = refl

abbrev answer : String
answer =
    "0x55: [08] id=meet flags=0x3\n"
    <> ("  0x56: id=b(remote,active) addr=10.0.0.1 state=EST tx_hbt=5\n"
        <> ("    shared tables:\n"
            <> "      0x57 id=3 update=9\n  0x58: id=a(local,inactive) state=NONE\n"))

abbrev peer : Peer
peer =
    ("section", "meet")
    ∷ ("peer", "b")
    ∷ ("addr", "10.0.0.1")
    ∷ ("state", "EST")
    ∷ ("tx_hbt", "5")
    ∷ []

parse_runs : parse_peers answer ≡ peer ∷ []
unfolding parse_peers string_eq nat_eq
parse_runs = refl

parse_peers-headers_example : map named (parse_peers answer) ≡ headers none (splitlines answer)
parse_peers-headers_example = parse_peers-headers answer

line_runs :
    peer_line millis peer
    ≡ ok "haproxy_peer,section=meet,peer=b connected=1i,last_status=\"\",tx_hbt=5i"
unfolding peer_line string_eq nat_eq option_eq
line_runs = refl

tables_run :
    parse_tables "# table: st, type: ip, size:1024, used:7\nx"
    ≡ ok (record { table = "st"; size = 1024; used = 7 } ∷ [])
unfolding parse_tables nat_eq
tables_run = refl

table_line_runs :
    table_line (record { table = "a b"; size = 1024; used = 7 })
    ≡ "haproxy_stick_table,table=a\\ b used=7i,size=1024i"
unfolding table_line nat_eq
table_line_runs = refl

abbrev down : String → List Event
down command = broken "timed out" ∷ []

down_runs : script millis down (λ bytes. "") ≡ ok (failed "haproxy_peers_stats: timed out" 1)
unfolding script
down_runs = refl

abbrev up : String → List Event
up command = chunk (0x30 ∷ []) ∷ []

script-ends_example :
    ((outcome : Outcome) × (script millis up (λ bytes. answer) ≡ ok outcome))
    ⊎ ((script millis up (λ bytes. answer) ≡ err int_limit)
        ⊎ (script millis up (λ bytes. answer) ≡ err float_limit))
script-ends_example = script-ends millis up (λ bytes. answer)

too_long_run : duration_s millis "100000s" ≡ err float_limit
unfolding duration_s string_eq nat_eq
too_long_run = refl
