-- ===== src/Kea/Examples.antt =====
-- Runs of the model of dhcp-server/kea_pool_stats.py on a subnet with two pools.
use ffmuc_salt_public.Prelude.{
  ◌≡◌, refl, String, ◌<>◌, false, Option, none, some, List, [], ◌∷◌, ◌==◌, string_eq, nat_eq,
  option_eq, if◌then◌else◌,
}
use ffmuc_salt_public.Prelude.Dict.{lookup}
use ffmuc_salt_public.Prelude.Numbers.{show_ℕ}
use ffmuc_salt_public.Prelude.Text.{partition, strip, strip_left, strip_right}
use ffmuc_salt_public.Prelude.Result.{Result, ok}
use ffmuc_salt_public.Kea.Counters.{Stats, stat, counters, status, percent_of}
use ffmuc_salt_public.Kea.Report.{
  Subnet, Dhcp4, Report, networks, build_report, add_networks, add_subnets, pool_rows,
  subnet_counts,
}
use ffmuc_salt_public.Kea.Report.Sums.{rows_total, shown, AllHavePools, build_report-sums}
use ffmuc_salt_public.Kea.Socket.{
  Arguments, no_config, array, Json, Event, chunk, Response, read, query, kea_command, conclude,
  main, stdout,
}
use ffmuc_salt_public.Kea.Socket.Chunks.{chunks, Incomplete, all_of, read-chunks}
use ffmuc_salt_public.Kea.Socket.Exit.{Answered, Printed, main-ok}
use mathlib.Core.Option

abbrev subnet : Subnet
subnet = record {
  id = some 1;
  subnet = some "10.0.0.0/24";
  pools = some (
      record { pool = some "10.0.0.10 - 10.0.0.19" }
      ∷ record { pool = some "10.0.0.30-10.0.0.39" }
      ∷ []);
}

abbrev config : Dhcp4
config = record {
  shared_networks = some (record { name = some "mesh"; subnet4 = some (subnet ∷ []) } ∷ []);
  subnet4 = none;
}

abbrev stats : Stats
stats =
    ("subnet[1].total-addresses", (20 ∷ 0 ∷ []) ∷ [])
    ∷ ("subnet[1].assigned-addresses", (15 ∷ 0 ∷ []) ∷ [])
    ∷ ("subnet[1].declined-addresses", (1 ∷ 0 ∷ []) ∷ [])
    ∷ []

abbrev built : Report
built = record {
  subnets =
      record {
        location = "mesh";
        range = "10.0.0.10 - 10.0.0.19";
        first_ip = "10.0.0.10";
        last_ip = "10.0.0.19";
        counters = counters 20 14 1;
        status = 1;
      }
      ∷ record {
        location = "mesh";
        range = "10.0.0.30 - 10.0.0.39";
        first_ip = "10.0.0.30";
        last_ip = "10.0.0.39";
        counters = counters 0 0 0;
        status = 0;
      }
      ∷ [];
  shared_networks = record { location = "mesh"; counters = counters 20 14 1; status = 1 } ∷ [];
  summary = record { location = "All networks"; counters = counters 20 14 1; status = 1 };
}

build_runs : build_report (some 60000) (some 90000) config stats ≡ ok built
unfolding build_report networks add_networks add_subnets subnet_counts stat pool_rows counters
    status partition strip strip_left strip_right lookup string_eq nat_eq show_ℕ percent_of
build_runs = refl

config-AllHavePools : AllHavePools (networks config)
unfolding networks
config-AllHavePools = (((_, _, refl), tt), tt)

build_report-sums_example : shown built.summary.counters ≡ rows_total built.subnets
build_report-sums_example =
    build_report-sums (some 60000) (some 90000) stats config built config-AllHavePools build_runs

abbrev answered : Response
answered = record { result = some 0; text = none; arguments = none }

-- The text "{}" is the one that parses.
abbrev loads : String → Option Json
loads s = if s == "{}" then some (array (answered ∷ [])) else none

first-Incomplete : Incomplete loads "" ("{" ∷ [])
unfolding string_eq
first-Incomplete = (refl, refl, tt)

last_full : ◌==◌ {A = String} "}" "" ≡ false
unfolding string_eq
last_full = refl

whole : loads (all_of "" ("{" ∷ []) <> "}") ≡ some (array (answered ∷ []))
unfolding string_eq
whole = refl

read-chunks_example :
    read loads "" (chunks ("{" ∷ []) (chunk "}" ∷ [])) ≡ ok (some (array (answered ∷ [])))
read-chunks_example =
    read-chunks loads "" "}" ("{" ∷ []) [] (array (answered ∷ [])) first-Incomplete last_full refl
      whole

abbrev kea : String → Result (List Event)
kea command = ok (chunk "{" ∷ chunk "}" ∷ [])

abbrev dumps : Report → String
dumps report = "report"

main_runs :
    main loads kea dumps none none ≡ ok (record { stream = stdout; text = "report"; code = 0 })
unfolding main query kea_command read conclude build_report networks add_networks string_eq nat_eq
    option_eq
main_runs = refl

main-ok_example :
    (config found : Arguments) × (report : Report) × Answered loads kea "config-get" config
    × Answered loads kea "statistic-get-all" found
    × (build_report none none (Option.get_or config.dhcp4 no_config) found.stats ≡ ok report)
    × Printed dumps false report (record { stream = stdout; text = "report"; code = 0 })
main-ok_example = main-ok loads kea dumps none none _ main_runs refl
