-- ===== src/Kea/Report.antt =====
-- dhcp-server/kea_pool_stats.py: `build_report`. The configuration has one optional field for each
-- key that the code reads.
pub mod Sums
use ffmuc_salt_public.Prelude.{
  ℕ, ◌+◌, ◌-◌, String, ◌<>◌, Bool, Option, none, some, List, [], ◌∷◌, ◌++◌, if◌then◌else◌, ◌==◌,
  string_eq,
}
use mathlib.Core.Option
use ffmuc_salt_public.Prelude.Numbers.{show_ℕ}
use ffmuc_salt_public.Prelude.Text.{partition, strip}
use ffmuc_salt_public.Prelude.Result.{Result, ok, err, key_error, ◌>>=◌}
use ffmuc_salt_public.Kea.Counters.{Stats, stat, Counters, counters, status}

pub record Pool : Type 0 where
  pub pool : Option String

pub record Subnet : Type 0 where
  pub id : Option ℕ
  pub subnet : Option String
  pub pools : Option (List Pool)

pub record Network : Type 0 where
  pub name : Option String
  pub subnet4 : Option (List Subnet)

pub record Dhcp4 : Type 0 where
  pub shared_networks : Option (List Network)
  pub subnet4 : Option (List Subnet)

-- The dicts `totals` and `net_totals`
pub record Totals : Type 0 where
  pub defined : ℕ
  pub used : ℕ
  pub touched : ℕ

abbrev pub no_totals : Totals
no_totals = record { defined = 0; used = 0; touched = 0 }

abbrev pub add_totals : Totals → Totals → Totals
add_totals a b = record {
  defined = a.defined + b.defined;
  used = a.used + b.used;
  touched = a.touched + b.touched;
}

pub record PoolRow : Type 0 where
  pub location : String
  pub range : String
  pub first_ip : String
  pub last_ip : String
  pub counters : Counters
  pub status : ℕ

pub record NetworkRow : Type 0 where
  pub location : String
  pub counters : Counters
  pub status : ℕ

pub record Report : Type 0 where
  pub subnets : List PoolRow
  pub shared_networks : List NetworkRow
  pub summary : NetworkRow

abbrev pub or_nil {ℓ} : {A : Type ℓ} → Option (List A) → List A
or_nil none = []
or_nil (some xs) = xs

abbrev pub required {ℓ} : {A : Type ℓ} → String → Option A → Result A
required key none = err (key_error key)
required key (some a) = ok a

abbrev named : List Network → List (String × List Subnet)
named [] = []
named (n ∷ ns) = (Option.get_or n.name "", or_nil n.subnet4) ∷ named ns

-- `if dhcp4_config.get("subnet4")`: an empty list is false.
abbrev unnamed : Option (List Subnet) → List (String × List Subnet)
unnamed none = []
unnamed (some []) = []
unnamed (some (s ∷ rest)) = ("", s ∷ rest) ∷ []

-- The list `networks`: the shared ones, then those of no network.
unfoldable pub networks : Dhcp4 → List (String × List Subnet)
networks config = named (or_nil config.shared_networks) ++ unnamed config.subnet4

-- The values `defined`, `used` and `declined` of a subnet
unfoldable pub subnet_counts : Stats → Subnet → Result Totals
subnet_counts stats s = do
  id ← required "id" s.id
  let prefix = "subnet[" <> (show_ℕ id <> "]")
  defined ← stat stats (prefix <> ".total-addresses")
  declined ← stat stats (prefix <> ".declined-addresses")
  assigned ← stat stats (prefix <> ".assigned-addresses")
  ok (record { defined = defined; used = assigned - declined; touched = declined })

module _ (warning critical : Option ℕ) where
  -- `entry.update(_counters(**totals))` and the status
  abbrev pub network_row : String → Totals → NetworkRow
  network_row location t =
      let c = counters t.defined t.used t.touched in
      record { location = location; counters = c; status = status c.percent warning critical }

  -- The loop over the pools of a subnet. The counts go to the first pool, and the others get 0.
  unfoldable pub pool_rows : String → Subnet → Totals → List Pool → Result (List PoolRow)
  pool_rows name s t [] = ok []
  pool_rows name s t (p ∷ pools) = do
    text ← required "pool" p.pool
    let (first_ip, last_ip) = partition "-" text
    location ← if name == "" then required "subnet" s.subnet else ok name
    rest ← pool_rows name s no_totals pools
    let c = counters t.defined t.used t.touched
    ok (
        record {
          location = location;
          range = strip first_ip <> (" - " <> strip last_ip);
          first_ip = strip first_ip;
          last_ip = strip last_ip;
          counters = c;
          status = status c.percent warning critical;
        }
        ∷ rest)

  -- The loop over the subnets of a network, with `net_totals`
  unfoldable pub add_subnets :
      Stats → String → List Subnet → Totals → Result (List PoolRow × Totals)
  add_subnets stats name [] t = ok ([], t)
  add_subnets stats name (s ∷ rest) t = do
    counts ← subnet_counts stats s
    rows ← pool_rows name s counts (or_nil s.pools)
    more ← add_subnets stats name rest (add_totals t counts)
    ok (rows ++ more.0, more.1)

  -- The loop over the networks, with `totals`
  unfoldable pub add_networks :
      Stats
      → List (String × List Subnet)
      → Totals
      → Result (List PoolRow × List NetworkRow × Totals)
  add_networks stats [] t = ok ([], [], t)
  add_networks stats ((name, subnets) ∷ rest) t = do
    net ← add_subnets stats name subnets no_totals
    more ← add_networks stats rest (add_totals t net.1)
    ok (net.0 ++ more.0, if name == "" then more.1 else network_row name net.1 ∷ more.1, more.2)

  -- `build_report`
  unfoldable pub build_report : Dhcp4 → Stats → Result Report
  build_report config stats = do
    all ← add_networks stats (networks config) no_totals
    ok (record {
      subnets = all.0;
      shared_networks = all.1;
      summary = network_row "All networks" all.2;
    })
