-- ===== src/Dhcpd/Examples.antt =====
-- Runs of the model of dhcp-server/dhcpd_to_context.py on a small dhcpd.conf.
use ffmuc_salt_public.Prelude.{
  String, ◌<>◌, ◌≡◌, refl, none, some, [], ◌∷◌, length, count, ◌==◌, All, string_eq, nat_eq,
}
use ffmuc_salt_public.Dhcpd.Blocks.{uncomment, blocks}
use ffmuc_salt_public.Dhcpd.Context.{Ip, done, system_exit, Reservation, Subnet, Context}
use ffmuc_salt_public.Dhcpd.Reservations.{parse, reserved, summary, interfaces_of}
use ffmuc_salt_public.Dhcpd.Placed.{is_subnet, is_host, parse-Placed}
use ffmuc_salt_public.Dhcpd.Placing.{Fitting}

-- One network that holds the address "10.0.0.9" only
abbrev ip : Ip
ip = record {
  Network = String;
  Address = String;
  ip_network = λ s. some s;
  ip_address = λ s. some s;
  holds = λ net address. address == "10.0.0.9";
  show = λ net. net;
}

abbrev conf : String
conf =
    "option domain-name \"x.net\"; # a comment { }\n"
    <> ("subnet 10.0.0.0 netmask 255.255.0.0 {\n option routers  10.0.0.1, 10.0.0.2;\n"
        <> (" pool { max-lease-time 60; range 10.0.0.5 10.0.0.8; } }\n"
            <> "host a { hardware ethernet 0A:00:00:00:00:01; fixed-address 10.0.0.9; }\n"))

abbrev reservation : Reservation
reservation = record { mac = "0a:00:00:00:00:01"; ip = "10.0.0.9"; hostname = "a" }

abbrev subnet : Subnet
subnet = record {
  subnet = "10.0.0.0/255.255.0.0";
  routers = some "10.0.0.1,10.0.0.2";
  dns = none;
  next_server = none;
  boot_file = none;
  pool = "10.0.0.5 - 10.0.0.8";
  reservations = reservation ∷ [];
}

abbrev context : Context
context = record {
  interfaces = "eth0" ∷ [];
  domain_name = some "x.net";
  subnets = subnet ∷ [];
  valid_lifetime = none;
  max_valid_lifetime = some 60;
}

parse_runs : parse ip conf (interfaces_of "eth0,") none ≡ done context
unfolding parse interfaces_of string_eq nat_eq
parse_runs = refl

parse-Placed_example :
    (length (subnet ∷ []) ≡ count is_subnet (blocks (uncomment conf)))
    × (reserved (subnet ∷ []) ≡ count is_host (blocks (uncomment conf)))
    × All (Fitting ip) (subnet ∷ [])
parse-Placed_example = parse-Placed ip conf (interfaces_of "eth0,") none context parse_runs

stray_runs :
    parse ip "host a { hardware ethernet 0A:01; fixed-address 10.0.0.9; }" [] none
    ≡ system_exit "reservation 10.0.0.9 fits no subnet"
unfolding parse string_eq nat_eq
stray_runs = refl

summary_runs : summary context ≡ (1, 1)
unfolding summary
summary_runs = refl
