-- ===== src/Rdns/Examples.antt =====
-- Runs of the model of _modules/ffmuc_rdns.py with two candidates for one address.
use native.Mathlib.Decide.{ℕ_discrete}
use ffmuc_salt_public.Prelude.{
  String, ◌≡◌, refl, none, some, List, [], ◌∷◌, All, keep_if, string_eq, nat_eq,
}
use ffmuc_salt_public.Prelude.Dict.{Dict, insert, keys}
use ffmuc_salt_public.Prelude.Sort.{sorted_by, insert_by}
use ffmuc_salt_public.Prelude.Text.{strip, strip_left, strip_right, ends_with}
use ffmuc_salt_public.Prelude.Result.{ok}
use ffmuc_salt_public.Rdns.{
  Address, address_eq, Address-discrete, Network, Candidate, Keyed, Selected, Ip, Ptr, in_network,
  longest, zone_for, parse_networks, strip_dots, fqdn, keyed, select, overrides, override, ptrs,
  ptr_records,
}
use ffmuc_salt_public.Rdns.Longest.{IsLongest, zone_for-IsLongest}
use ffmuc_salt_public.Rdns.Placed.{Placed, ptr_records-Placed}

abbrev gateway : Address
gateway = record { version = 4; value = 167772161 }

abbrev lan : Network
lan = record { version = 4; network_address = 167772160; prefixlen = 24 }

-- Every text is the address 10.0.0.1 or the network 10.0.0.0/24.
abbrev ip : Ip
ip = record {
  ip_address = λ s. some gateway;
  ip_network = λ s. some lan;
  show = λ a. "10.0.0.1";
  reverse_pointer = λ a. "1.0.0.10.in-addr.arpa";
}

abbrev networks : List (Network × String)
networks = (lan, "0.0.10.in-addr.arpa") ∷ []

zone_runs : zone_for gateway networks ≡ some "0.0.10.in-addr.arpa"
unfolding zone_for longest in_network nat_eq
zone_runs = refl

zone_for-IsLongest_example :
    (best : Network × String) × (best.1 ≡ "0.0.10.in-addr.arpa")
    × IsLongest best (keep_if (λ m. in_network gateway m.0) networks)
zone_for-IsLongest_example = zone_for-IsLongest gateway networks "0.0.10.in-addr.arpa" zone_runs

abbrev found : List Keyed
found =
    record { address = some "10.0.0.1"; target = "old.example."; priority = 100 }
    ∷ record { address = some "10.0.0.1"; target = "new.example."; priority = 10 }
    ∷ []

abbrev chosen : Selected
chosen = (gateway, "new.example.") ∷ []

abbrev candidates : List Candidate
candidates = record { address = some "10.0.0.1"; target = some "gw.example"; priority = none } ∷ []

abbrev zones : Dict String String
zones = ("10.0.0.0/24", "0.0.10.in-addr.arpa.") ∷ []

networks_run : parse_networks ip zones ≡ ok networks
unfolding parse_networks strip_dots string_eq
networks_run = refl

abbrev gateway_ptr : Ptr
gateway_ptr = record {
  ip = gateway;
  address = "10.0.0.1";
  name = "1.0.0.10.in-addr.arpa.";
  zone = "0.0.10.in-addr.arpa";
  target = "gw.example.";
}

records_run : ptr_records ip candidates zones [] ≡ ok (gateway_ptr ∷ [])
unfolding ptr_records parse_networks strip_dots keyed fqdn strip strip_left strip_right ends_with
    select sorted_by insert_by insert keys overrides ptrs zone_for longest in_network string_eq
    nat_eq
records_run = refl

ptr_records-Placed_example : All (Placed ip networks) (gateway_ptr ∷ [])
ptr_records-Placed_example =
    ptr_records-Placed ip candidates zones [] networks (gateway_ptr ∷ []) networks_run records_run

overrides_run :
    overrides ip (("by-hand.example.", "10.0.0.1" ∷ []) ∷ []) chosen
    ≡ ok ((gateway, "by-hand.example.") ∷ [])
unfolding overrides override insert fqdn strip strip_left strip_right ends_with string_eq address_eq
    Address-discrete ℕ_discrete nat_eq
overrides_run = refl
