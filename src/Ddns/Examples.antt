-- ===== src/Ddns/Examples.antt =====
-- Runs of the model of _modules/ddns.py and _states/ddns.py against a small name server.
use ffmuc_salt_public.Prelude.{◌≡◌, refl, true, false, none, some, List, [], ◌∷◌, string_eq, nat_eq}
use ffmuc_salt_public.Prelude.Result.{ok}
use ffmuc_salt_public.Ddns.Message.{
  Rdata, Rrset, Server, Dns, World, Kwargs, udp, config, get_keyring,
}
use ffmuc_salt_public.Ddns.Update.{exists, replaces, update, send_update}
use ffmuc_salt_public.Ddns.Update.Each.{Each}
use ffmuc_salt_public.Ddns.Update.Messages.{Asked, update-Asked}
use ffmuc_salt_public.Ddns.Delete.{delete, delete_found, delete_command}
use ffmuc_salt_public.Ddns.Hosts.{add_ptr, add_host}
use ffmuc_salt_public.Ddns.Hosts.Port.{GoesTo, add_host-GoesTo}
use ffmuc_salt_public.Ddns.Hosts.Reverse.{Owns, reverse_name, add_ptr-Owns}
use ffmuc_salt_public.Ddns.State.{present, absent, present_status, absent_status}
use ffmuc_salt_public.Ddns.State.Outcome.{IsHonest, present-IsHonest, absent-IsHonest}

abbrev address : Rdata
address = record { rdtype = 1; text = "10.1.1.1"; address = some "10.1.1.1" }

abbrev held : List Rrset
held = record { ttl = 60; items = address ∷ [] } ∷ []

-- A server that holds one address and accepts every change
abbrev dns : Dns
dns = record {
  State = Unit {0};
  udp = λ s state. (ok (record { answer = held; rcode = 0 }), state);
  make_query = λ fqdn rdtype. ok (record { fqdn = fqdn; rdtype = rdtype });
  rdatatype = λ t. ok 1;
  rdata = λ type text. ok address;
  accepts = λ m. ok tt;
  option = λ name. "";
  keyring = λ file. ok file;
}

abbrev server : Server
server = record { nameserver = "127.0.0.1"; timeout = 5; port = 5353 }

abbrev kwargs : Kwargs
kwargs = record { keyfile = none; keyname = none; keyalgorithm = none }

abbrev start : World dns
start = record { state = tt; sent = [] }

update_runs :
    (update dns "example.com" "host1" 60 "A" "10.1.1.1" server true false kwargs start).0
    ≡ ok (some true)
unfolding update udp get_keyring config replaces exists send_update string_eq nat_eq
update_runs = refl

update-Asked_example :
    Asked dns server "host1" "example.com" "A" start
      (some true)
      (update dns "example.com" "host1" 60 "A" "10.1.1.1" server true false kwargs start).1
update-Asked_example =
    update-Asked dns server "example.com" "host1" 60 "A" "10.1.1.1" true false kwargs start
      (some true) update_runs

delete_runs : (delete dns "example.com" "host1" none none server kwargs start).0 ≡ ok (some true)
unfolding delete udp get_keyring config delete_found delete_command send_update string_eq
delete_runs = refl

add_host-GoesTo_example :
    Each
      (GoesTo (record server { port = 53 }))
      dns
      (add_host dns "example.com" "host1" 60 "10.1.1.1" server true kwargs start).1
add_host-GoesTo_example =
    add_host-GoesTo dns "example.com" "host1" 60 "10.1.1.1" server true kwargs start tt

add_ptr-Owns_example :
    Each
      (λ s. Owns (reverse_name ("1" ∷ "1" ∷ "1" ∷ "10" ∷ [])) s.message)
      dns
      (add_ptr dns
        ("1" ∷ "1" ∷ "1" ∷ "10" ∷ [])
        []
        "host1.example.com."
        60
        server
        true
        false
        kwargs
        none
        start).1
add_ptr-Owns_example =
    add_ptr-Owns dns server ("1" ∷ "1" ∷ "1" ∷ "10" ∷ []) [] "host1.example.com." 60 true false
      kwargs none start tt

present_runs :
    (present dns false "host1" "example.com" 60 "10.1.1.1" "A" server true false kwargs start).0
    ≡ ok (present_status "host1" "example.com" 60 "10.1.1.1" "A" (some true))
unfolding present update udp get_keyring config replaces exists send_update string_eq nat_eq
present_runs = refl

present-IsHonest_example :
    IsHonest dns server false "example.com" start
      (present_status "host1" "example.com" 60 "10.1.1.1" "A" (some true))
      (present dns false "host1" "example.com" 60 "10.1.1.1" "A" server true false kwargs start).1
present-IsHonest_example =
    present-IsHonest dns server false "example.com" "host1" 60 "10.1.1.1" "A" true false kwargs
      start (present_status "host1" "example.com" 60 "10.1.1.1" "A" (some true)) present_runs

absent_runs :
    (absent dns false "host1" "example.com" none none server kwargs start).0
    ≡ ok (absent_status "host1" "example.com" (some true))
unfolding absent delete udp get_keyring config delete_found delete_command send_update string_eq
absent_runs = refl

absent-IsHonest_example :
    IsHonest dns server false "example.com" start
      (absent_status "host1" "example.com" (some true))
      (absent dns false "host1" "example.com" none none server kwargs start).1
absent-IsHonest_example =
    absent-IsHonest dns server false "example.com" "host1" none none kwargs start
      (absent_status "host1" "example.com" (some true)) absent_runs
