-- ===== src/Respondd/Meshed.antt =====
-- A run of the model of respondd/respondd-tmpl/lib/neighbours.py.
use ffmuc_salt_public.Prelude.{
  String, ◌≡◌, refl, Option, some, List, [], ◌∷◌, any, string_eq, nat_eq, option_eq,
}
use ffmuc_salt_public.Prelude.Int.{pos}
use ffmuc_salt_public.Prelude.Result.{ok, err, key_error}
use ffmuc_salt_public.Respondd.Neighbours.{
  Config, Found, get_neighbours, get_station_dump, mesh_interfaces,
}
use ffmuc_salt_public.Respondd.Neighbours.Lines.{originator_of}
use ffmuc_salt_public.Respondd.Neighbours.Listed.{is_listed, is_direct, get_neighbours-listed}

abbrev mac_of : String → Option String
mac_of interface = some interface

abbrev wlan : Config
wlan = record { mesh_wlan = some ("ibss3" ∷ []) }

abbrev dump : List String
dump =
    "Station 32:b8:c3:86:3e:e8 (on ibss3)" ∷ "\tinactive time:\t8 ms" ∷ "\tsignal:  \t-60 dBm" ∷ []

abbrev originators : List String
originators =
    "[B.A.T.M.A.N. adv]" ∷ " * 32:b8:c3:86:3e:e8    2.712s   (175) 32:b8:c3:86:3e:e8 [ ibss3]"
    ∷ "   be:b7:25:4f:8f:97    0.100s   ( 25) be:b7:25:4f:8f:96 [ ibss3]" ∷ []

abbrev found : Found {Float = String} ok
found = record {
  wifi =
      (
        some "ibss3",
        ("32:b8:c3:86:3e:e8", record { signal = "-60"; noise = 0; inactive = "8" }) ∷ [],
      )
      ∷ [];
  batadv =
      (some "ibss3", ("32:b8:c3:86:3e:e8", record { tq = pos 175; lastseen = "2.712" }) ∷ []) ∷ [];
}

neighbours_run :
    get_neighbours {Float = String} ok mac_of wlan (dump ∷ []) ("ibss3: active" ∷ []) originators
    ≡ ok found
unfolding get_neighbours string_eq nat_eq option_eq
neighbours_run = refl

get_neighbours-listed_example :
    is_listed (some "ibss3") "32:b8:c3:86:3e:e8" found.batadv
    ≡ any
        (λ line.
          is_direct
            (mesh_interfaces mac_of ("ibss3: active" ∷ []) [])
            (some "ibss3")
            "32:b8:c3:86:3e:e8"
            (originator_of line))
        originators
get_neighbours-listed_example =
    get_neighbours-listed {Float = String} ok (some "ibss3") "32:b8:c3:86:3e:e8" mac_of wlan
      (dump ∷ []) ("ibss3: active" ∷ []) originators found neighbours_run

stray_field_run : get_station_dump (("\tsignal: 1" ∷ []) ∷ []) [] ≡ err (key_error "")
unfolding get_station_dump string_eq nat_eq
stray_field_run = refl
