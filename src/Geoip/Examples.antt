-- ===== src/Geoip/Examples.antt =====
-- A run of the model of haproxy/files/generate_geoip_maps.py.
use ffmuc_salt_public.Prelude.{String, ◌≡◌, refl, none, some, [], ◌∷◌, string_eq, nat_eq}
use ffmuc_salt_public.Prelude.Dict.{Dict}
use ffmuc_salt_public.Prelude.Json.{Json, num, str, obj, end, field}
use ffmuc_salt_public.Prelude.Result.{ok, err, attribute_error}
use ffmuc_salt_public.Geoip.{Database, Output, generate_maps}
use ffmuc_salt_public.Geoip.Maps.{read_map}

abbrev repr : Json → String
repr v = "?"

abbrev english : String → Json
english name = obj (field "names" (obj (field "en" (str name) end)) end)

-- The second network has the place of its registration only, and no name for it; the third has no record.
abbrev city_db : Database
city_db =
    (
      "9.9.9.0/24",
      some (obj (field "country" (english "New Zealand") (field "city" (english "Auckland") end))),
    )
    ∷ (
      "10.0.0.0/8",
      some (obj (field "registered_country" (obj (field "iso_code" (str "DE") end)) end)),
    )
    ∷ ("11.0.0.0/8", none)
    ∷ []

abbrev asn_db : Database
asn_db = ("9.9.9.0/24", some (obj (field "autonomous_system_number" (num 19281) end))) ∷ []

abbrev output : Output
output = record {
  files =
      ("/etc/haproxy/maps/geoip_country.map", "10.0.0.0/8 DE\n9.9.9.0/24 New Zealand\n")
      ∷ ("/etc/haproxy/maps/geoip_city.map", "9.9.9.0/24 Auckland\n")
      ∷ ("/etc/haproxy/maps/geoip_provider.map", "")
      ∷ ("/etc/haproxy/maps/geoip_asn.map", "9.9.9.0/24 19281\n")
      ∷ [];
  counts = 2 ∷ 1 ∷ 0 ∷ 1 ∷ [];
}

maps_run : generate_maps repr (some city_db) (some asn_db) ≡ ok output
unfolding generate_maps string_eq nat_eq
maps_run = refl

no_asn_run : generate_maps repr (some (("x", some (str "y")) ∷ [])) none ≡ err attribute_error
unfolding generate_maps
no_asn_run = refl

abbrev countries : Dict String String
countries = ("9.9.9.0/24", "New Zealand") ∷ ("10.0.0.0/8", "DE") ∷ []

trimmed_run :
    read_map "# networks\n 1.0.0.0/24\t  New  Zealand \r\n\n2.0.0.0/8 x\n"
    ≡ ("1.0.0.0/24", "New  Zealand") ∷ ("2.0.0.0/8", "x") ∷ []
unfolding read_map nat_eq string_eq
trimmed_run = refl
