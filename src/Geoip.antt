-- ===== src/Geoip.antt =====
-- haproxy/files/generate_geoip_maps.py: the maps of HAProxy from the two databases of MaxMind. A database is
-- the list of its networks, as they are printed, with their records; `repr` is the text of a value that is
-- neither a text nor an integer.
pub mod Lines
pub mod Maps
mod Examples
use ffmuc_salt_public.Prelude.{
  ℕ, String, ◌<>◌, Bool, true, false, not, ◌&&◌, Option, none, some, List, [], ◌∷◌, length,
  if◌then◌else◌, ◌==◌, nat_eq, string_eq,
}
use ffmuc_salt_public.Prelude.Dict.{Dict, insert}
use ffmuc_salt_public.Prelude.Json.{
  Json, null, flag, num, decimal, str, arr, obj, get, item, truthy,
}
use ffmuc_salt_public.Prelude.Numbers.{show_ℕ}
use ffmuc_salt_public.Prelude.Result.{Result, ok, err, ◌>>=◌, attribute_error}
use ffmuc_salt_public.Prelude.Sort.{sorted_by}
use ffmuc_salt_public.Prelude.Text.{text_le}

abbrev pub Database : Type 0
Database = List (String × Option Json)

abbrev or_null : Option Json → Json
or_null none = null
or_null (some v) = v

-- `v.get(k)`
unfoldable pub get_from : String → Json → Result Json
unfolding get
get_from k null = err attribute_error
get_from k (flag b) = err attribute_error
get_from k (num n) = err attribute_error
get_from k (decimal s) = err attribute_error
get_from k (str s) = err attribute_error
get_from k (arr vs) = err attribute_error
get_from k (obj d) = ok (or_null (get k d))

-- `v.get(k) or …`, and `not v`
unfoldable pub names_of : Json → Result Json
unfolding get_from truthy
names_of place = if truthy place then get_from "names" place else ok null

-- `names.get("en")`, where there are names
unfoldable pub english : Json → Result Json
unfolding get_from truthy
english names = if truthy names then get_from "en" names else ok null

unfoldable pub country_place : Json → Result Json
unfolding get_from truthy
country_place entry = get_from "country" entry >>= λ place.
    if truthy place then ok place else get_from "registered_country" entry

-- `country`
unfoldable pub country_of : Json → Result Json
unfolding country_place names_of english get_from truthy
country_of entry = do
  place ← country_place entry
  names ← names_of place
  country ← english names
  if not (truthy country) && truthy place then get_from "iso_code" place else ok country

-- `city_name`
unfoldable pub city_of : Json → Result Json
unfolding names_of english get_from
city_of entry = get_from "city" entry >>= names_of >>= english

-- `if v: d[network] = v`
unfoldable pub set_if : String → Json → Dict String Json → Dict String Json
unfolding insert truthy
set_if network v d = if truthy v then insert network v d else d

pub record Places : Type 0 where
  pub country : Dict String Json
  pub city : Dict String Json

pub record Providers : Type 0 where
  pub provider : Dict String Json
  pub asn : Dict String Json

-- A round of the two loops
unfoldable pub add_place : String → Option Json → Places → Result Places
unfolding country_of city_of set_if
add_place network none maps = ok maps
add_place network (some entry) maps = do
  country ← country_of entry
  city ← city_of entry
  ok (record {
    country = set_if network country maps.country;
    city = set_if network city maps.city;
  })

unfoldable pub add_places : Database → Places → Result Places
unfolding add_place
add_places [] maps = ok maps
add_places ((network, entry) ∷ db) maps = add_place network entry maps >>= add_places db

unfoldable pub add_provider : String → Option Json → Providers → Result Providers
unfolding get_from set_if
add_provider network none maps = ok maps
add_provider network (some entry) maps = do
  org ← get_from "autonomous_system_organization" entry
  asn ← get_from "autonomous_system_number" entry
  ok (record { provider = set_if network org maps.provider; asn = set_if network asn maps.asn })

unfoldable pub add_providers : Database → Providers → Result Providers
unfolding add_provider
add_providers [] maps = ok maps
add_providers ((network, entry) ∷ db) maps = add_provider network entry maps >>= add_providers db

-- `sorted(data.items())`; a key stands once, so that the values are never compared.
unfoldable pub sorted_items : Dict String String → List (String × String)
unfolding sorted_by text_le
sorted_items d = sorted_by (λ x y. text_le x.0 y.0) d

unfoldable pub map_lines : List (String × String) → String
map_lines [] = ""
map_lines ((network, value) ∷ rest) = network <> (" " <> (value <> ("\n" <> map_lines rest)))

-- The text that `write_map` writes
unfoldable pub write_map : Dict String String → String
unfolding sorted_items map_lines
write_map d = map_lines (sorted_items d)

-- A database that is missing has no networks.
abbrev or_empty : Option Database → Database
or_empty none = []
or_empty (some db) = db

-- The four files, in the order in which they are written, and the counts that are printed
pub record Output : Type 0 where
  pub files : Dict String String
  pub counts : List ℕ

module _ (repr : Json → String) where
  abbrev pub shown : Json → String
  shown null = repr null
  shown (flag b) = repr (flag b)
  shown (num n) = show_ℕ n
  shown (decimal s) = repr (decimal s)
  shown (str s) = s
  shown (arr vs) = repr (arr vs)
  shown (obj d) = repr (obj d)

  unfoldable pub shown_values : Dict String Json → Dict String String
  unfolding show_ℕ
  shown_values [] = []
  shown_values ((network, v) ∷ d) = (network, shown v) ∷ shown_values d

  unfoldable pub generate_maps : Option Database → Option Database → Result Output
  unfolding add_places add_providers write_map shown_values
  generate_maps city_db asn_db = do
    places ← add_places (or_empty city_db) (record { country = []; city = [] })
    providers ← add_providers (or_empty asn_db) (record { provider = []; asn = [] })
    ok (record {
      files =
          ("/etc/haproxy/maps/geoip_country.map", write_map (shown_values places.country))
          ∷ ("/etc/haproxy/maps/geoip_city.map", write_map (shown_values places.city))
          ∷ ("/etc/haproxy/maps/geoip_provider.map", write_map (shown_values providers.provider))
          ∷ ("/etc/haproxy/maps/geoip_asn.map", write_map (shown_values providers.asn))
          ∷ [];
      counts =
          length places.country
          ∷ length places.city
          ∷ length providers.provider
          ∷ length providers.asn
          ∷ [];
    })
