-- ===== src/Geoip/Maps.antt =====
-- `write_map` of haproxy/files/generate_geoip_maps.py, against the map files that HAProxy reads.

use ffmuc_salt_public.Prelude.{String, Option, none, some, List, [], ◌∷◌}
use ffmuc_salt_public.Prelude.Dict.{Dict}
use ffmuc_salt_public.Prelude.Text.{split}
use ffmuc_salt_public.Geoip.Lines.{entry_of}

abbrev add_entry : Option (String × String) → List (String × String) → List (String × String)
add_entry none entries = entries
add_entry (some entry) entries = entry ∷ entries

-- The entries of the lines. What stands behind the last line end is a line only if it is not empty.
unfoldable pub entries : List String → List (String × String)
unfolding entry_of
entries [] = []
entries (line ∷ lines) = add_entry (entry_of line) (entries lines)

-- The keys and values of a map file
unfoldable pub read_map : String → List (String × String)
unfolding entries split
read_map text = entries (split "\n" text)
