-- ===== src/Telegraf/Lines/Tags.antt =====
-- `tag` of telegraf/files/haproxy_peers_stats.py, against the line protocol: a backslash makes a comma,
-- an equals sign or a blank a part of a tag's value, and stands for itself before all else.
use Prim.Native.Char.{Char, code}
use Prim.Native.String.append
use ffmuc_salt_public.Prelude.{String, ◌<>◌, Bool, false, ◌&&◌, if◌then◌else◌, ◌==◌, nat_eq}
use ffmuc_salt_public.Telegraf.Lines.{is_special, tag}

-- The value of a tag at the start of a text, and what follows it
unfoldable pub read_tag : String → String × String
read_tag String.[] = ("", "")
read_tag (String.◌∷◌ c String.[]) =
    if is_special c then ("", String.◌∷◌ c "") else (String.◌∷◌ c "", "")
read_tag (String.◌∷◌ c (String.◌∷◌ d s)) =
    let (value, rest) = read_tag s in
    let (value', rest') = read_tag (String.◌∷◌ d s) in
    if is_special c
    then ("", String.◌∷◌ c (String.◌∷◌ d s))
    else if code c == b'\\' && is_special d
    then (String.◌∷◌ d value, rest)
    else (String.◌∷◌ c value', rest')

abbrev pub ends_in_backslash : String → Bool
ends_in_backslash String.[] = false
ends_in_backslash (String.◌∷◌ c String.[]) = code c == b'\\'
ends_in_backslash (String.◌∷◌ c (String.◌∷◌ d s)) = ends_in_backslash (String.◌∷◌ d s)

-- A character that is escaped where it stands at the end, before a text that begins with `x`
abbrev after : String → String → String
after s rest = tag s <> rest
