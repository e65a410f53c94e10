-- ===== src/Kea/Socket/Chunks.antt =====
-- `kea_command` of dhcp-server/kea_pool_stats.py: how the response is cut into chunks does not show.
use ffmuc_salt_public.Prelude.{
  String, ◌<>◌, ◌≡◌, refl, Bool, true, false, Option, none, some, List, [], ◌∷◌, ◌==◌, string_eq,
}
use ffmuc_salt_public.Prelude.Result.{Result, ok}
use ffmuc_salt_public.Kea.Socket.{Json, null, object, array, scalar, Event, chunk, read, got}

-- The chunks `cs` in front of `rest`
abbrev pub chunks : List String → List Event → List Event
chunks [] rest = rest
chunks (c ∷ cs) rest = chunk c ∷ chunks cs rest

-- No chunk is empty, and none of the texts that begin with `buffer` and stop short of the last
-- chunk is complete.
abbrev pub Incomplete : (String → Option Json) → String → List String → Type 0
Incomplete loads buffer [] = Unit
Incomplete loads buffer (c ∷ cs) =
    ((c == "") ≡ false) × (loads (buffer <> c) ≡ none) × Incomplete loads (buffer <> c) cs

abbrev pub all_of : String → List String → String
all_of buffer [] = buffer
all_of buffer (c ∷ cs) = all_of (buffer <> c) cs

-- `null` leaves the response None.
abbrev pub is_null : Json → Bool
is_null null = true
is_null (object r) = false
is_null (array rs) = false
is_null scalar = false

got-response :
    (loads : String → Option Json) (j : Json) (more : Result (Option Json))
    → is_null j ≡ false
    → got loads (some j) more ≡ ok (some j)
got-response loads null more h = absurd (cc h)
got-response loads (object r) more h = refl
got-response loads (array rs) more h = refl
got-response loads scalar more h = refl

module _ (loads : String → Option Json) where
  -- Where no chunk is empty, and the text parses only with its last chunk, and then to a dict, a list
  -- or a scalar, reading returns what the whole text says, into whatever chunks it is cut and whatever the connection,
  -- which may stay open, does behind it.
  pub read-chunks :
      (buffer last : String) (cs : List String) (rest : List Event) (response : Json)
      → Incomplete loads buffer cs
      → (last == "") ≡ false
      → is_null response ≡ false
      → loads (all_of buffer cs <> last) ≡ some response
      → read loads buffer (chunks cs (chunk last ∷ rest)) ≡ ok (some response)
  unfolding read
  read-chunks buffer last [] rest response i n k h = rw (n, h) (got-response loads response _ k)
  read-chunks buffer last (c ∷ cs) rest response i n k h =
      rw (i.0, i.1) (read-chunks (buffer <> c) last cs rest response i.2 n k h)
