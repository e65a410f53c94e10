-- ===== src/Respondd/Struct.antt =====
-- respondd/respondd-tmpl/lib/respondd.py: `getNodeID` and `getStruct` of the class `Respondd`. What a
-- subclass collects (`_get`), the MAC address of an interface and the two readings of the clock are
-- arguments.
pub mod Cached
use ffmuc_salt_public.Prelude.{
  ℕ, ◌+◌, String, Bool, true, false, Option, none, some, List, [], ◌∷◌, if◌then◌else◌, ◌==◌,
  string_eq, leb,
}
use ffmuc_salt_public.Prelude.Dict.{Dict, insert}
use ffmuc_salt_public.Prelude.Text.{join, split}
use ffmuc_salt_public.Prelude.Result.{Result, ok, err, attribute_error}
use ffmuc_salt_public.Prelude.Exec.{Exec, pure, lift, ◌>>=◌}
use ffmuc_salt_public.Prelude.Json.{Json, str}

abbrev pub Structure : Type 0
Structure = Dict String Json

-- `__cache` and `__cacheTime`
pub record Cache : Type 0 where
  pub cache : Structure
  pub cache_time : ℕ

-- A structure as it is, or under the name that was asked for
pub data Answer : Type 0 where
  plain : Structure → Answer
  rooted : (root_name : String) → Structure → Answer

-- `getNodeID`, with the node id of alias.json, if there is one, and the MAC address of the interface
unfoldable pub node_id : Option String → Option String → Result String
node_id (some alias) mac = ok alias
node_id none (some mac) = ok (join "" (split ":" mac))
node_id none none = err attribute_error

-- `"caching" in self._config and time.time() - self.__cacheTime <= self._config["caching"]`
unfoldable pub is_fresh : Option ℕ → ℕ → Cache → Bool
is_fresh none now c = false
is_fresh (some caching) now c = leb now (c.cache_time + caching)

abbrev pub under : Option String → Structure → Answer
under none s = plain s
under (some root) s = rooted root s

module _ (caching : Option ℕ) (alias mac : Option String) where
  -- The end of the `else` branch: the node id goes into the structure that is in the cache already.
  unfoldable pub complete : Structure → ℕ → Result String → Exec Cache Structure
  complete s later (err e) c = (err e, record { cache = s; cache_time = later })
  complete s later (ok id) c = (
    ok (insert "node_id" (str id) s),
    record { cache = insert "node_id" (str id) s; cache_time = later },
  )

  -- The `else` branch
  unfoldable pub collect : Result Structure → ℕ → Exec Cache Structure
  unfolding complete
  collect found later = do s ← lift found; complete s later (node_id alias mac)

  -- `getStruct`, at the time `now`, and `later` when the structure is collected
  unfoldable pub get_struct : Result Structure → ℕ → ℕ → Option String → Exec Cache Answer
  unfolding is_fresh
  get_struct found now later root_name c =
      if is_fresh caching now c
      then (ok (under root_name c.cache), c)
      else (do s ← collect found later; pure (under root_name s)) c
