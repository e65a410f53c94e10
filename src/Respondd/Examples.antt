-- ===== src/Respondd/Examples.antt =====
-- Runs of the model of respondd/respondd-tmpl/lib.
use ffmuc_salt_public.Prelude.{◌≡◌, refl, false, none, some, [], ◌∷◌, arith, string_eq, nat_eq}
use ffmuc_salt_public.Prelude.Dict.{insert}
use ffmuc_salt_public.Prelude.Text.{join, split}
use ffmuc_salt_public.Prelude.Result.{ok}
use ffmuc_salt_public.Prelude.Json.{num, str}
use ffmuc_salt_public.Respondd.RateLimit.{init, limit, limit_after, refill, take_token}
use ffmuc_salt_public.Respondd.RateLimit.Bound.{admitted}
use ffmuc_salt_public.Respondd.Struct.{
  Structure, Cache, plain, is_fresh, collect, complete, node_id, get_struct,
}
use ffmuc_salt_public.Respondd.Struct.Cached.{get_struct-cached}

-- Six calls at once: a burst of two admits three of them.
burst_runs : admitted (0 ∷ 0 ∷ 0 ∷ 0 ∷ 0 ∷ 0 ∷ []) (init 30 2) ≡ 3
unfolding limit limit_after refill take_token init nat_eq
burst_runs = refl

abbrev empty : Cache
empty = record { cache = []; cache_time = 0 }

abbrev traffic : Structure
traffic = ("traffic", num 5) ∷ []

abbrev sent : Structure
sent = ("traffic", num 5) ∷ ("node_id", str "020304050607") ∷ []

stale_runs : is_fresh (some 30) 100 empty ≡ false
unfolding is_fresh
stale_runs = refl

collect_runs :
    (get_struct (some 30) none (some "02:03:04:05:06:07") (ok traffic) 100 101 none empty).0
    ≡ ok (plain sent)
unfolding get_struct is_fresh collect complete node_id insert join split string_eq nat_eq
collect_runs = refl

get_struct-cached_example :
    get_struct
      (some 30)
      none
      (some "02:03:04:05:06:07")
      (ok [])
      120
      121
      none
      (get_struct (some 30) none (some "02:03:04:05:06:07") (ok traffic) 100 101 none empty).1
    ≡ (ok (plain sent), record { cache = sent; cache_time = 101 })
get_struct-cached_example =
    get_struct-cached 30 none (some "02:03:04:05:06:07") (ok traffic) (ok []) 100 101 120 121 empty
      sent stale_runs collect_runs (omega arith)
