-- ===== src/Respondd/Client/Examples.antt =====
-- Runs of the model of respondd/respondd-tmpl/lib/respondd_client.py, and of `merge`.
use ffmuc_salt_public.Prelude.{
  ℕ, ◌+◌, ◌*◌, ◌≤◌, String, ◌<>◌, ◌≡◌, refl, false, Option, none, some, [], ◌∷◌, ◌++◌, arith, inr,
  string_eq, nat_eq,
}
use ffmuc_salt_public.Prelude.Dict.{insert}
use ffmuc_salt_public.Prelude.Result.{ok}
use ffmuc_salt_public.Prelude.Text.{split}
use ffmuc_salt_public.Prelude.Json.{Json, null, num, str, obj, end, field, get}
use ffmuc_salt_public.Respondd.Merge.{merge}
use ffmuc_salt_public.Respondd.Merge.Overlay.{at, merge-Overlay}
use ffmuc_salt_public.Respondd.Struct.{Structure, plain, get_struct, collect, node_id}
use ffmuc_salt_public.Respondd.RateLimit.{limit}
use ffmuc_salt_public.Respondd.Client.{
  Config, Moment, Reply, multi, Sent, new_client, joined, replace, serve, serve_all,
}
use ffmuc_salt_public.Respondd.Client.Bound.{sent-bound}
use ffmuc_salt_public.Respondd.Client.Budget.{count}
use ffmuc_salt_public.Respondd.Client.Replies.{Fits, serve-SentFor}

abbrev base : Json
base = obj (field "a" (num 1) (field "b" (obj (field "c" (num 2) end)) end))

abbrev overlay : Json
overlay = obj (field "b" (obj (field "d" (num 3) end)) (field "a" null end))

abbrev merged : Json
merged = obj (field "a" (num 1) (field "b" (obj (field "c" (num 2) (field "d" (num 3) end))) end))

merge_runs : merge base overlay ≡ ok merged
unfolding merge string_eq
merge_runs = refl

merge-Overlay_example : at ("b" ∷ "c" ∷ []) merged ≡ some (num 2)
unfolding get string_eq
merge-Overlay_example =
    merge-Overlay base overlay merged ((refl, (refl, tt)), (((refl, tt), (tt, tt)), (tt, tt)))
      merge_runs ("b" ∷ "c" ∷ []) (num 2) (inr (refl, tt))

abbrev config : Config
config = record {
  rate_limit = some 30;
  rate_limit_burst = some 1;
  caching = some 60;
  dry_run = false;
  bridge = "br-x";
}

abbrev moment : ℕ → Moment
moment n = record {
  limit_time = n;
  now = 100;
  later = 101;
  found = λ kind. ok (("uptime", num 5) ∷ []);
  alias = some "gw";
  mac = none;
}

abbrev dumps : Reply → String
dumps reply = "{}"

abbrev deflate : String → String
deflate s = s

abbrev uptime : Structure
uptime = ("uptime", num 5) ∷ ("node_id", str "gw") ∷ []

joined_runs : joined ("eth0: active" ∷ []) "br-x" ≡ "eth0" ∷ "br-x" ∷ []
unfolding joined nat_eq
joined_runs = refl

-- A burst of one lets two of three requests through; the third is answered by None.
get_runs :
    (serve_all moment config dumps deflate "muc"
      (("fe80::1%vrf_external", some "GET nodeinfo x statistics neighbours") ∷ [])
      (new_client config)).1.sent
    ≡ record {
      address = "fe80::1%br-muc";
      port = 45124;
      reply = multi (
          ("nodeinfo", some (plain uptime))
          ∷ ("x", none)
          ∷ ("statistics", none)
          ∷ ("neighbours", none)
          ∷ []);
      payload = "{}";
    }
      ∷ []
unfolding serve_all new_client split limit insert get_struct collect node_id string_eq nat_eq
get_runs = refl

abbrev message : String × Option String
message = ("a", some "GET nodeinfo x")

calls_run :
    (serve_all moment config dumps deflate "muc" (message ∷ []) (new_client config)).1.calls ≡ 2
unfolding serve_all new_client split limit insert get_struct collect node_id string_eq nat_eq
calls_run = refl

sent-bound_example :
    60000
        * count
            (serve_all moment config dumps deflate "muc" (message ∷ []) (new_client config)).1.sent
      + 0 * 30
    ≤ 60000 * (1 + 1) + 1 * 30
sent-bound_example =
    sent-bound moment config dumps deflate "muc" (message ∷ []) 30 1 refl (omega arith)
      (λ n. omega arith) calls_run

serve_runs : (serve moment config dumps deflate "muc" message (new_client config)).0 ≡ ok tt
unfolding serve new_client split limit insert get_struct collect node_id string_eq nat_eq
serve_runs = refl

serve-SentFor_example :
    (sent_packet : Sent) × ((serve moment config dumps deflate "muc" message
        (new_client config)).1.sent
      ≡ (new_client config).sent ++ sent_packet ∷ [])
    × Fits (split " " "GET nodeinfo x") sent_packet.reply
    × (sent_packet.address ≡ replace "vrf_external" ("br-" <> "muc") "a")
    × (sent_packet.port ≡ 45124)
serve-SentFor_example =
    serve-SentFor moment config dumps deflate "muc" "a" "GET nodeinfo x" (new_client config) refl
      serve_runs
