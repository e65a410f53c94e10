-- ===== src/Respondd/Client.antt =====
-- respondd/respondd-tmpl/lib/respondd_client.py: the class `ResponddClient`. The clock and the
-- collectors behind it are the parameter `moment`, which says what the n-th call of `buildStruct`
-- finds; `dumps` is `json.dumps` with its separators, and `deflate` the compression of zlib. What is
-- printed is not modelled, and `sendto` does not fail.
pub mod Budget
pub mod Bound
pub mod Replies
mod Examples
use ffmuc_salt_public.Prelude.{
  ℕ, zero, suc, ◌+◌, ◌-◌, String, ◌<>◌, Bool, true, false, not, Option, none, some, List, [], ◌∷◌,
  ◌++◌, map, if◌then◌else◌, ◌==◌, string_eq, nat_eq,
}
use Prim.Native.Char.{code}
use ffmuc_salt_public.Prelude.Dict.{Dict, insert}
use ffmuc_salt_public.Prelude.Result.{Result, ok, err, value_error}
use ffmuc_salt_public.Prelude.Exec.{Exec, pure, raise, ◌>>=◌, ◌>>◌}
use ffmuc_salt_public.Prelude.Text.{split}
use ffmuc_salt_public.Prelude.Scan.{literal, len, span}
use ffmuc_salt_public.Respondd.RateLimit
use ffmuc_salt_public.Respondd.RateLimit.{RateLimit, init}
use ffmuc_salt_public.Respondd.Struct.{Structure, Cache, Answer, get_struct}

-- `self._config`, as far as the class reads it
pub record Config : Type 0 where
  pub rate_limit : Option ℕ
  pub rate_limit_burst : Option ℕ
  pub caching : Option ℕ
  pub dry_run : Bool
  pub bridge : String

-- What a call of `buildStruct` finds: the clock as `limit` reads it, the clock before and after the
-- structure is collected, what `_get` of each collector returns or raises, the node id of alias.json
-- and the MAC address.
pub data Kind : Type 0 where
  statistics nodeinfo neighbours : Kind

pub record Moment : Type 0 where
  pub limit_time : ℕ
  pub now : ℕ
  pub later : ℕ
  pub found : Kind → Result Structure
  pub alias : Option String
  pub mac : Option String

-- What `json.dumps` is given: a structure or None, or those by the names that were asked for
pub data Reply : Type 0 where
  single : Option Answer → Reply
  multi : Dict String (Option Answer) → Reply

pub record Sent : Type 0 where
  pub address : String
  pub port : ℕ
  pub reply : Reply
  pub payload : String

-- `calls` counts the calls of `buildStruct`.
pub record Client : Type 0 where
  pub limiter : Option RateLimit
  pub statistics_cache : Cache
  pub nodeinfo_cache : Cache
  pub neighbours_cache : Cache
  pub calls : ℕ
  pub sent : List Sent

abbrev pub empty_cache : Cache
empty_cache = record { cache = []; cache_time = 0 }

abbrev pub burst : Option ℕ → ℕ
burst none = 10
burst (some b) = b

abbrev new_limiter : Option ℕ → Option ℕ → Option RateLimit
new_limiter none b = none
new_limiter (some rate) b = some (init rate (burst b))

-- `ResponddClient(config)`
unfoldable pub new_client : Config → Client
unfolding init
new_client config = record {
  limiter = new_limiter config.rate_limit config.rate_limit_burst;
  statistics_cache = empty_cache;
  nodeinfo_cache = empty_cache;
  neighbours_cache = empty_cache;
  calls = 0;
  sent = [];
}

-- The interfaces whose groups `start` joins: those of the lines of `batctl`, and the bridge
unfoldable pub joined : List String → String → List String
unfolding span
joined lines bridge = map (λ line. (span (λ c. not (code c == b':')) line).0) lines ++ bridge ∷ []

abbrev pub kind_of : String → Option Kind
kind_of response_type =
    if response_type == "statistics"
    then some statistics
    else if response_type == "nodeinfo"
    then some nodeinfo
    else if response_type == "neighbours"
    then some neighbours
    else none

abbrev cache_of : Kind → Client → Cache
cache_of statistics s = s.statistics_cache
cache_of nodeinfo s = s.nodeinfo_cache
cache_of neighbours s = s.neighbours_cache

abbrev with_cache : Kind → Cache → Client → Client
with_cache statistics c s = record s { statistics_cache = c }
with_cache nodeinfo c s = record s { nodeinfo_cache = c }
with_cache neighbours c s = record s { neighbours_cache = c }

-- `self.__RateLimit is not None and not self.__RateLimit.limit()`, negated
abbrev limited_by : Option RateLimit → ℕ → Exec Client Bool
limited_by none now s = (ok true, s)
limited_by (some r) now s =
    let (admitted, r') = RateLimit.limit now r in (admitted, record s { limiter = some r' })

unfoldable pub admit : ℕ → Exec Client Bool
admit now s = limited_by s.limiter now s

-- `s.replace(old, new)` for an `old` that is not empty, with the number of characters that the last
-- occurrence goes on for
abbrev choose : Option String → String → String → String
choose none copied replaced = copied
choose (some rest) copied replaced = replaced

replace_from : ℕ → String → String → String → String
unfolding literal len
replace_from skip old new String.[] = ""
replace_from (suc skip) old new (String.◌∷◌ c s) = replace_from skip old new s
replace_from zero old new (String.◌∷◌ c s) =
    let copied = String.◌∷◌ c (replace_from zero old new s) in
    let replaced = new <> replace_from (len old - 1) old new s in
    choose (literal old (String.◌∷◌ c s)) copied replaced

unfoldable pub replace : String → String → String → String
unfolding replace_from
replace old new s = replace_from zero old new s

module _ (moment : ℕ → Moment) (config : Config) where
  -- `responseClass.getStruct()`
  unfoldable pub structure : Moment → Kind → Exec Client Answer
  unfolding get_struct
  structure m kind s =
      let (answer, cache) =
        get_struct config.caching m.alias m.mac (m.found kind) m.now m.later none
          (cache_of kind s) in
      (answer, with_cache kind cache s)

  abbrev by_kind : Moment → Option Kind → Exec Client (Option Answer)
  by_kind m none s = (ok none, s)
  by_kind m (some kind) s = (structure m kind >>= λ a. pure (some a)) s

  abbrev if_admitted : Moment → String → Bool → Exec Client (Option Answer)
  if_admitted m response_type false s = (ok none, s)
  if_admitted m response_type true s = by_kind m (kind_of response_type) s

  -- `buildStruct`, as the call of the number `n`
  unfoldable pub build_at : ℕ → String → Exec Client (Option Answer)
  unfolding admit structure
  build_at n response_type s =
      (admit (moment n).limit_time >>= if_admitted (moment n) response_type)
        (record s { calls = suc n })

  unfoldable pub build_struct : String → Exec Client (Option Answer)
  unfolding build_at
  build_struct response_type s = build_at s.calls response_type s

  -- The loop over the requests of a message
  unfoldable pub build_all :
      List String → Dict String (Option Answer) → Exec Client (Dict String (Option Answer))
  unfolding build_struct insert
  build_all [] replies = pure replies
  build_all (request ∷ requests) replies =
      build_struct request >>= λ answer. build_all requests (insert request answer replies)

  module _ (dumps : Reply → String) (deflate : String → String) (site : String) where
    -- The packet that `sendStruct` sends
    unfoldable pub packet : String → Reply → Bool → Sent
    unfolding replace
    packet address reply with_compression = record {
      address = replace "vrf_external" ("br-" <> site) address;
      port = 45124;
      reply = reply;
      payload = if with_compression then deflate (dumps reply) else dumps reply;
    }

    -- `sendStruct`
    unfoldable pub send_struct : String → Reply → Bool → Exec Client (Unit {0})
    unfolding packet
    send_struct address reply with_compression s =
        if config.dry_run
        then (ok tt, s)
        else (ok tt, record s { sent = s.sent ++ packet address reply with_compression ∷ [] })

    -- The branches of the loop's body, by the words of the message
    unfoldable pub answer : String → List String → Exec Client (Unit {0})
    unfolding build_all build_struct send_struct
    answer address [] = pure tt
    answer address (word ∷ requests) =
        if word == "GET"
        then (build_all requests [] >>= λ replies. send_struct address (multi replies) true)
        else (build_struct word >>= λ reply. send_struct address (single reply) false)

    -- The loop's body, for a message from an address. A message that is no UTF-8 raises.
    unfoldable pub serve : String × Option String → Exec Client (Unit {0})
    unfolding answer split
    serve (address, none) = raise (value_error "invalid utf-8")
    serve (address, some msg) = answer address (split " " msg)

    -- The loop of `start`, over the messages that come
    unfoldable pub serve_all : List (String × Option String) → Exec Client (Unit {0})
    unfolding serve
    serve_all [] = pure tt
    serve_all (message ∷ messages) = serve message >>= λ _. serve_all messages
