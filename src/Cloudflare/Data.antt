-- ===== src/Cloudflare/Data.antt =====
-- _states/cloudflare.py: the methods `data`, `__str__` and `json` of `Record`.
pub mod Show
use ffmuc_salt_public.Prelude.{
  ℕ, ◌≡◌, refl, String, ◌<>◌, Bool, true, false, Option, none, some, List, [], ◌∷◌, length,
  if◌then◌else◌, ◌==◌, string_eq, nat_eq,
}
use ffmuc_salt_public.Prelude.Int.{ℤ, pos}
use ffmuc_salt_public.Prelude.Numbers.{show_ℕ, int, Piece, lit, arg, format}
use ffmuc_salt_public.Prelude.Result.{Error, Result, ok, err, value_error, ◌>>=◌}
use ffmuc_salt_public.Prelude.Text.{split, split_at_most, drop_first, drop_last}
use ffmuc_salt_public.Cloudflare.Record.{Record}

-- The dicts that `data` builds for SRV and for CAA records.
pub data RecordData : Type 0 where
  srv : (service proto name : String) (priority weight port : ℤ) (target : String) → RecordData
  caa : (name : String) (flags : ℤ) (tag value : String) → RecordData

pub record Parts3 : Type 0 where
  pub first : String
  pub second : String
  pub third : String

pub record Parts4 : Type 0 where
  pub zeroth : String
  pub rest : Parts3

abbrev too_few : String → ℕ → Error
too_few expected got =
    value_error
      ("not enough values to unpack (expected " <> (expected <> (", got " <> (show_ℕ got <> ")"))))

abbrev too_many : String → Error
too_many expected = value_error ("too many values to unpack (expected " <> (expected <> ")"))

-- `a, b, c = parts`
unfoldable pub unpack3 : List String → Result Parts3
unpack3 (a ∷ b ∷ c ∷ []) = ok (record { first = a; second = b; third = c })
unpack3 [] = err (too_few "3" 0)
unpack3 (a ∷ []) = err (too_few "3" 1)
unpack3 (a ∷ b ∷ []) = err (too_few "3" 2)
unpack3 (a ∷ b ∷ c ∷ d ∷ rest) = err (too_many "3")

-- `a, b, c, d = parts`
unfoldable pub unpack4 : List String → Result Parts4
unpack4 (a ∷ b ∷ c ∷ d ∷ []) =
    ok (record { zeroth = a; rest = record { first = b; second = c; third = d } })
unpack4 [] = err (too_few "4" 0)
unpack4 (a ∷ []) = err (too_few "4" 1)
unpack4 (a ∷ b ∷ []) = err (too_few "4" 2)
unpack4 (a ∷ b ∷ c ∷ []) = err (too_few "4" 3)
unpack4 (a ∷ b ∷ c ∷ d ∷ e ∷ rest) = err (too_many "4")

-- Three parts are "weight port target" with the priority 10, and four have the priority in front.
srv_parts : List String → Result (Result ℤ × Parts3)
unfolding unpack4
srv_parts (weight ∷ port ∷ target ∷ []) =
    ok (ok (pos 10), record { first = weight; second = port; third = target })
srv_parts parts = do p ← unpack4 parts; ok (int p.zeroth, p.rest)

srv_data : Record → Result RecordData
unfolding srv_parts unpack3
srv_data r = do
  labels ← unpack3 (split_at_most "." 2 r.name)
  found ← srv_parts (split "\t" r.content)
  priority ← found.0
  weight ← int found.1.first
  port ← int found.1.second
  ok (srv labels.first labels.second labels.third priority weight port found.1.third)

caa_data : Record → Result RecordData
unfolding unpack3
caa_data r = do
  parts ← unpack3 (split "\t" r.content)
  flags ← int parts.first
  ok (caa r.name flags parts.second (drop_last (drop_first parts.third)))

-- `data()`, with None for the other types
unfoldable pub synthesize : Record → Result (Option RecordData)
unfolding srv_data caa_data
synthesize r =
    if r.type == "SRV"
    then (do d ← srv_data r; ok (some d))
    else if r.type == "CAA"
    then (do d ← caa_data r; ok (some d))
    else ok none

show_Bool : Bool → String
show_Bool true = "true"
show_Bool false = "false"

show_priority : Option ℕ → String
show_priority none = "None"
show_priority (some n) = show_ℕ n

abbrev template : List Piece
template =
    arg 0
    ∷ lit " "
    ∷ arg 1
    ∷ lit " -> '"
    ∷ arg 2
    ∷ lit "' (proxied: "
    ∷ arg 3
    ∷ lit ", ttl: "
    ∷ arg 4
    ∷ lit ")"
    ∷ []

-- `__str__`. The template has five fields, and `format` is given six arguments.
unfoldable pub show_record : Record → Result String
unfolding show_Bool show_priority
show_record r =
    let ttl_str = if r.ttl == 1 then "auto" else show_ℕ r.ttl <> "s" in
    let priority_string =
      if r.type == "MX" then "priority: " <> (show_priority r.priority <> ", ") else "" in
    format template
      (r.type ∷ r.name ∷ r.content ∷ priority_string ∷ show_Bool r.proxied ∷ ttl_str ∷ [])

-- The body of a request. The key "priority" is there for MX records only.
pub record Payload : Type 0 where
  pub type : String
  pub name : String
  pub content : String
  pub proxied : Bool
  pub synthesized : Option RecordData
  pub ttl : ℕ
  pub priority : Option (Option ℕ)

unfoldable pub json : Record → Result Payload
unfolding synthesize
json r = do
  synthesized ← synthesize r
  ok (record {
    type = r.type;
    name = r.name;
    content = r.content;
    proxied = r.proxied;
    synthesized = synthesized;
    ttl = r.ttl;
    priority = if r.type == "MX" then some r.priority else none;
  })

abbrev service : Record
service = record {
  id = none;
  type = "SRV";
  name = "_sip._udp.example.com";
  content = "5\t5060\thost";
  priority = none;
  proxied = false;
  ttl = 1;
  salt_managed = true;
}

service_runs :
    synthesize service
    ≡ ok (some (srv "_sip" "_udp" "example.com" (pos 10) (pos 5) (pos 5060) "host"))
unfolding synthesize split split_at_most int string_eq nat_eq
service_runs = refl

show_runs :
    show_record service ≡ ok "SRV _sip._udp.example.com -> '5\t5060\thost' (proxied: , ttl: false)"
unfolding show_record format show_ℕ string_eq nat_eq
show_runs = refl
