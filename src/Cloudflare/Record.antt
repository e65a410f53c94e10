-- ===== src/Cloudflare/Record.antt =====
-- _states/cloudflare.py: `validate_record`, `record_from_dict` and the tuple `Record`. A record of
-- the pillar or of the API is a dict; the model has one optional field for each key that the code
-- reads. A missing id and the id None are one value, since the code reads the id behind
-- `setdefault("id", None)`.
use ffmuc_salt_public.Prelude.{
  ℕ, ◌≡◌, refl, ◌<>◌, String, Bool, true, false, Option, none, some, not, ◌&&◌, if◌then◌else◌,
  is_some, ◌==◌, option_eq, string_eq, nat_eq, bool_eq, Eq, String-discrete, Bool-discrete,
}
use ffmuc_salt_public.Prelude.Result.{
  Result, ok, err, salt_invocation_error, key_error, raise_if, ◌>>=◌, ◌>>◌,
}
use mathlib.Core.Option
use native.Mathlib.Decide.{ℕ_discrete}

pub record RecordDict : Type 0 where
  pub id : Option String
  pub type : Option String
  pub name : Option String
  pub content : Option String
  pub priority : Option ℕ
  pub proxied : Option Bool
  pub ttl : Option ℕ
  pub salt_managed : Option Bool

-- `"type" in record and record["type"] == t`
abbrev is_type : String → Option String → Bool
is_type t none = false
is_type t (some s) = s == t

unfoldable pub validate_record : RecordDict → Result (Unit {0})
validate_record r = do
  name ← elim r.name [
    | none ↦ err (salt_invocation_error "'name' is required")
    | some name ↦ ok name
  ]
  raise_if (not (is_some r.content))
      (salt_invocation_error ("Required field 'content' is missing for entry <" <> (name <> ">")))
  raise_if (is_type "MX" r.type && not (is_some r.priority)) (
      salt_invocation_error
        ("Required field 'priority' is missing for MX entry <" <> (name <> ">")))

pub record Record : Type 0 where
  pub id : Option String
  pub type : String
  pub name : String
  pub content : String
  pub priority : Option ℕ
  pub proxied : Bool
  pub ttl : ℕ
  pub salt_managed : Bool

-- `d[key]`
abbrev pub required {ℓ} : {A : Type ℓ} → String → Option A → Result A
required key none = err (key_error key)
required key (some a) = ok a

unfoldable pub record_from_dict : RecordDict → Result Record
record_from_dict r =
    let type = Option.get_or r.type "A" in
    do
      priority ←
          if type == "MX" then (do p ← required "priority" r.priority; ok (some p)) else ok none
      name ← required "name" r.name
      content ← required "content" r.content
      ok (record {
        id = r.id;
        type = type;
        name = name;
        content = content;
        priority = priority;
        proxied = Option.get_or r.proxied false;
        ttl = Option.get_or r.ttl 1;
        salt_managed = Option.get_or r.salt_managed true;
      })

unfoldable pub pure : Record → Record
pure r = record r { id = none }

-- Equality of two tuples is that of all their fields.
unfoldable pub Record-discrete : Discrete Record
Record-discrete = hlevel (String-discrete, Bool-discrete, ℕ_discrete)

instance unfoldable pub record_eq : Eq Record
unfolding Record-discrete
record_eq = record { dec = Record-discrete }

abbrev sample : Record
sample = record {
  id = none;
  type = "A";
  name = "a";
  content = "b";
  priority = none;
  proxied = true;
  ttl = 1;
  salt_managed = false;
}

sample_runs : (sample == record sample { ttl = 120 }) ≡ false
unfolding record_eq String-discrete Bool-discrete ℕ_discrete
sample_runs = refl
