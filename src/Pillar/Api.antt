-- ===== src/Pillar/Api.antt =====
-- _pillar/netbox.py: the keyword arguments, the URLs and the queries. Netbox behind
-- salt.utils.http.query is the parameter `http`; `repr` is what Python prints for a value that is
-- neither a number nor a text.
use ffmuc_salt_public.Prelude.{
  ℕ, String, ◌<>◌, Bool, Option, none, some, List, [], ◌∷◌, if◌then◌else◌, ◌==◌, string_eq,
}
use ffmuc_salt_public.Prelude.Dict.{Dict}
use ffmuc_salt_public.Prelude.Numbers.{show_ℕ}
use ffmuc_salt_public.Prelude.Json.{Json, null, flag, num, decimal, str, arr, obj, item, iterate}
use ffmuc_salt_public.Prelude.Result.{Result, ok, err, key_error, type_error, ◌>>=◌}

-- The keyword arguments of `ext_pillar`, where they are given
pub record Kwargs : Type 0 where
  pub api_url : Option String
  pub api_token : Option String
  pub site_details : Option Bool
  pub site_prefixes : Option Bool
  pub proxy_username : Option String
  pub proxy_return : Option Bool

-- `kwargs.get(key, default)`
abbrev pub get_or {ℓ} : {A : Type ℓ} → A → Option A → A
get_or default none = default
get_or default (some a) = a

pub record Request : Type 0 where
  pub url : String
  pub params : Dict String Json
  pub headers : Dict String String

-- What the query returns: a dict with these keys, where they are there
pub record Response : Type 0 where
  pub error : Option String
  pub status : Option ℕ
  pub body : Option Json

-- The values that `ext_pillar` sets at its start
pub record Settings : Type 0 where
  pub api_url : String
  pub headers : Dict String String

-- `s.rstrip("/")`
unfoldable pub strip_slashes : String → String
strip_slashes String.[] = ""
strip_slashes (String.◌∷◌ c s) =
    let rest = strip_slashes s in if (String.◌∷◌ c rest) == "/" then "" else String.◌∷◌ c rest

abbrev token_headers : Option String → Dict String String
token_headers none = []
token_headers (some token) = if token == "" then [] else ("Authorization", "Token " <> token) ∷ []

unfoldable pub settings : Kwargs → Result Settings
unfolding strip_slashes
settings kwargs = elim kwargs.api_url [
  | none ↦ err (key_error "api_url")
  | some url ↦ ok (record { api_url = strip_slashes url; headers = token_headers kwargs.api_token })
]

-- `"{api_url}/{app}/{endpoint}".format(…)`, and the same with an id behind it
abbrev pub list_url : Settings → String → String → String
list_url s app endpoint = s.api_url <> ("/" <> (app <> ("/" <> endpoint)))

module _ (repr : Json → String) where
  -- `str(v)`
  abbrev pub shown : Json → String
  shown (num n) = show_ℕ n
  shown (str s) = s
  shown null = repr null
  shown (flag b) = repr (flag b)
  shown (decimal s) = repr (decimal s)
  shown (arr vs) = repr (arr vs)
  shown (obj d) = repr (obj d)

  abbrev pub item_url : Settings → String → String → Json → String
  item_url s app endpoint id = list_url s app endpoint <> ("/" <> (shown id <> "/"))

-- `response["dict"]`, `response["status"]`, `response["error"]`
abbrev pub required {ℓ} : {A : Type ℓ} → String → Option A → Result A
required key none = err (key_error key)
required key (some a) = ok a

-- `response["dict"]["results"]`
unfoldable pub results : Response → Result Json
unfolding item
results response = required "dict" response.body >>= item "results"

-- `response["dict"]["results"]`, walked over by a loop, or counted
unfoldable pub result_list : Response → Result (List Json)
unfolding results iterate
result_list response = results response >>= iterate

-- The two lines that log an error: they read the keys of the response that they name.
unfoldable pub log_failure : Response → Result String
log_failure response =
    required "status" response.status >>= λ status. required "error" response.error

-- A value as the key of a dict. Names that are no texts are not modelled.
unfoldable pub name_of : Json → Result String
name_of (str s) = ok s
name_of null = err type_error
name_of (flag b) = err type_error
name_of (num n) = err type_error
name_of (decimal s) = err type_error
name_of (arr vs) = err type_error
name_of (obj d) = err type_error
