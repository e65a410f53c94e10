-- ===== src/Netbox/Lookups/Latest.antt =====
-- `get_site_prefixes`: the dict that it builds from the results.
use ffmuc_salt_public.Prelude.{
  String, ◌<>◌, ◌≡◌, ◌∙◌, ap, sym, Option, none, some, List, [], ◌∷◌, if◌then◌else◌, arith, ◌==◌,
  string_eq, option_eq,
}
use ffmuc_salt_public.Prelude.Dict.{Dict, lookup, insert, lookup-insert}
use ffmuc_salt_public.Prelude.Result.{Result, ok, >>=-eq-ok, ok_inj}
use ffmuc_salt_public.Netbox.Query.{Request, Response, query}
use ffmuc_salt_public.Netbox.Lookups.{
  Prefix, required, authorization, add_prefixes, get_site_prefixes,
}
use ffmuc_salt_public.Netbox.Lookups.Closed.{Answered, query-Answered}

-- The last prefix of a description, and `before` if there is none
abbrev pub latest : String → Option Prefix → List Prefix → Option Prefix
latest d before [] = before
latest d before (p ∷ rest) = latest d (if p.description == some d then some p else before) rest

pub required-ok : (key d : String) (o : Option String) → required key o ≡ ok d → o ≡ some d
required-ok key d none h = cc
required-ok key d (some s) h = cc

same-description :
    (k d : String) (p : Prefix) → p.description ≡ some d → (p.description == some k) ≡ (k == d)
same-description k d p h = ground arith

add_prefixes-lookup :
    (k : String) (results : List Prefix) (prefixes found : Dict String Prefix)
    → add_prefixes results prefixes ≡ ok found
    → lookup k found ≡ latest k (lookup k prefixes) results
unfolding add_prefixes
add_prefixes-lookup k [] prefixes found h = ap (lookup k) (sym (ok_inj h))
add_prefixes-lookup k (p ∷ rest) prefixes found h =
    let (d, e, h1) = >>=-eq-ok (required "description" p.description) _ h in
    add_prefixes-lookup k rest (insert d p prefixes) found h1
    ∙ ap (λ o. latest k o rest)
        (lookup-insert k d p prefixes
          ∙ ap (λ b. if b then some p else lookup k prefixes)
              (sym (same-description k d p (required-ok "description" d p.description e))))

-- Where `get_site_prefixes` returns, Netbox has answered with a success and a list of prefixes, and
-- the dict holds, for each description, the last prefix of that description, and nothing else: a
-- failed lookup never looks like one without prefixes.
pub get_site_prefixes-latest :
    (get : Request → Result (Response Prefix)) (netbox_api netbox_token filter : String)
    (prefixes : Dict String Prefix)
    → get_site_prefixes get netbox_api netbox_token filter ≡ ok prefixes
    → (results : List Prefix) × Answered get
        (record {
          url = netbox_api <> ("/ipam/prefixes/?" <> filter);
          headers = authorization netbox_token ∷ [];
        })
        results
      × ((description : String) → lookup description prefixes ≡ latest description none results)
unfolding get_site_prefixes lookup
get_site_prefixes-latest get netbox_api netbox_token filter prefixes h =
    let (results, e, h1) =
      >>=-eq-ok
        (query get "site_prefixes: querying Netbox for prefixes"
          (netbox_api <> ("/ipam/prefixes/?" <> filter)) (authorization netbox_token ∷ []))
        _ h in
    (results, query-Answered get _ _ _ results e, λ d. add_prefixes-lookup d results [] prefixes h1)
