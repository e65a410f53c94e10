-- ===== src/Pillar/Run/Failures.antt =====
-- `ext_pillar` of _pillar/netbox.py: what becomes of a query for the device that fails.
use ffmuc_salt_public.Prelude.{
  ℕ, String, ◌≡◌, refl, true, false, Option, none, some, is_some, ◌⊎◌, inl, inr, ◌==◌, string_eq,
}
use ffmuc_salt_public.Prelude.Json.{Json}
use ffmuc_salt_public.Prelude.Result.{ok, err, key_error, ◌>>=◌}
use ffmuc_salt_public.Pillar.Api.{
  Kwargs, Settings, Request, Response, settings, required, results, result_list, log_failure,
}
use ffmuc_salt_public.Pillar.Search.{get, search_request, search, only_result, details_url, details}
use ffmuc_salt_public.Pillar.Run.{ext_pillar}

failed_log :
    (found : Response)
    → found.error ≡ none
    → (key : String) × (log_failure found ≡ err (key_error key))
unfolding log_failure
failed_log found e = logged found.status
  where
    logged :
        (status : Option ℕ)
        → (key : String) × ((required "status" status >>= λ n. required "error" found.error)
            ≡ err (key_error key))
    logged none = ("status", refl)
    logged (some n) = ("error", rw e refl)

module _ (http : Request → Response) (repr : Json → String) (s : Settings) where
  -- The search for the device has a response without a decoded body, which is what a failed query has.
  abbrev pub SearchFails : String → Type 0
  SearchFails minion_id = (http (search_request http repr s "dcim" "devices" minion_id)).body ≡ none

  -- The search found one device, and the query for its details fails.
  abbrev pub DetailsFail : String → Type 0
  DetailsFail minion_id =
      (found : Response) × (v : Json) × (url : String) × (search http repr s minion_id ≡ ok found)
      × (found.error ≡ none)
      × (only_result http repr s found ≡ ok (some v))
      × (details_url http repr s v ≡ ok url)
      × (is_some (get http repr s url).error ≡ true)

  failed_search :
      (minion_id : String)
      → SearchFails minion_id
      → search http repr s minion_id ≡ err (key_error "dict")
  unfolding search result_list results
  failed_search minion_id h = rw h refl

  failed_details :
      (found : Response) (v : Json) (url key : String)
      → log_failure found ≡ err (key_error key)
      → details_url http repr s v ≡ ok url
      → is_some (get http repr s url).error ≡ true
      → details http repr s found v ≡ err (key_error key)
  unfolding details
  failed_details found v url key l u f = rw (u, f, l) refl

-- Where the search for the device fails, or the query for the details of the one that was found, the
-- function raises a KeyError: it does not come to the empty pillar that it means to return then.
pub failed_query-raises :
    (http : Request → Response) (repr : Json → String) (kwargs : Kwargs) (s : Settings)
    (minion_id : String)
    → settings kwargs ≡ ok s
    → (minion_id == "*") ≡ false
    → SearchFails http repr s minion_id ⊎ DetailsFail http repr s minion_id
    → (key : String) × (ext_pillar http repr kwargs minion_id ≡ err (key_error key))
unfolding ext_pillar
failed_query-raises http repr kwargs s minion_id e m (inl h) =
    ("dict", rw (m, e, failed_search http repr s minion_id h) refl)
failed_query-raises http repr kwargs s minion_id e m (inr (found, v, url, f, no_error, one, u, g)) =
    let (key, l) = failed_log found no_error in
    (key, rw (m, e, f, one, failed_details http repr s found v url key l u g) refl)
