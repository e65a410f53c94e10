-- ===== src/Cloudflare/Existing.antt =====
-- _states/cloudflare.py: `Zone.existing`, the walk over the pages of the zone's records. Python's
-- `re.match` is the parameter `matches`, pattern first.
pub mod Pages
pub mod Exclude
use ffmuc_salt_public.Prelude.{
  ℕ, zero, suc, ◌+◌, String, Bool, Option, none, ◌||◌, List, [], ◌∷◌, any, if◌then◌else◌, ◌==◌,
  string_eq, nat_eq, option_eq,
}
use ffmuc_salt_public.Prelude.Dict.{Dict, insert, values}
use ffmuc_salt_public.Prelude.Result
use ffmuc_salt_public.Prelude.Result.{Result, ok, err, key_error, attribute_error, exception}
use ffmuc_salt_public.Prelude.Exec.{Exec, pure, raise, lift, ◌>>=◌}
use ffmuc_salt_public.Cloudflare.Record.{RecordDict, Record, record_from_dict}
use ffmuc_salt_public.Cloudflare.Zone.{
  Zone, Api, World, Body, zone_body, page_body, other_body, no_json, records_uri, get, request,
}

abbrev pub Found : Type 0
Found = Dict (Option String) Record

pub record Page : Type 0 where
  pub result : List RecordDict
  pub page : ℕ
  pub total_pages : ℕ

-- `found["result"]` and `found["result_info"]`
unfoldable pub found_page : Body → Result Page
found_page (page_body result page total) =
    ok (record { result = result; page = page; total_pages = total })
found_page (zone_body name) = err attribute_error
found_page other_body = err (key_error "result")
found_page no_json = err (key_error "result")

module _ (matches : String → String → Bool) where
  -- The inner loop stops at the first pattern that matches.
  unfoldable pub is_excluded : List String → String → Bool
  is_excluded patterns name = any (λ pattern. matches pattern name) patterns

  -- One round of the loop over a page. `record_dict["id"]` is read behind the `setdefault`.
  unfoldable pub add_dict : List String → RecordDict → Found → Result Found
  add_dict exclude d found =
      Result.◌>>=◌ (record_from_dict d)
        λ r. ok (if is_excluded exclude r.name then found else insert d.id r found)

  unfoldable pub add_page : List String → List RecordDict → Found → Result Found
  add_page exclude [] found = ok found
  add_page exclude (d ∷ rest) found =
      Result.◌>>=◌ (add_dict exclude d found) (add_page exclude rest)

  module _ (api : Api) where
    -- `while True`, with the rounds that are left; a run out of rounds is no Python exception.
    unfoldable pub pages : ℕ → Zone → ℕ → Found → Exec (World api) Found
    unfolding found_page
    pages zero z page found = raise (exception "out of rounds")
    pages (suc rounds) z page found = do
      body ← request api z (records_uri z.zone_id page) get none
      p ← lift (found_page body)
      found' ← lift (add_page z.exclude p.result found)
      if p.page == p.total_pages || p.total_pages == 0
          then pure found'
          else pages rounds z (page + 1) found'

    unfoldable pub existing : ℕ → Zone → Exec (World api) (List Record)
    existing rounds z = do found ← pages rounds z 1 []; pure (values found)
