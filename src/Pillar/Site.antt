-- ===== src/Pillar/Site.antt =====
-- _pillar/netbox.py: `ext_pillar`, the details and the prefixes of the site, and the tags.
use ffmuc_salt_public.Prelude.{
  String, Bool, true, false, not, is_some, List, [], ◌∷◌, if◌then◌else◌,
}
use ffmuc_salt_public.Prelude.Json.{Json, num, arr, items, item, set_item, iterate, truthy}
use ffmuc_salt_public.Prelude.Result.{Result, ok, ◌>>=◌}
use ffmuc_salt_public.Pillar.Api.{
  Kwargs, Settings, Request, Response, get_or, list_url, item_url, required, results, log_failure,
}
use ffmuc_salt_public.Pillar.Search.{get}

-- `site_details`, `site_prefixes` and `site_id`, once the site of the device is known
pub record SiteQuery : Type 0 where
  pub site_details : Bool
  pub site_prefixes : Bool
  pub site_id : Json

unfoldable pub site_query : Kwargs → Json → Result SiteQuery
unfolding item truthy
site_query kwargs device = do
  site ← item "site" device
  if not (truthy site)
      then ok (record { site_details = false; site_prefixes = false; site_id = num 0 })
      else (do
        id ← item "id" site
        name ← item "name" site
        ok (record {
          site_details = get_or true kwargs.site_details;
          site_prefixes = get_or true kwargs.site_prefixes;
          site_id = id;
        }))

module _ (http : Request → Response) (repr : Json → String) (s : Settings) where
  -- `if site_details`
  unfoldable pub with_details : SiteQuery → Json → Result Json
  unfolding log_failure set_item
  with_details q device =
      let response = get http repr s (item_url repr s "dcim" "sites" q.site_id) in
      if not q.site_details
      then ok device
      else if is_some response.error
      then (log_failure response >>= λ text. ok device)
      else (required "dict" response.body >>= λ site. set_item "site" site device)

  -- `if site_prefixes`
  unfoldable pub with_prefixes : SiteQuery → Json → Result Json
  unfolding log_failure results item set_item
  with_prefixes q device =
      let response = http (record {
        url = list_url s "ipam" "prefixes";
        params = ("site_id", q.site_id) ∷ [];
        headers = s.headers;
      }) in
      if not q.site_prefixes
      then ok device
      else if is_some response.error
      then (log_failure response >>= λ text. ok device)
      else (do
        prefixes ← results response
        site ← item "site" device
        changed ← set_item "prefixes" prefixes site
        set_item "site" changed device)

unfoldable pub slugs : List Json → Result (List Json)
unfolding item
slugs [] = ok []
slugs (tag ∷ tags) = item "slug" tag >>= λ slug. slugs tags >>= λ rest. ok (slug ∷ rest)

-- `ret["netbox"]["tag_list"]`
unfoldable pub with_tags : Json → Result Json
unfolding slugs item iterate set_item
with_tags device = do
  tags ← item "tags" device
  list ← iterate tags
  tag_list ← slugs list
  set_item "tag_list" (arr (items tag_list)) device
