-- ===== src/Pillar/Run.antt =====
-- _pillar/netbox.py: `ext_pillar`.
pub mod Failures
pub mod Keys
use ffmuc_salt_public.Prelude.{
  ℕ, String, Bool, Option, none, some, is_some, List, [], ◌∷◌, if◌then◌else◌, ◌==◌, string_eq,
}
use ffmuc_salt_public.Prelude.Json.{Json, obj, Fields, end, field, put, item}
use ffmuc_salt_public.Prelude.Result.{Result, ok, err, ◌>>=◌, ◌>>◌}
use ffmuc_salt_public.Pillar.Api.{Kwargs, Settings, Request, Response, settings, results}
use ffmuc_salt_public.Pillar.Search.{search, only_result, details, with_services}
use ffmuc_salt_public.Pillar.Interfaces.{Flow, returned, go, if_go, with_interfaces, with_addresses}
use ffmuc_salt_public.Pillar.Site.{SiteQuery, site_query, with_details, with_prefixes, with_tags}
use ffmuc_salt_public.Pillar.Proxy.{with_proxy}

abbrev pub netbox : Json → Fields
netbox device = field "netbox" device end

-- `return ret` where there is nothing
abbrev pub if_some : Option Json → (Json → Result Fields) → Result Fields
if_some none next = ok end
if_some (some v) next = next v

module _ (http : Request → Response) (repr : Json → String) (kwargs : Kwargs) where
  -- What follows the loop over the addresses
  unfoldable pub finish : Settings → SiteQuery → Flow → Result Fields
  unfolding with_details with_prefixes with_tags with_proxy put
  finish s q (returned device) = ok (netbox device)
  finish s q (go device last) = do
    detailed ← with_details http repr s q device
    prefixed ← with_prefixes http repr s q detailed
    let ret = with_proxy http s kwargs prefixed last (netbox prefixed)
    tagged ← with_tags prefixed
    ok (put "netbox" tagged ret)

  -- From the details of the device on; `id` is the id of the search's result.
  unfoldable pub with_device : Settings → Json → Json → Result Fields
  unfolding site_query with_services with_interfaces with_addresses finish item
  with_device s found device = do
    q ← site_query kwargs device
    served ← with_services http repr s device
    id ← item "id" found
    flow ← with_interfaces http repr s id served
    flow' ← if_go flow λ filled last. with_addresses http repr s id filled
    finish s q flow'

  -- `ext_pillar`
  unfoldable pub ext_pillar : String → Result Fields
  unfolding settings search only_result details with_device
  ext_pillar minion_id = if minion_id == "*" then ok end else (do
    s ← settings kwargs
    found ← search http repr s minion_id
    only ← only_result http repr s found
    if_some only λ v. details http repr s found v >>= λ device. if_some device (with_device s v))
