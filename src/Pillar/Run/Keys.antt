-- ===== src/Pillar/Run/Keys.antt =====
-- `ext_pillar` of _pillar/netbox.py: the keys of the pillar.
use ffmuc_salt_public.Prelude.{
  String, ◌≡◌, refl, ap, sym, ◌∙◌, Bool, true, false, Option, none, some, [], if◌then◌else◌, ◌==◌,
  string_eq, Bool-cases, inl, inr, ◌⊎◌,
}
use ffmuc_salt_public.Prelude.Json.{Json, obj, Fields, end, put, truthy, item}
use ffmuc_salt_public.Prelude.Result.{Result, ok, err, ◌>>=◌, >>=-eq-ok, ok_inj}
use ffmuc_salt_public.Pillar.Api.{
  Kwargs, Settings, Request, Response, get_or, settings, required, name_of,
}
use ffmuc_salt_public.Pillar.Search.{search, only_result, details, with_services}
use ffmuc_salt_public.Pillar.Interfaces.{Flow, returned, go, if_go, with_interfaces}
use ffmuc_salt_public.Pillar.Site.{SiteQuery, site_query, with_details, with_prefixes, with_tags}
use ffmuc_salt_public.Pillar.Proxy.{
  ipv4_interface, napalm_driver, proxy, attempt, with_proxy, caught,
}
use ffmuc_salt_public.Pillar.Run.{netbox, finish, with_device, if_some, ext_pillar}

-- No value has the attribute that the code calls.
proxy_fails :
    (kwargs : Kwargs) (driver device : Json) (last : Option Json) (p : Fields)
    → proxy kwargs driver device last ≡ ok p
    → ⊥
unfolding proxy ipv4_interface
proxy_fails kwargs driver device none p h = cc
proxy_fails kwargs driver device (some v) p h = cc

if-ok :
    (b : Bool) (m : Result Fields) (ret p : Fields)
    → ((q : Fields) → m ≡ ok q → ⊥)
    → (if b then m else ok ret) ≡ ok p
    → ret ≡ p
if-ok true m ret p k h = absurd (k p h)
if-ok false m ret p k h = ok_inj h

caught-same :
    (ret : Fields) (r : Result Fields) → ((p : Fields) → r ≡ ok p → ret ≡ p) → caught ret r ≡ ret
caught-same ret (ok p) k = sym (k p refl)
caught-same ret (err e) k = refl

empty_or :
    (b : Bool) (m : Result Fields) (ret : Fields)
    → (if b then ok end else m) ≡ ok ret
    → (ret ≡ end) ⊎ (m ≡ ok ret)
empty_or true m ret h = inl (sym (ok_inj h))
empty_or false m ret h = inr h

netbox-put : (device changed : Json) → put "netbox" changed (netbox device) ≡ netbox changed
unfolding put string_eq
netbox-put device changed = refl

-- The pillar is empty, or it has just the key "netbox".
abbrev OnlyNetbox : Fields → Type 0
OnlyNetbox ret = (ret ≡ end) ⊎ ((device : Json) × (ret ≡ netbox device))

module _ (http : Request → Response) (kwargs : Kwargs) where
  attempt-ok :
      (s : Settings) (device : Json) (last : Option Json) (ret p : Fields)
      → attempt http s kwargs device last ret ≡ ok p
      → ret ≡ p
  unfolding attempt
  attempt-ok s device last ret p h =
      let (platform, e, h1) = >>=-eq-ok (item "platform" device) _ h in
      let (url, e1, h2) = >>=-eq-ok (item "url" platform) _ h1 in
      let (text, e2, h3) = >>=-eq-ok (name_of url) _ h2 in
      let (body, e3, h4) =
        >>=-eq-ok
          (required "dict" (http (record { url = text; params = []; headers = s.headers })).body) _
          h3 in
      let (driver, e4, h5) = >>=-eq-ok (napalm_driver body) _ h4 in
      if-ok (truthy driver) _ ret p (no_proxy driver) h5
    where
      no_proxy :
          (driver : Json) (q : Fields)
          → (proxy kwargs driver device last >>= λ p. ok (put "proxy" (obj p) ret)) ≡ ok q
          → ⊥
      no_proxy driver q h =
          let (p, e, h') = >>=-eq-ok (proxy kwargs driver device last) _ h in
          proxy_fails kwargs driver device last p e

  -- The attempt changes nothing.
  with_proxy-same :
      (s : Settings) (device : Json) (last : Option Json) (ret : Fields)
      → with_proxy http s kwargs device last ret ≡ ret
  unfolding with_proxy
  with_proxy-same s device last ret = elim (Bool-cases (get_or true kwargs.proxy_return)) [
    | inl b ↦
        rw b
          (caught-same ret (attempt http s kwargs device last ret) (attempt-ok s device last ret))
    | inr b ↦ rw b refl
  ]

  finish-OnlyNetbox :
      (repr : Json → String) (s : Settings) (q : SiteQuery) (flow : Flow) (ret : Fields)
      → finish http repr kwargs s q flow ≡ ok ret
      → OnlyNetbox ret
  unfolding finish
  finish-OnlyNetbox repr s q (returned device) ret h = inr (device, sym (ok_inj h))
  finish-OnlyNetbox repr s q (go device last) ret h =
      let (detailed, e, h1) = >>=-eq-ok (with_details http repr s q device) _ h in
      let (prefixed, e1, h2) = >>=-eq-ok (with_prefixes http repr s q detailed) _ h1 in
      let (tagged, e2, h3) = >>=-eq-ok (with_tags prefixed) _ h2 in
      inr (
        tagged,
        sym (ok_inj h3)
            ∙ ap (put "netbox" tagged) (with_proxy-same s prefixed last (netbox prefixed))
            ∙ netbox-put prefixed tagged,
      )

  with_device-OnlyNetbox :
      (repr : Json → String) (s : Settings) (found device : Json) (ret : Fields)
      → with_device http repr kwargs s found device ≡ ok ret
      → OnlyNetbox ret
  unfolding with_device
  with_device-OnlyNetbox repr s found device ret h =
      let (q, e, h1) = >>=-eq-ok (site_query kwargs device) _ h in
      let (served, e1, h2) = >>=-eq-ok (with_services http repr s device) _ h1 in
      let (id, e2, h3) = >>=-eq-ok (item "id" found) _ h2 in
      let (flow, e3, h4) = >>=-eq-ok (with_interfaces http repr s id served) _ h3 in
      let (flow', e4, h5) = >>=-eq-ok (if_go flow _) _ h4 in finish-OnlyNetbox repr s q flow' ret h5

  if_some-OnlyNetbox :
      (o : Option Json) (next : Json → Result Fields) (ret : Fields)
      → ((v : Json) → next v ≡ ok ret → OnlyNetbox ret)
      → if_some o next ≡ ok ret
      → OnlyNetbox ret
  if_some-OnlyNetbox none next ret k h = inl (sym (ok_inj h))
  if_some-OnlyNetbox (some v) next ret k h = k v h

  -- Whatever Netbox answers and whatever `proxy_return` is, the pillar that is returned is empty or has
  -- the key "netbox" and no other: the key "proxy" is never there.
  pub ext_pillar-keys :
      (repr : Json → String) (minion_id : String) (ret : Fields)
      → ext_pillar http repr kwargs minion_id ≡ ok ret
      → (ret ≡ end) ⊎ ((device : Json) × (ret ≡ netbox device))
  unfolding ext_pillar
  ext_pillar-keys repr minion_id ret h = elim (empty_or (minion_id == "*") _ ret h) [
    | inl e ↦ inl e
    | inr h1 ↦
        let (s, e, h2) = >>=-eq-ok (settings kwargs) _ h1 in
        let (found, e1, h3) = >>=-eq-ok (search http repr s minion_id) _ h2 in
        let (only, e2, h4) = >>=-eq-ok (only_result http repr s found) _ h3 in
        if_some-OnlyNetbox only _ ret
          (λ v h5.
            let (device, e3, h6) = >>=-eq-ok (details http repr s found v) _ h5 in
            if_some-OnlyNetbox device (with_device http repr kwargs s v) ret
              (λ d. with_device-OnlyNetbox repr s v d ret) h6)
          h4
  ]
