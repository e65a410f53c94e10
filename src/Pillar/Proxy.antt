-- ===== src/Pillar/Proxy.antt =====
-- _pillar/netbox.py: `ext_pillar`, the attempt to add the key "proxy". In `ext_pillar` the name
-- `ipaddress` is the variable of the loop over the addresses, and not the module that the file imports.
use ffmuc_salt_public.Prelude.{String, true, Option, none, some, [], if◌then◌else◌, ◌==◌, string_eq}
use ffmuc_salt_public.Prelude.Json.{
  Json, null, flag, num, decimal, str, arr, obj, Fields, end, field, get, put, item, truthy,
}
use ffmuc_salt_public.Prelude.Result.{Result, ok, err, attribute_error, unbound_error, ◌>>=◌}
use ffmuc_salt_public.Pillar.Api.{Kwargs, Settings, Request, Response, get_or, required, name_of}

-- `v.get("napalm_driver")`
unfoldable pub napalm_driver : Json → Result Json
unfolding get
napalm_driver null = err attribute_error
napalm_driver (flag b) = err attribute_error
napalm_driver (num n) = err attribute_error
napalm_driver (decimal s) = err attribute_error
napalm_driver (str s) = err attribute_error
napalm_driver (arr vs) = err attribute_error
napalm_driver (obj d) = elim (get "napalm_driver" d) [ none ↦ ok null | some v ↦ ok v ]

-- `ipaddress.IPv4Interface`, a function from a text to the text of its address: the variable is not
-- bound, or it is a JSON value, which has no such attribute.
unfoldable pub ipv4_interface : Option Json → Result (Json → Result String)
ipv4_interface none = err (unbound_error "ipaddress")
ipv4_interface (some v) = err attribute_error

abbrev username : Option String → Fields → Fields
username none proxy = proxy
username (some name) proxy = if name == "" then proxy else put "username" (str name) proxy

-- What is put at the key "proxy"
unfoldable pub proxy : Kwargs → Json → Json → Option Json → Result Fields
unfolding ipv4_interface item put
proxy kwargs driver device last = do
  interface ← ipv4_interface last
  primary ← item "primary_ip4" device
  address ← item "address" primary
  host ← interface address
  ok (
      username kwargs.proxy_username
        (field "host" (str host) (field "driver" driver (field "proxytype" (str "napalm") end))))

-- `except Exception`
abbrev pub caught : Fields → Result Fields → Fields
caught ret (ok changed) = changed
caught ret (err e) = ret

module _ (http : Request → Response) (s : Settings) (kwargs : Kwargs) where
  -- What stands in the `try`: the pillar, with the proxy or without
  unfoldable pub attempt : Json → Option Json → Fields → Result Fields
  unfolding item name_of napalm_driver truthy proxy put
  attempt device last ret = do
    platform ← item "platform" device
    url ← item "url" platform
    text ← name_of url
    let response = http (record { url = text; params = []; headers = s.headers })
    body ← required "dict" response.body
    driver ← napalm_driver body
    if truthy driver
        then (proxy kwargs driver device last >>= λ p. ok (put "proxy" (obj p) ret))
        else ok ret

  -- `if proxy_return`
  unfoldable pub with_proxy : Json → Option Json → Fields → Fields
  unfolding attempt
  with_proxy device last ret =
      if get_or true kwargs.proxy_return then caught ret (attempt device last ret) else ret
