-- ===== src/Netbox/Lookups/Addresses.antt =====
-- `get_extra_dns_entries`: the dict that it builds from the results.
use ffmuc_salt_public.Prelude.{
  String, ◌<>◌, ◌≡◌, refl, ◌∙◌, ap, sym, Bool-cases, inl, inr, Option, none, some, List, [], ◌∷◌,
  if◌then◌else◌, arith, ◌==◌, string_eq, option_eq, nat_eq,
}
use Prim.Native.Char.{code}
use ffmuc_salt_public.Prelude.Text.{split, split-cons, partition}
use ffmuc_salt_public.Prelude.Dict.{Dict, lookup, insert, lookup-insert}
use ffmuc_salt_public.Prelude.Result.{Result, ok, >>=-eq-ok, ok_inj}
use ffmuc_salt_public.Netbox.Query.{Request, Response, query}
use ffmuc_salt_public.Netbox.Lookups.{
  Host, Entry, required, authorization, first_part, host_address, host_entry, add_hosts,
  get_extra_dns_entries,
}
use ffmuc_salt_public.Netbox.Lookups.Latest.{required-ok}
use ffmuc_salt_public.Netbox.Lookups.Closed.{Answered, query-Answered}

-- An address of a device without its prefix length: what stands before the first slash
abbrev pub without_length : Option (Option (Option String)) → Option String
without_length (some (some (some text))) = some (partition "/" text).0
without_length (some (some none)) = none
without_length (some none) = none
without_length none = none

-- The addresses of a device: the one of IPv4, and the one of IPv6
abbrev pub addresses_of : Host → Entry
addresses_of host = record {
  address = without_length host.primary_ip4;
  address6 = without_length host.primary_ip6;
}

-- The addresses of the last device of a name, and `before` if there is none
abbrev pub latest_addresses : String → Option Entry → List Host → Option Entry
latest_addresses k before [] = before
latest_addresses k before (host ∷ rest) =
    latest_addresses k (if host.name == some k then some (addresses_of host) else before) rest

first_part-split : (s : String) → first_part (split "/" s) ≡ (partition "/" s).0
unfolding split partition
first_part-split String.[] = refl
first_part-split (String.◌∷◌ c s) =
    let (front, parts, e) = split-cons "/" s in
    let same = ap first_part (sym e) ∙ first_part-split s in
    elim (Bool-cases (code c == b'/')) [
      | inl cut ↦ rw cut refl
      | inr other ↦ rw (other, e) (ap (String.◌∷◌ c) same)
    ]

host_address-without_length :
    (key : String) (a : Option (Option (Option String))) (r : Option String)
    → host_address key a ≡ ok r
    → r ≡ without_length a
unfolding host_address
host_address-without_length key none r h = cc
host_address-without_length key (some none) r h = sym (ok_inj h)
host_address-without_length key (some (some none)) r h = cc
host_address-without_length key (some (some (some text))) r h =
    sym (ok_inj h) ∙ ap some (first_part-split text)

host_entry-addresses_of :
    (host : Host) (found : String × Entry)
    → host_entry host ≡ ok found
    → (host.name ≡ some found.0) × (found.1 ≡ addresses_of host)
unfolding host_entry
host_entry-addresses_of host found h =
    let (name, e, h1) = >>=-eq-ok (required "name" host.name) _ h in
    let (address, e4, h2) = >>=-eq-ok (host_address "primary_ip4" host.primary_ip4) _ h1 in
    let (address6, e6, h3) = >>=-eq-ok (host_address "primary_ip6" host.primary_ip6) _ h2 in
    (
      required-ok "name" name host.name e ∙ ap (λ f. some f.0) (ok_inj h3),
      ap (λ f. f.1) (sym (ok_inj h3))
          ∙ ap (λ a. record { address = a; address6 = address6 })
              (host_address-without_length "primary_ip4" host.primary_ip4 address e4)
          ∙ ap (λ a. record { address = without_length host.primary_ip4; address6 = a })
              (host_address-without_length "primary_ip6" host.primary_ip6 address6 e6),
    )

same-name : (k n : String) (o : Option String) → o ≡ some n → (o == some k) ≡ (k == n)
same-name k n o h = ground arith

add_hosts-lookup :
    (k : String) (results : List Host) (entries found : Dict String Entry)
    → add_hosts results entries ≡ ok found
    → lookup k found ≡ latest_addresses k (lookup k entries) results
unfolding add_hosts
add_hosts-lookup k [] entries found h = ap (lookup k) (sym (ok_inj h))
add_hosts-lookup k (host ∷ rest) entries found h =
    let (x, e, h1) = >>=-eq-ok (host_entry host) _ h in
    let (name, addresses) = host_entry-addresses_of host x e in
    add_hosts-lookup k rest (insert x.0 x.1 entries) found h1
    ∙ ap (λ o. latest_addresses k o rest)
        (lookup-insert k x.0 x.1 entries
          ∙ ap (λ b. if b then some x.1 else lookup k entries)
              (sym (same-name k x.0 host.name name))
          ∙ ap (λ a. if host.name == some k then some a else lookup k entries) addresses)

-- Where `get_extra_dns_entries` returns, Netbox has answered with a success and a list of devices, and
-- the dict holds, for each name, the addresses of the last device of that name, each up to its first
-- slash, and nothing else: `address` is the primary IPv4 address and `address6` the primary IPv6
-- address, where the device has one.
pub get_extra_dns_entries-latest :
    (get : Request → Result (Response Host)) (netbox_api netbox_token filter : String)
    (entries : Dict String Entry)
    → get_extra_dns_entries get netbox_api netbox_token filter ≡ ok entries
    → (results : List Host) × Answered get
        (record {
          url = netbox_api <> ("/dcim/devices/?" <> filter);
          headers = authorization netbox_token ∷ [];
        })
        results
      × ((name : String) → lookup name entries ≡ latest_addresses name none results)
unfolding get_extra_dns_entries lookup
get_extra_dns_entries-latest get netbox_api netbox_token filter entries h =
    let (results, e, h1) =
      >>=-eq-ok
        (query get "extra_dns_entries: querying Netbox for devices"
          (netbox_api <> ("/dcim/devices/?" <> filter)) (authorization netbox_token ∷ []))
        _ h in
    (results, query-Answered get _ _ _ results e, λ k. add_hosts-lookup k results [] entries h1)
