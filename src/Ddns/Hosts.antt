-- ===== src/Ddns/Hosts.antt =====
-- _modules/ddns.py: `add_host` and `delete_host`, which change the forward record of a host and the
-- reverse ones.
pub mod Port
pub mod Reverse
use ffmuc_salt_public.Prelude.{
  ℕ, String, ◌<>◌, Bool, true, false, not, Option, none, some, List, [], ◌∷◌, ◌++◌, if◌then◌else◌,
  ◌==◌, string_eq, nat_eq,
}
use ffmuc_salt_public.Prelude.Text.{join, split}
use ffmuc_salt_public.Prelude.Result
use ffmuc_salt_public.Prelude.Result.{Result, ok, err, attribute_error, unbound_error}
use ffmuc_salt_public.Prelude.Exec.{Exec, pure, raise, lift, ◌>>=◌}
use ffmuc_salt_public.Ddns.Message.{Rdata, Rrset, question, Server, Answer, Dns, World, Kwargs, udp}
use ffmuc_salt_public.Ddns.Update.{update}
use ffmuc_salt_public.Ddns.Delete.{delete}

-- `parts[::-1]`
unfoldable pub backwards : List String → List String
backwards [] = []
backwards (p ∷ parts) = backwards parts ++ (p ∷ [])

-- `if ptr`, `res is False`
abbrev pub is_true : Option Bool → Bool
is_true none = false
is_true (some b) = b

abbrev pub is_false : Option Bool → Bool
is_false none = false
is_false (some b) = not b

-- The reverse zone of the parts that are left
abbrev pub reverse_zone : List String → String
reverse_zone parts = join "." parts <> ".in-addr.arpa."

module _ (dns : Dns) where
  -- The loop of `add_host` over the reverse zones: it ends at the first update that is done.
  unfoldable pub add_ptr :
      List String
      → List String
      → String
      → ℕ
      → Server
      → Bool
      → Bool
      → Kwargs
      → Option Bool
      → Exec (World dns) (Option Bool)
  add_ptr [] popped fqdn ttl server replacing replace_on_change kwargs res = pure res
  add_ptr (p ∷ []) popped fqdn ttl server replacing replace_on_change kwargs res = pure res
  add_ptr (p ∷ q ∷ parts) popped fqdn ttl server replacing replace_on_change kwargs res = do
    ptr ←
        update dns (reverse_zone (q ∷ parts)) (join "." (popped ++ (p ∷ []))) ttl "PTR" fqdn server
          replacing replace_on_change kwargs
    if is_true ptr
        then pure (some true)
        else add_ptr (q ∷ parts) (popped ++ (p ∷ [])) fqdn ttl server replacing replace_on_change
            kwargs res

  -- `add_host`. It passes `port` at the place of `replace_on_change`, and no port: `update` uses its
  -- own, 53.
  unfoldable pub add_host :
      String → String → ℕ → String → Server → Bool → Kwargs → Exec (World dns) (Option Bool)
  add_host zone name ttl ip server replacing kwargs = do
    let to = record server { port = 53 }
    let replace_on_change = not (server.port == 0)
    res ← update dns zone name ttl "A" ip to replacing replace_on_change kwargs
    if is_false res
        then pure (some false)
        else add_ptr (backwards (split "." ip)) [] (name <> ("." <> (zone <> "."))) ttl to replacing
            replace_on_change kwargs res

  -- `[i.address for i in …]`
  addresses : List Rdata → Result (List String)
  addresses [] = ok []
  addresses (item ∷ items) =
      Result.◌>>=◌ (elim item.address [ none ↦ err attribute_error | some a ↦ ok a ])
        λ a. Result.◌>>=◌ (addresses items) λ rest. ok (a ∷ rest)

  unfoldable pub first_addresses : List Rrset → Result (List String)
  unfolding addresses
  first_addresses [] = ok []
  first_addresses (rrset ∷ rest) = addresses rrset.items

  -- The loop of `delete_host` over the reverse zones of an address, with `ptr`, if it is bound. It
  -- goes through all of them.
  unfoldable pub delete_ptr :
      List String
      → List String
      → String
      → Server
      → Kwargs
      → Option (Option Bool)
      → Exec (World dns) (Option (Option Bool))
  delete_ptr [] popped fqdn server kwargs ptr = pure ptr
  delete_ptr (p ∷ []) popped fqdn server kwargs ptr = pure ptr
  delete_ptr (p ∷ q ∷ parts) popped fqdn server kwargs ptr = do
    status ←
        delete dns (reverse_zone (q ∷ parts)) (join "." (popped ++ (p ∷ []))) (some "PTR")
          (some fqdn) server kwargs
    delete_ptr (q ∷ parts) (popped ++ (p ∷ [])) fqdn server kwargs (some status)

  -- `if ptr: res = True`
  unfoldable pub with_ptr : Option (Option Bool) → Option Bool → Result (Option Bool)
  with_ptr none res = err (unbound_error "ptr")
  with_ptr (some none) res = ok res
  with_ptr (some (some false)) res = ok res
  with_ptr (some (some true)) res = ok (some true)

  -- The loop over the addresses
  unfoldable pub delete_ptrs :
      List String
      → String
      → Server
      → Kwargs
      → Option (Option Bool)
      → Option Bool
      → Exec (World dns) (Option Bool)
  delete_ptrs [] fqdn server kwargs ptr res = pure res
  delete_ptrs (ip ∷ ips) fqdn server kwargs ptr res = do
    ptr' ← delete_ptr (backwards (split "." ip)) [] fqdn server kwargs ptr
    res' ← lift (with_ptr ptr' res)
    delete_ptrs ips fqdn server kwargs ptr' res'

  -- `delete_host`
  unfoldable pub delete_host : String → String → Server → Kwargs → Exec (World dns) (Option Bool)
  delete_host zone name server kwargs = do
    let fqdn = name <> ("." <> zone)
    query ← lift (dns.make_query fqdn "A")
    found ← udp dns server (question query)
    ips ← lift (first_addresses found.answer)
    res ← delete dns zone name none none server kwargs
    delete_ptrs ips (fqdn <> ".") server kwargs none res
