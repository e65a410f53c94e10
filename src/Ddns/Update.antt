-- ===== src/Ddns/Update.antt =====
-- _modules/ddns.py: `update`.
pub mod Each
pub mod Messages
use ffmuc_salt_public.Prelude.{
  ℕ, String, ◌<>◌, Bool, true, false, not, ◌&&◌, ◌||◌, Option, none, some, List, [], ◌∷◌, any,
  contains, length, if◌then◌else◌, ◌==◌, nat_eq, ltb, leb,
}
use ffmuc_salt_public.Prelude.Text.{ends_with}
use ffmuc_salt_public.Prelude.Exec.{Exec, pure, lift, ◌>>=◌, ◌>>◌}
use ffmuc_salt_public.Ddns.Message.{
  Rdata, rdata_eq, Rrset, Command, replace, add, Message, question, change, Server, Answer, Dns,
  World, Kwargs, udp, config, get_keyring, make_update,
}

abbrev pub full_name : String → String → String
full_name name zone = if ends_with name "." then name else name <> ("." <> zone)

-- The loop that sets `is_exist`
unfoldable pub exists : Rdata → ℕ → List Rrset → Bool
exists rdata ttl rrsets =
    any
      (λ rrset.
        contains rrset.items rdata
        && (ttl == rrset.ttl && (leb 1 (length rrsets) || leb 1 (length rrset.items))))
      rrsets

-- The value of `replace` behind the test of `replace_on_change`. The loop variable `rrset` is the only
-- rrset where it is read.
unfoldable pub replaces : Bool → Bool → Rdata → List Rrset → Bool
replaces replacing replace_on_change rdata [] = replacing
replaces replacing replace_on_change rdata (rrset ∷ []) =
    if replace_on_change && not (contains rrset.items rdata) then true else replacing
replaces replacing replace_on_change rdata (first ∷ second ∷ rest) =
    if replace_on_change then true else replacing

module _ (dns : Dns) where
  -- The end of `update` and of `delete`: the message is sent, and the answer's code read.
  unfoldable pub send_update :
      Server → String → Kwargs → Option String → Command → Exec (World dns) (Option Bool)
  send_update server zone kwargs keyring command = do
    let message = make_update dns zone kwargs keyring command
    lift (dns.accepts message)
    answer ← udp dns server (change message)
    pure (some (not (ltb 0 answer.rcode)))

  -- `update` returns True, False or None.
  unfoldable pub update :
      String
      → String
      → ℕ
      → String
      → String
      → Server
      → Bool
      → Bool
      → Kwargs
      → Exec (World dns) (Option Bool)
  update zone name ttl rdtype text server replacing replace_on_change kwargs = do
    query ← lift (dns.make_query (full_name name zone) rdtype)
    found ← udp dns server (question query)
    type ← lift (dns.rdatatype rdtype)
    rdata ← lift (dns.rdata type text)
    keyring ← lift (get_keyring dns (config dns "keyfile" kwargs.keyfile))
    if replaces replacing replace_on_change rdata found.answer
        then send_update server zone kwargs keyring (replace name ttl rdata)
        else if not (exists rdata ttl found.answer)
        then send_update server zone kwargs keyring (add name ttl rdata)
        else pure none
