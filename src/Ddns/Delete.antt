-- ===== src/Ddns/Delete.antt =====
-- _modules/ddns.py: `delete`.
pub mod Messages
use ffmuc_salt_public.Prelude.{
  String, Bool, Option, none, some, List, [], ◌∷◌, if◌then◌else◌, ◌==◌, string_eq,
}
use ffmuc_salt_public.Prelude.Result
use ffmuc_salt_public.Prelude.Result.{Result, ok, err}
use ffmuc_salt_public.Prelude.Exec.{Exec, pure, lift, ◌>>=◌}
use ffmuc_salt_public.Ddns.Message.{
  Rrset, Command, delete_rdata, delete_type, delete_name, question, Server, Answer, Dns, World,
  Kwargs, truthy, udp, config, get_keyring,
}
use ffmuc_salt_public.Ddns.Update.{full_name, send_update}

-- `rdtype or "ANY"`
abbrev pub or_any : Option String → String
or_any none = "ANY"
or_any (some t) = t

module _ (dns : Dns) where
  -- The command of a type and of data that are not false
  delete_given : String → Option String → Option String → Result Command
  delete_given name none text = ok (delete_name name)
  delete_given name (some t) none =
      Result.◌>>=◌ (dns.rdatatype t) λ type. ok (delete_type name type)
  delete_given name (some t) (some text) =
      Result.◌>>=◌ (dns.rdatatype t)
        λ type. Result.◌>>=◌ (dns.rdata type text) λ rdata. ok (delete_rdata name rdata)

  unfoldable pub delete_command : String → Option String → Option String → Result Command
  unfolding delete_given
  delete_command name rdtype text = delete_given name (truthy rdtype) (truthy text)

  unfoldable pub delete_found :
      String
      → String
      → Option String
      → Option String
      → Server
      → Kwargs
      → List Rrset
      → Exec (World dns) (Option Bool)
  delete_found zone name rdtype text server kwargs [] = pure none
  delete_found zone name rdtype text server kwargs (rrset ∷ rest) = do
    keyring ← lift (get_keyring dns (config dns "keyfile" kwargs.keyfile))
    command ← lift (delete_command name rdtype text)
    send_update dns server zone kwargs keyring command

  -- `delete` returns True, False or None.
  unfoldable pub delete :
      String
      → String
      → Option String
      → Option String
      → Server
      → Kwargs
      → Exec (World dns) (Option Bool)
  delete zone name rdtype text server kwargs = do
    query ← lift (dns.make_query (full_name name zone) (or_any (truthy rdtype)))
    found ← udp dns server (question query)
    delete_found zone name rdtype text server kwargs found.answer
