-- ===== src/Ddns/Delete/Messages.antt =====
-- `delete` of _modules/ddns.py: what it sends, by what it returns.
use ffmuc_salt_public.Prelude.{◌≡◌, Bool, String, Option, none, List, [], ◌∷◌}
use ffmuc_salt_public.Prelude.Result.{ok}
use ffmuc_salt_public.Prelude.Exec.{Ensures, pure-Ensures, bind-Ensures, lift}
use ffmuc_salt_public.Ddns.Message.{
  Rrset, Question, question, Server, Dns, World, Kwargs, truthy, udp, config, get_keyring,
}
use ffmuc_salt_public.Ddns.Update.{full_name}
use ffmuc_salt_public.Ddns.Update.Messages.{Told, Told-question, send_update-Told, Asked}
use ffmuc_salt_public.Ddns.Delete.{or_any, delete_command, delete_found, delete}

module _ (dns : Dns) (server : Server) where
  delete_found-Told :
      (zone name : String) (rdtype text : Option String) (kwargs : Kwargs) (q : Question)
      (w : World dns) (found : List Rrset)
      → Ensures
          (Told dns server zone (question q ∷ []) w)
          (delete_found dns zone name rdtype text server kwargs found)
          (udp dns server (question q) w).1
  unfolding delete_found
  delete_found-Told zone name rdtype text kwargs q w [] =
      pure-Ensures (Told dns server zone (question q ∷ []) w) none (udp dns server (question q) w).1
        (Told-question dns server zone q w)
  delete_found-Told zone name rdtype text kwargs q w (rrset ∷ rest) =
      let w1 = (udp dns server (question q) w).1 in
      bind-Ensures (Told dns server zone (question q ∷ []) w)
        (lift (get_keyring dns (config dns "keyfile" kwargs.keyfile))) _ w1
        λ ring hr.
          bind-Ensures (Told dns server zone (question q ∷ []) w)
            (lift (delete_command dns name rdtype text)) _ w1
            λ command hc. send_update-Told dns server zone kwargs ring command q w

  pub delete-Ensures :
      (zone name : String) (rdtype text : Option String) (kwargs : Kwargs) (w : World dns)
      → Ensures
          (Asked dns server name zone (or_any (truthy rdtype)) w)
          (delete dns zone name rdtype text server kwargs)
          w
  unfolding delete
  delete-Ensures zone name rdtype text kwargs w =
      bind-Ensures (Asked dns server name zone (or_any (truthy rdtype)) w)
        (lift (dns.make_query (full_name name zone) (or_any (truthy rdtype)))) _ w
        λ q hq.
          bind-Ensures (Asked dns server name zone (or_any (truthy rdtype)) w)
            (udp dns server (question q)) _ w
            λ found hf status h.
              (q, hq, delete_found-Told zone name rdtype text kwargs q w found.answer status h)

  -- A deletion that returns has asked for the name and the type, ANY if none is given, once; it has
  -- sent one message of the zone behind the question exactly if it does not return None.
  pub delete-Asked :
      (zone name : String) (rdtype text : Option String) (kwargs : Kwargs) (w : World dns)
      (status : Option Bool)
      → (delete dns zone name rdtype text server kwargs w).0 ≡ ok status
      → Asked dns server name zone
          (or_any (truthy rdtype))
          w
          status
          (delete dns zone name rdtype text server kwargs w).1
  delete-Asked = delete-Ensures
