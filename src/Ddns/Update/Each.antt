-- ===== src/Ddns/Update/Each.antt =====
-- `update` of _modules/ddns.py: a property of every message that is sent holds throughout.
use ffmuc_salt_public.Prelude.{ℕ, String, Bool, not, Option, All, All-append, nat_eq}
use ffmuc_salt_public.Prelude.Exec.{Keeps, bind-Keeps, if-Keeps, lift}
use ffmuc_salt_public.Ddns.Message.{
  Question, Rdata, Command, replace, add, Message, question, change, Server, Sent, Dns, World,
  Kwargs, udp, config, get_keyring, make_update,
}
use ffmuc_salt_public.Ddns.Update.{full_name, exists, replaces, send_update, update}

-- Every message satisfies `P`.
abbrev pub Each : (Sent → Type 0) → (dns : Dns) → World dns → Type 0
Each P dns w = All P w.sent

abbrev pub to : Server → Message → Sent
to server m = record { server = server; message = m }

module _ (P : Sent → Type 0) (dns : Dns) (server : Server) where
  udp-Each : (m : Message) → P (to server m) → Keeps (Each P dns) (udp dns server m)
  unfolding udp
  udp-Each m h w a = All-append P w.sent _ a (h, tt)

  send_update-Each :
      (zone : String) (kwargs : Kwargs) (ring : Option String) (command : Command)
      → P (to server (change (make_update dns zone kwargs ring command)))
      → Keeps (Each P dns) (send_update dns server zone kwargs ring command)
  unfolding send_update
  send_update-Each zone kwargs ring command h =
      bind-Keeps (Each P dns) (lift (dns.accepts (make_update dns zone kwargs ring command))) _
        (λ w a. a)
        λ u.
          bind-Keeps (Each P dns)
            (udp dns server (change (make_update dns zone kwargs ring command))) _ (udp-Each _ h)
            λ answer w a. a

  pub update-Each :
      (zone name : String) (ttl : ℕ) (rdtype text : String) (replacing replace_on_change : Bool)
      (kwargs : Kwargs)
      → ((q : Question) → P (to server (question q)))
      → ((ring : Option String) (rdata : Rdata)
          → P (to server (change (make_update dns zone kwargs ring (replace name ttl rdata))))
            × P (to server (change (make_update dns zone kwargs ring (add name ttl rdata)))))
      → Keeps
          (Each P dns)
          (update dns zone name ttl rdtype text server replacing replace_on_change kwargs)
  unfolding update
  update-Each zone name ttl rdtype text replacing replace_on_change kwargs asks changes =
      bind-Keeps (Each P dns) (lift (dns.make_query (full_name name zone) rdtype)) _ (λ w a. a)
        λ q. bind-Keeps (Each P dns) (udp dns server (question q)) _ (udp-Each _ (asks q)) λ found.
          bind-Keeps (Each P dns) (lift (dns.rdatatype rdtype)) _ (λ w a. a)
            λ type.
              bind-Keeps (Each P dns) (lift (dns.rdata type text)) _ (λ w a. a)
                λ rdata.
                  bind-Keeps (Each P dns)
                    (lift (get_keyring dns (config dns "keyfile" kwargs.keyfile))) _ (λ w a. a)
                    λ ring.
                      if-Keeps (Each P dns)
                        (replaces replacing replace_on_change rdata found.answer) _ _
                        (λ b.
                          send_update-Each zone kwargs ring (replace name ttl rdata)
                            (changes ring rdata).0)
                        λ b.
                          if-Keeps (Each P dns) (not (exists rdata ttl found.answer)) _ _
                            (λ c.
                              send_update-Each zone kwargs ring (add name ttl rdata)
                                (changes ring rdata).1)
                            (λ c w a. a)
