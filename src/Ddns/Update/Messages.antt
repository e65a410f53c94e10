-- ===== src/Ddns/Update/Messages.antt =====
-- `update` of _modules/ddns.py: what it sends, by what it returns.
use mathlib.Core.List.{append_assoc}
use ffmuc_salt_public.Prelude.{
  nat_eq, true, false, ℕ, String, ◌≡◌, refl, ◌∙◌, ap, Bool, true, false, not, Option, none, some,
  List, [], ◌∷◌, ◌++◌,
}
use ffmuc_salt_public.Prelude.Result.{ok}
use ffmuc_salt_public.Prelude.Exec.{lift, Ensures, pure-Ensures, bind-Ensures, if-Ensures}
use ffmuc_salt_public.Ddns.Message.{
  rdata_eq, Command, replace, add, Question, Message, question, change, UpdateMessage, Server, Sent,
  Dns, World, Kwargs, udp, config, get_keyring, make_update,
}
use ffmuc_salt_public.Ddns.Update.{full_name, exists, replaces, send_update, update}

-- Messages to one server
abbrev pub to : Server → List Message → List Sent
to server [] = []
to server (m ∷ ms) = record { server = server; message = m } ∷ to server ms

module _ (dns : Dns) (server : Server) where
  udp-sent :
      (m : Message) (w : World dns) → (udp dns server m w).1.sent ≡ w.sent ++ to server (m ∷ [])
  unfolding udp
  udp-sent m w = refl

  -- The messages of an update, by what it returns
  abbrev pub Messages : String → List Message → Option Bool → List Message → Type 0
  Messages zone asked none ms = ms ≡ asked
  Messages zone asked (some b) ms =
      (m : UpdateMessage) × (m.zone ≡ zone) × (ms ≡ asked ++ (change m ∷ []))

  -- From the world `w` on, just the messages have been sent that go with the status.
  abbrev pub Told : String → List Message → World dns → Option Bool → World dns → Type 0
  Told zone asked w status w' =
      (ms : List Message) × Messages zone asked status ms × (w'.sent ≡ w.sent ++ to server ms)

  pub Told-question :
      (zone : String) (q : Question) (w : World dns)
      → Told zone (question q ∷ []) w none (udp dns server (question q) w).1
  Told-question zone q w = (_, refl, udp-sent (question q) w)

  pub send_update-Told :
      (zone : String) (kwargs : Kwargs) (keyring : Option String) (command : Command) (q : Question)
      (w : World dns)
      → Ensures
          (Told zone (question q ∷ []) w)
          (send_update dns server zone kwargs keyring command)
          (udp dns server (question q) w).1
  unfolding send_update make_update
  send_update-Told zone kwargs keyring command q w =
      let message = make_update dns zone kwargs keyring command in
      let w1 = (udp dns server (question q) w).1 in
      bind-Ensures (Told zone (question q ∷ []) w) (lift (dns.accepts message)) _ w1 λ u a.
        bind-Ensures (Told zone (question q ∷ []) w) (udp dns server (change message)) _ w1
          λ answer e.
            pure-Ensures (Told zone (question q ∷ []) w) _ (udp dns server (change message) w1).1 (
              _,
              (message, refl, refl),
              udp-sent (change message) w1
                  ∙ ap (λ l. l ++ to server (change message ∷ [])) (udp-sent (question q) w)
                  ∙ append_assoc w.sent (to server (question q ∷ []))
                      (to server (change message ∷ [])),
            )

  -- The question for the name and the type, and then `Told`
  abbrev pub Asked : String → String → String → World dns → Option Bool → World dns → Type 0
  Asked name zone rdtype w status w' =
      (q : Question) × (dns.make_query (full_name name zone) rdtype ≡ ok q)
      × Told zone (question q ∷ []) w status w'

  pub update-Ensures :
      (zone name : String) (ttl : ℕ) (rdtype text : String) (replacing replace_on_change : Bool)
      (kwargs : Kwargs) (w : World dns)
      → Ensures
          (Asked name zone rdtype w)
          (update dns zone name ttl rdtype text server replacing replace_on_change kwargs)
          w
  unfolding update
  update-Ensures zone name ttl rdtype text replacing replace_on_change kwargs w =
      bind-Ensures (Asked name zone rdtype w) (lift (dns.make_query (full_name name zone) rdtype)) _
        w
        λ q hq.
          let w1 = (udp dns server (question q) w).1 in
          bind-Ensures (Asked name zone rdtype w) (udp dns server (question q)) _ w λ found hf.
            bind-Ensures (Asked name zone rdtype w) (lift (dns.rdatatype rdtype)) _ w1 λ type ht.
              bind-Ensures (Asked name zone rdtype w) (lift (dns.rdata type text)) _ w1 λ rdata hr.
                bind-Ensures (Asked name zone rdtype w)
                  (lift (get_keyring dns (config dns "keyfile" kwargs.keyfile))) _ w1
                  λ ring hk.
                    if-Ensures (Asked name zone rdtype w)
                      (replaces replacing replace_on_change rdata found.answer) _ _ w1
                      (λ b status h. (
                        q,
                        hq,
                        send_update-Told zone kwargs ring (replace name ttl rdata) q w status h,
                      ))
                      λ b.
                        if-Ensures (Asked name zone rdtype w) (not (exists rdata ttl found.answer))
                          _ _ w1
                          (λ c status h. (
                            q,
                            hq,
                            send_update-Told zone kwargs ring (add name ttl rdata) q w status h,
                          ))
                          λ c.
                            pure-Ensures (Asked name zone rdtype w) none w1
                              (q, hq, Told-question zone q w)

  -- An update that returns has asked for the name once, and has sent one message of the zone behind
  -- the question exactly if it does not return None.
  pub update-Asked :
      (zone name : String) (ttl : ℕ) (rdtype text : String) (replacing replace_on_change : Bool)
      (kwargs : Kwargs) (w : World dns) (status : Option Bool)
      → (update dns zone name ttl rdtype text server replacing replace_on_change kwargs w).0
        ≡ ok status
      → Asked name zone rdtype w status
          (update dns zone name ttl rdtype text server replacing replace_on_change kwargs w).1
  update-Asked = update-Ensures
