-- ===== src/Ddns/Hosts/Port.antt =====
-- `add_host` of _modules/ddns.py: the port that its messages go to.
use ffmuc_salt_public.Prelude.{
  ℕ, String, ◌<>◌, ◌≡◌, refl, Bool, not, Option, List, [], ◌∷◌, ◌++◌, ◌==◌, nat_eq,
}
use ffmuc_salt_public.Prelude.Text.{join, split}
use ffmuc_salt_public.Prelude.Exec.{Keeps, bind-Keeps, if-Keeps}
use ffmuc_salt_public.Ddns.Message.{Server, Sent, Dns, World, Kwargs}
use ffmuc_salt_public.Ddns.Update.{update}
use ffmuc_salt_public.Ddns.Update.Each.{Each, update-Each}
use ffmuc_salt_public.Ddns.Hosts.{backwards, is_true, is_false, reverse_zone, add_ptr, add_host}

-- The message goes to the server.
abbrev pub GoesTo : Server → Sent → Type 0
GoesTo server s = s.server ≡ server

module _ (dns : Dns) (server : Server) where
  add_ptr-GoesTo :
      (parts popped : List String) (fqdn : String) (ttl : ℕ) (replacing replace_on_change : Bool)
      (kwargs : Kwargs) (res : Option Bool)
      → Keeps
          (Each (GoesTo server) dns)
          (add_ptr dns parts popped fqdn ttl server replacing replace_on_change kwargs res)
  unfolding add_ptr
  add_ptr-GoesTo [] popped fqdn ttl replacing roc kwargs res = λ w a. a
  add_ptr-GoesTo (p ∷ []) popped fqdn ttl replacing roc kwargs res = λ w a. a
  add_ptr-GoesTo (p ∷ q ∷ parts) popped fqdn ttl replacing roc kwargs res =
      bind-Keeps (Each (GoesTo server) dns)
        (update dns (reverse_zone (q ∷ parts)) (join "." (popped ++ (p ∷ []))) ttl "PTR" fqdn server
          replacing roc kwargs)
        _
        (update-Each (GoesTo server) dns server _ _ ttl "PTR" fqdn replacing roc kwargs (λ q. refl)
          (λ ring rdata. (refl, refl)))
        λ ptr.
          if-Keeps (Each (GoesTo server) dns) (is_true ptr) _ _ (λ b w a. a)
            (λ b. add_ptr-GoesTo (q ∷ parts) (popped ++ (p ∷ [])) fqdn ttl replacing roc kwargs res)

-- Whatever port `add_host` is given, all its messages, the reverse ones too, go to port 53 of the
-- name server.
pub add_host-GoesTo :
    (dns : Dns) (zone name : String) (ttl : ℕ) (ip : String) (server : Server) (replacing : Bool)
    (kwargs : Kwargs) (w : World dns)
    → Each (GoesTo (record server { port = 53 })) dns w
    → Each
        (GoesTo (record server { port = 53 }))
        dns
        (add_host dns zone name ttl ip server replacing kwargs w).1
unfolding add_host
add_host-GoesTo dns zone name ttl ip server replacing kwargs =
    let here : Server = record server { port = 53 } in
    bind-Keeps (Each (GoesTo here) dns)
      (update dns zone name ttl "A" ip here replacing (not (server.port == 0)) kwargs) _
      (update-Each (GoesTo here) dns here zone name ttl "A" ip replacing (not (server.port == 0))
        kwargs (λ q. refl) (λ ring rdata. (refl, refl)))
      λ res.
        if-Keeps (Each (GoesTo here) dns) (is_false res) _ _ (λ b w a. a)
          (λ b.
            add_ptr-GoesTo dns here (backwards (split "." ip)) [] (name <> ("." <> (zone <> ".")))
              ttl replacing (not (server.port == 0)) kwargs res)
