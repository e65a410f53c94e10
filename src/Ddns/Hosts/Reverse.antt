-- ===== src/Ddns/Hosts/Reverse.antt =====
-- `add_host` of _modules/ddns.py: which reverse names it tries.
use mathlib.Core.Path.{subst}
use mathlib.Core.List.{append_assoc as append_assoc_list}
use text.Mathlib.TextLemmas.{append_assoc}
use ffmuc_salt_public.Prelude.{
  ℕ, String, ◌<>◌, ◌≡◌, refl, ◌∙◌, ap, sym, Bool, Option, List, [], ◌∷◌, ◌++◌, nat_eq,
}
use ffmuc_salt_public.Prelude.Text.{join}
use ffmuc_salt_public.Prelude.Exec.{Keeps, bind-Keeps, if-Keeps}
use ffmuc_salt_public.Ddns.Message.{
  World, Command, replace, add, delete_rdata, delete_type, delete_name, Message, question, change,
  Server, Sent, Dns, Kwargs, make_update,
}
use ffmuc_salt_public.Ddns.Update.{update}
use ffmuc_salt_public.Ddns.Update.Each.{Each, update-Each}
use ffmuc_salt_public.Ddns.Hosts.{is_true, reverse_zone, add_ptr}

join-cons :
    (sep p q : String) (parts : List String)
    → join sep (p ∷ q ∷ parts) ≡ p <> (sep <> join sep (q ∷ parts))
unfolding join
join-cons sep p q parts = refl

-- A list cut in two and joined is the list joined.
join-append :
    (sep : String) (front : List String) (p q : String) (back : List String)
    → join sep (front ++ (p ∷ [])) <> (sep <> join sep (q ∷ back))
      ≡ join sep (front ++ (p ∷ q ∷ back))
unfolding join
join-append sep [] p q back = refl
join-append sep (a ∷ []) p q back =
    append_assoc a (sep <> p) (sep <> join sep (q ∷ back))
    ∙ ap (λ s. a <> s) (append_assoc sep p (sep <> join sep (q ∷ back)))
join-append sep (a ∷ b ∷ front) p q back =
    append_assoc a (sep <> join sep (b ∷ (front ++ (p ∷ [])))) (sep <> join sep (q ∷ back))
    ∙ ap (λ s. a <> s)
        (append_assoc sep (join sep (b ∷ (front ++ (p ∷ [])))) (sep <> join sep (q ∷ back))
          ∙ ap (λ s. sep <> s) (join-append sep (b ∷ front) p q back))

abbrev pub command_name : Command → String
command_name (replace name ttl rdata) = name
command_name (add name ttl rdata) = name
command_name (delete_rdata name rdata) = name
command_name (delete_type name type) = name
command_name (delete_name name) = name

-- A change is about the owner name that its relative name and its zone make; a question is any.
abbrev pub Owns : String → Message → Type 0
Owns owner (question q) = Unit
Owns owner (change m) = command_name m.command <> ("." <> m.zone) ≡ owner

abbrev pub reverse_name : List String → String
reverse_name parts = join "." parts <> ".in-addr.arpa."

module _ (dns : Dns) (server : Server) where
  owner-step :
      (popped : List String) (p q : String) (parts : List String)
      → join "." (popped ++ (p ∷ [])) <> ("." <> reverse_zone (q ∷ parts))
        ≡ reverse_name (popped ++ (p ∷ q ∷ parts))
  owner-step popped p q parts =
      ap (λ s. join "." (popped ++ (p ∷ [])) <> s)
        (sym (append_assoc "." (join "." (q ∷ parts)) ".in-addr.arpa."))
      ∙ sym (
          append_assoc (join "." (popped ++ (p ∷ []))) ("." <> join "." (q ∷ parts))
            ".in-addr.arpa.")
      ∙ ap (λ s. s <> ".in-addr.arpa.") (join-append "." popped p q parts)

  add_ptr-Keeps :
      (parts popped : List String) (fqdn : String) (ttl : ℕ) (replacing replace_on_change : Bool)
      (kwargs : Kwargs) (res : Option Bool)
      → Keeps
          (Each (λ s. Owns (reverse_name (popped ++ parts)) s.message) dns)
          (add_ptr dns parts popped fqdn ttl server replacing replace_on_change kwargs res)
  unfolding add_ptr make_update
  add_ptr-Keeps [] popped fqdn ttl replacing roc kwargs res = λ w a. a
  add_ptr-Keeps (p ∷ []) popped fqdn ttl replacing roc kwargs res = λ w a. a
  add_ptr-Keeps (p ∷ q ∷ parts) popped fqdn ttl replacing roc kwargs res =
      let P : Sent → Type 0 = λ s. Owns (reverse_name (popped ++ (p ∷ q ∷ parts))) s.message in
      let step = owner-step popped p q parts in
      bind-Keeps (Each P dns)
        (update dns (reverse_zone (q ∷ parts)) (join "." (popped ++ (p ∷ []))) ttl "PTR" fqdn server
          replacing roc kwargs)
        _
        (update-Each P dns server _ _ ttl "PTR" fqdn replacing roc kwargs (λ m. tt)
          (λ ring rdata. (step, step)))
        λ ptr.
          if-Keeps (Each P dns) (is_true ptr) _ _ (λ b w a. a)
            (λ b.
              subst
                (λ l. Keeps (Each (λ s. Owns (reverse_name l) s.message) dns) (
                  add_ptr dns (q ∷ parts) (popped ++ (p ∷ [])) fqdn ttl server replacing roc kwargs
                    res))
                (append_assoc_list popped (p ∷ []) (q ∷ parts))
                (add_ptr-Keeps (q ∷ parts) (popped ++ (p ∷ [])) fqdn ttl replacing roc kwargs res))

  -- The loop of `add_host` over the reverse zones cuts one and the same reverse name in different
  -- places: every change that it sends is about the name that the parts popped so far and those left
  -- make.
  pub add_ptr-Owns :
      (parts popped : List String) (fqdn : String) (ttl : ℕ) (replacing replace_on_change : Bool)
      (kwargs : Kwargs) (res : Option Bool) (w : World dns)
      → Each (λ s. Owns (reverse_name (popped ++ parts)) s.message) dns w
      → Each
          (λ s. Owns (reverse_name (popped ++ parts)) s.message)
          dns
          (add_ptr dns parts popped fqdn ttl server replacing replace_on_change kwargs res w).1
  add_ptr-Owns = add_ptr-Keeps
