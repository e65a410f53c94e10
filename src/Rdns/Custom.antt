-- ===== src/Rdns/Custom.antt =====
-- `ptr_records` of _modules/ffmuc_rdns.py: the targets given by hand come before the candidates.
use ffmuc_salt_public.Prelude.{
  String, ◌≡◌, ◌∙◌, ap, sym, Option, none, some, List, [], ◌∷◌, arith, if◌then◌else◌, ◌==◌,
  option_eq, string_eq,
}
use ffmuc_salt_public.Prelude.Dict.{Dict, lookup, insert, lookup-insert}
use ffmuc_salt_public.Prelude.Result.{ok, >>=-eq-ok, ok_inj}
use ffmuc_salt_public.Rdns.{Address, address_eq, Selected, Ip, fqdn, valid, override, overrides}

module _ (ip : Ip) (a : Address) where
  -- The target that the last text of the address gives, and `before` if there is none
  abbrev pub latest_in : Option String → String → List String → Option String
  latest_in before target [] = before
  latest_in before target (text ∷ rest) =
      latest_in (if ip.ip_address text == some a then some (fqdn target) else before) target rest

  abbrev pub latest_custom : Option String → Dict String (List String) → Option String
  latest_custom before [] = before
  latest_custom before ((target, texts) ∷ rest) = latest_custom (latest_in before target texts) rest

  valid-ok : (o : Option Address) (b : Address) → valid ip o ≡ ok b → o ≡ some b
  valid-ok none b h = cc
  valid-ok (some c) b h = cc

  same-address : (o : Option Address) (b : Address) → o ≡ some b → (o == some a) ≡ (a == b)
  same-address o b h = ground arith

  override-lookup :
      (target : String) (texts : List String) (selected found : Selected)
      → override ip target texts selected ≡ ok found
      → lookup a found ≡ latest_in (lookup a selected) target texts
  unfolding override
  override-lookup target [] selected found h = ap (lookup a) (sym (ok_inj h))
  override-lookup target (text ∷ rest) selected found h =
      let (b, e, h1) = >>=-eq-ok (valid ip (ip.ip_address text)) _ h in
      override-lookup target rest (insert b (fqdn target) selected) found h1
      ∙ ap (λ o. latest_in o target rest)
          (lookup-insert a b (fqdn target) selected
            ∙ ap (λ c. if c then some (fqdn target) else lookup a selected)
                (sym (same-address (ip.ip_address text) b (valid-ok (ip.ip_address text) b e))))

  -- Where the loops over `custom` return, an address given there has the target of its last mention,
  -- in place of any candidate's, and every other address keeps its target.
  pub overrides-latest :
      (custom : Dict String (List String)) (selected found : Selected)
      → overrides ip custom selected ≡ ok found
      → lookup a found ≡ latest_custom (lookup a selected) custom
  unfolding overrides
  overrides-latest [] selected found h = ap (lookup a) (sym (ok_inj h))
  overrides-latest ((target, texts) ∷ rest) selected found h =
      let (more, e, h1) = >>=-eq-ok (override ip target texts selected) _ h in
      overrides-latest rest more found h1
      ∙ ap (λ o. latest_custom o rest) (override-lookup target texts selected more e)
