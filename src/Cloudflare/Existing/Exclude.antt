-- ===== src/Cloudflare/Existing/Exclude.antt =====
-- `Zone.existing` of _states/cloudflare.py: excluded records are never part of the result.
use mathlib.Core.Path.{subst}
use ffmuc_salt_public.Prelude.{
  ℕ, zero, suc, ◌+◌, String, ◌≡◌, inl, inr, Bool-cases, Bool, true, false, none, ◌||◌, List, [],
  ◌∷◌, Option, All, arith, ◌==◌, nat_eq, string_eq, option_eq, if◌then◌else◌,
}
use ffmuc_salt_public.Prelude.Dict.{values, insert}
use ffmuc_salt_public.Prelude.Exec.{Exec, bind-eq-ok, lift, pure}
use ffmuc_salt_public.Prelude.Result.{ok, >>=-eq-ok, ok_inj}
use ffmuc_salt_public.Cloudflare.Record.{RecordDict, Record, record_from_dict}
use ffmuc_salt_public.Cloudflare.Zone.{Zone, Api, World, records_uri, get, request}
use ffmuc_salt_public.Cloudflare.Existing.{
  Found, is_excluded, add_dict, add_page, found_page, pages, existing,
}

module _ (matches : String → String → Bool) (exclude : List String) where
  abbrev pub Kept : Record → Type 0
  Kept r = is_excluded matches exclude r.name ≡ false

  insert-Kept :
      (id : Option String) (r : Record) (found : Found)
      → Kept r
      → All Kept (values found)
      → All Kept (values (insert id r found))
  unfolding insert values
  insert-Kept id r [] k a = (k, tt)
  insert-Kept id r ((j, s) ∷ found) k a = ground (arith, insert-Kept id r found k a.1)

  chosen :
      (d : RecordDict) (r : Record) (found : Found)
      → All Kept (values found)
      → All Kept
          (values (if is_excluded matches exclude r.name then found else insert d.id r found))
  chosen d r found a = elim (Bool-cases (is_excluded matches exclude r.name)) [
    | inl out ↦ rw out a
    | inr kept ↦ rw kept (insert-Kept d.id r found kept a)
  ]

  add_dict-Kept :
      (d : RecordDict) (found found' : Found)
      → add_dict matches exclude d found ≡ ok found'
      → All Kept (values found)
      → All Kept (values found')
  unfolding add_dict
  add_dict-Kept d found found' h a =
      let (r, _, e) = >>=-eq-ok (record_from_dict d) _ h in
      subst (λ f. All Kept (values f)) (ok_inj e) (chosen d r found a)

  add_page-Kept :
      (ds : List RecordDict) (found found' : Found)
      → add_page matches exclude ds found ≡ ok found'
      → All Kept (values found)
      → All Kept (values found')
  unfolding add_page
  add_page-Kept [] found found' h a = subst (λ f. All Kept (values f)) (ok_inj h) a
  add_page-Kept (d ∷ ds) found found' h a =
      let (mid, e, rest) =
        >>=-eq-ok (add_dict matches exclude d found) (add_page matches exclude ds) h in
      add_page-Kept ds mid found' rest (add_dict-Kept d found mid e a)

-- A test that ends a loop with what was found so far
if_pure :
    {S : Type 0} (b : Bool) (mid : Found) (m : Exec S Found) (s : S) (found' : Found)
    → ((if b then pure mid else m) s).0 ≡ ok found'
    → (P : Found → Type 0) → P mid
    → ((m s).0 ≡ ok found' → P found')
    → P found'
if_pure true mid m s found' h P a f = subst P (ok_inj h) a
if_pure false mid m s found' h P a f = f h

module _ (matches : String → String → Bool) (api : Api) (z : Zone) where
  pages-Kept :
      (rounds : ℕ) (n : ℕ) (found found' : Found) (w : World api)
      → (pages matches api rounds z n found w).0 ≡ ok found'
      → All (Kept matches z.exclude) (values found)
      → All (Kept matches z.exclude) (values found')
  unfolding pages
  pages-Kept zero n found found' w h a = cc
  pages-Kept (suc rounds) n found found' w h a =
      let (body, _, h1) = bind-eq-ok (request api z (records_uri z.zone_id n) get none) _ w h in
      let (p, _, h2) = bind-eq-ok (lift (found_page body)) _ _ h1 in
      let (mid, e, h3) = bind-eq-ok (lift (add_page matches z.exclude p.result found)) _ _ h2 in
      let kept = add_page-Kept matches z.exclude p.result found mid e a in
      if_pure (p.page == p.total_pages || p.total_pages == 0) mid
        (pages matches api rounds z (n + 1) mid) _ found' h3
        (λ f. All (Kept matches z.exclude) (values f)) kept
        (λ h4. pages-Kept rounds (n + 1) mid found' _ h4 kept)

  -- Whatever the API answers, no record whose name an exclude pattern matches is in the result.
  pub existing-Kept :
      (rounds : ℕ) (w : World api) (rs : List Record)
      → (existing matches api rounds z w).0 ≡ ok rs
      → All (Kept matches z.exclude) rs
  unfolding existing values
  existing-Kept rounds w rs h =
      let (found, e, h1) = bind-eq-ok (pages matches api rounds z 1 []) _ w h in
      subst (All (Kept matches z.exclude)) (ok_inj h1) (pages-Kept rounds 1 [] found w e tt)
