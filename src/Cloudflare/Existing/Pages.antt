-- ===== src/Cloudflare/Existing/Pages.antt =====
-- `Zone.existing` of _states/cloudflare.py: the walk over the pages ends, and reads them all.
use mathlib.Core.Path.{fun_ext, subst}
use ffmuc_salt_public.Prelude.{
  ℕ, zero, suc, ◌+◌, ◌≤◌, ◌<◌, ◌-◌, String, ◌≡◌, refl, ◌∙◌, ap, sym, Bool, true, false, none, ◌||◌,
  List, [], ◌∷◌, ◌++◌, arith, ◌==◌, nat_eq, if◌then◌else◌,
}
use ffmuc_salt_public.Prelude.Dict.{values}
use ffmuc_salt_public.Prelude.Exec
use ffmuc_salt_public.Prelude.Exec.{bind_ok, bind-pure_fst, lift, pure}
use ffmuc_salt_public.Prelude.Result.{Result, ok, err, ◌>>=◌, >>=_assoc}
use ffmuc_salt_public.Cloudflare.Record.{RecordDict}
use ffmuc_salt_public.Cloudflare.Zone.{
  Zone, Api, World, response, page_body, records_uri, get, request_of, request, receive,
}
use ffmuc_salt_public.Cloudflare.Existing.{Found, add_dict, add_page, found_page, pages, existing}

-- The API answers a request for page `n` of the zone with that page and the number of pages,
-- whatever its state.
abbrev pub Serves : (api : Api) → Zone → (ℕ → List RecordDict) → ℕ → Type 0
Serves api z page_of total =
    (n : ℕ) (s : api.State)
    → (api.send (request_of z (records_uri z.zone_id n) get none) s).0
      ≡ response true 200 "" (page_body (page_of n) n total)

-- The records of `count` pages from the page `n` on
abbrev pub all_pages : (ℕ → List RecordDict) → ℕ → ℕ → List RecordDict
all_pages page_of n zero = []
all_pages page_of n (suc count) = page_of n ++ all_pages page_of (n + 1) count

-- The last page that is asked for: the first one of a zone without pages.
abbrev pub last_page : ℕ → ℕ
last_page total = if total == 0 then 1 else total

last_page-suc : (total : ℕ) → suc (last_page total - 1) ≡ last_page total
last_page-suc total = ground arith

one-last_page : (total : ℕ) → 1 + (last_page total - 1) ≡ last_page total
one-last_page total = ground arith

last_page-below : (rounds total : ℕ) → last_page total ≤ rounds → last_page total - 1 < rounds
last_page-below rounds total h = ground arith

module _ (matches : String → String → Bool) where
  add_page-nil :
      (exclude : List String) (found : Found) → add_page matches exclude [] found ≡ ok found
  unfolding add_page
  add_page-nil exclude found = refl

  add_page-append :
      (exclude : List String) (xs ys : List RecordDict) (found : Found)
      → add_page matches exclude (xs ++ ys) found
        ≡ (add_page matches exclude xs found >>= add_page matches exclude ys)
  unfolding add_page
  add_page-append exclude [] ys found = refl
  add_page-append exclude (x ∷ xs) ys found =
      ap (λ k. add_dict matches exclude x found >>= k) (fun_ext (add_page-append exclude xs ys))
      ∙ sym (
          >>=_assoc (add_dict matches exclude x found) (add_page matches exclude xs)
            (add_page matches exclude ys))

  module _ (api : Api) (z : Zone) (page_of : ℕ → List RecordDict) (total : ℕ)
      (serves : Serves api z page_of total) where
    asked :
        (n : ℕ) (w : World api)
        → (request api z (records_uri z.zone_id n) get none w).0
          ≡ ok (page_body (page_of n) n total)
    unfolding request
    asked n w = ap receive (serves n w.server)

    pages-read :
        (rounds n count : ℕ) (found : Found) (w : World api)
        → n + count ≡ last_page total
        → 0 < n
        → count < rounds
        → (pages matches api rounds z n found w).0
          ≡ add_page matches z.exclude (all_pages page_of n (suc count)) found
    unfolding pages found_page
    pages-read zero n count found w e p h = absurd (omega arith)
    pages-read (suc rounds) n zero found w e p h =
        ap (λ x. x.0) (bind_ok (request api z (records_uri z.zone_id n) get none) _ w (asked n w))
        ∙ step (add_page matches z.exclude (page_of n) found)
        ∙ sym (add_page-append z.exclude (page_of n) [] found)
      where
        done : (n == total || total == 0) ≡ true
        done = ground arith

        step :
            (r : Result Found)
            → (Exec.◌>>=◌
                (lift r)
                (λ f.
                  if n == total || total == 0 then pure f else pages matches api rounds z (n + 1) f)
                (request api z (records_uri z.zone_id n) get none w).1).0
              ≡ (r >>= add_page matches z.exclude [])
        step (ok f) = rw (done, add_page-nil z.exclude f)
        step (err x) = refl
    pages-read (suc rounds) n (suc count) found w e p h =
        ap (λ x. x.0) (bind_ok (request api z (records_uri z.zone_id n) get none) _ w (asked n w))
        ∙ step (add_page matches z.exclude (page_of n) found) (λ f.
          pages-read rounds (n + 1) count f (request api z (records_uri z.zone_id n) get none w).1
            (omega arith) (omega arith) (omega arith))
        ∙ sym (add_page-append z.exclude (page_of n) (all_pages page_of (n + 1) (suc count)) found)
      where
        more : (n == total || total == 0) ≡ false
        more = ground arith

        step :
            (r : Result Found)
            → ((f : Found)
                → (pages matches api rounds z
                    (n + 1)
                    f
                    (request api z (records_uri z.zone_id n) get none w).1).0
                  ≡ add_page matches z.exclude (all_pages page_of (n + 1) (suc count)) f)
            → (Exec.◌>>=◌
                (lift r)
                (λ f.
                  if n == total || total == 0 then pure f else pages matches api rounds z (n + 1) f)
                (request api z (records_uri z.zone_id n) get none w).1).0
              ≡ (r >>= add_page matches z.exclude (all_pages page_of (n + 1) (suc count)))
        step (ok f) ih = rw more (ih f)
        step (err x) ih = refl

    -- Where the API serves the pages of a zone, as many rounds as there are pages are enough: the
    -- walk returns the records of all pages, or raises what adding them raises. A zone without
    -- pages costs one request.
    pub existing-reads_all :
        (rounds : ℕ) (w : World api)
        → last_page total ≤ rounds
        → (existing matches api rounds z w).0 ≡ (do
          found ← add_page matches z.exclude (all_pages page_of 1 (last_page total)) []
          ok (values found))
    unfolding existing
    existing-reads_all rounds w h =
        bind-pure_fst (pages matches api rounds z 1 []) values w
        ∙ ap (λ r. r >>= λ found. ok (values found))
            (subst
              (λ k.
                (pages matches api rounds z 1 [] w).0
                ≡ add_page matches z.exclude (all_pages page_of 1 k) [])
              (last_page-suc total)
              (pages-read rounds 1 (last_page total - 1) [] w (one-last_page total) (omega arith)
                (last_page-below rounds total h)))
