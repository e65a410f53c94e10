-- ===== src/Cloudflare/Manage/Sent.antt =====
-- `manage_zone_records` of _states/cloudflare.py: a property of every request that
-- is sent holds throughout a run.
use mathlib.Core.Path.{subst, sym}
use ffmuc_salt_public.Prelude.{
  ℕ, zero, suc, ◌+◌, String, ◌≡◌, refl, Bool, false, none, Option, List, [], ◌∷◌, All, All-append,
  ◌||◌, ◌==◌, nat_eq, length,
}
use ffmuc_salt_public.Prelude.Result.{
  Error, Result, ok, err, salt_invocation_error, command_execution_error, key_error, value_error,
  index_error, type_error, attribute_error, unbound_error, overflow_error, os_error, runtime_error,
  exception,
}
use ffmuc_salt_public.Prelude.Exec
use ffmuc_salt_public.Prelude.Exec.{Exec, Keeps, bind-Keeps, if-Keeps, pure, lift, raise}
use ffmuc_salt_public.Cloudflare.Data.{Payload}
use ffmuc_salt_public.Cloudflare.Zone.{
  Zone, ZoneDict, Api, World, Request, Uri, Method, get, init, desired, request_of, request,
  records_uri, zone_uri,
}
use ffmuc_salt_public.Cloudflare.Sanity.{Names, sanity_check}
use ffmuc_salt_public.Cloudflare.Existing.{add_page, found_page, pages, existing}
use ffmuc_salt_public.Cloudflare.Order.{Op}
use ffmuc_salt_public.Cloudflare.Manage.{
  Env, apply_op, apply, zone_diff, converge, handle, manage_zone_records, describe_changes,
}

-- An error of the sanity check ends the run, reported or raised.
pub handle_err-snd :
    (env : Env) (test : Bool) (z : Zone) (e : Error) (w : World env.api)
    → (handle env test z (err e) w).1 ≡ w
unfolding handle
handle_err-snd env test z (salt_invocation_error text) w = refl
handle_err-snd env test z (command_execution_error s) w = refl
handle_err-snd env test z (key_error s) w = refl
handle_err-snd env test z (value_error s) w = refl
handle_err-snd env test z index_error w = refl
handle_err-snd env test z type_error w = refl
handle_err-snd env test z attribute_error w = refl
handle_err-snd env test z (unbound_error s) w = refl
handle_err-snd env test z (overflow_error s) w = refl
handle_err-snd env test z (os_error s) w = refl
handle_err-snd env test z (runtime_error s) w = refl
handle_err-snd env test z (exception s) w = refl

-- All requests that a world has seen satisfy `P`.
module _ (P : Request → Type 0) where
  abbrev pub Sent : (api : Api) → World api → Type 0
  Sent api w = All P w.sent

  module _ (api : Api) (z : Zone) where
    pub request-Sent :
        (uri : Uri) (m : Method) (p : Option Payload)
        → P (request_of z uri m p)
        → Keeps (Sent api) (request api z uri m p)
    unfolding request
    request-Sent uri m p h w a = All-append P w.sent _ a (h, tt)

    pub check-Sent :
        P (request_of z (zone_uri z.zone_id) get none) → Keeps (Sent api) (sanity_check api z)
    unfolding sanity_check
    check-Sent h =
        bind-Keeps (Sent api) (request api z (zone_uri z.zone_id) get none) _
          (request-Sent _ get none h) (λ found w a. a)

    module _ (reads : (n : ℕ) → P (request_of z (records_uri z.zone_id n) get none))
        (matches : String → String → Bool) where
      pages-Sent :
          (rounds n : ℕ) (found : _) → Keeps (Sent api) (pages matches api rounds z n found)
      unfolding pages
      pages-Sent zero n found = λ w a. a
      pages-Sent (suc rounds) n found =
          bind-Keeps (Sent api) (request api z (records_uri z.zone_id n) get none) _
            (request-Sent _ get none (reads n))
            λ body.
              bind-Keeps (Sent api) (lift (found_page body)) _ (λ w a. a)
                λ p.
                  bind-Keeps (Sent api) (lift (add_page matches z.exclude p.result found)) _
                    (λ w a. a)
                    λ mid.
                      if-Keeps (Sent api) (p.page == p.total_pages || p.total_pages == 0) (pure mid)
                        (pages matches api rounds z (n + 1) mid) (λ e w a. a)
                        (λ e. pages-Sent rounds (n + 1) mid)

      pub existing-Sent : (rounds : ℕ) → Keeps (Sent api) (existing matches api rounds z)
      unfolding existing
      existing-Sent rounds =
          bind-Keeps (Sent api) (pages matches api rounds z 1 []) _ (pages-Sent rounds 1 [])
            (λ found w a. a)

  module _ (env : Env) (z : Zone) (reads : (uri : Uri) → P (request_of z uri get none)) where
    diff-Sent : Keeps (Sent env.api) (zone_diff env z)
    unfolding zone_diff
    diff-Sent =
        bind-Keeps (Sent env.api) (existing env.matches env.api env.rounds z) _
          (existing-Sent env.api z (λ n. reads _) env.matches env.rounds)
          (λ found. bind-Keeps (Sent env.api) (lift (desired z)) _ (λ w a. a) (λ wanted w a. a))

    converge-Sent :
        (test : Bool)
        → (test ≡ false → (ops : List Op) → Keeps (Sent env.api) (apply env z ops))
        → Keeps (Sent env.api) (converge env test z)
    unfolding converge
    converge-Sent test applies = bind-Keeps (Sent env.api) (zone_diff env z) _ diff-Sent λ ops.
        bind-Keeps (Sent env.api) (lift (describe_changes ops)) _ (λ w a. a)
          λ text.
            if-Keeps (Sent env.api) (length ops == 0) _ _ (λ e w a. a)
              λ e.
                if-Keeps (Sent env.api) test _ _ (λ t w a. a)
                  λ t. bind-Keeps (Sent env.api) (apply env z ops) _ (applies t ops) (λ u w a. a)

    handle-Sent :
        (test : Bool)
        → (test ≡ false → (ops : List Op) → Keeps (Sent env.api) (apply env z ops))
        → (checked : Result Names) → Keeps (Sent env.api) (handle env test z checked)
    unfolding handle
    handle-Sent test f (ok names) = converge-Sent test f
    handle-Sent test f (err e) = λ w a. subst (Sent env.api) (sym (handle_err-snd env test z e w)) a

    pub writes :
        ((op : Op) → Keeps (Sent env.api) (apply_op env z op))
        → (ops : List Op) → Keeps (Sent env.api) (apply env z ops)
    unfolding apply
    writes f [] = λ w a. a
    writes f (op ∷ ops) = bind-Keeps (Sent env.api) (apply_op env z op) _ (f op) (λ u. writes f ops)

  pub run-Sent :
      (env : Env) (test : Bool) (name : String) (dict : ZoneDict)
      → ((z : Zone) → init name dict ≡ ok z → (uri : Uri) → P (request_of z uri get none))
      → ((z : Zone)
          → init name dict ≡ ok z
          → test ≡ false
          → (ops : List Op) → Keeps (Sent env.api) (apply env z ops))
      → Keeps (Sent env.api) (manage_zone_records env test name dict)
  unfolding manage_zone_records
  run-Sent env test name dict reads applies = from (init name dict) reads applies
    where
      from :
          (r : Result Zone)
          → ((z : Zone) → r ≡ ok z → (uri : Uri) → P (request_of z uri get none))
          → ((z : Zone)
              → r ≡ ok z
              → test ≡ false
              → (ops : List Op) → Keeps (Sent env.api) (apply env z ops))
          → Keeps (Sent env.api) (
              Exec.◌>>=◌
                (lift r)
                λ z w. let (checked, w') = sanity_check env.api z w in handle env test z checked w')
      from (err e) f g w a = a
      from (ok z) f g w a =
          handle-Sent env z (f z refl) test (g z refl) (sanity_check env.api z w).0 _
            (check-Sent env.api z (f z refl (zone_uri z.zone_id)) w a)
