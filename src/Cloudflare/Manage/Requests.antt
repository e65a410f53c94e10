-- ===== src/Cloudflare/Manage/Requests.antt =====
-- `manage_zone_records` of _states/cloudflare.py: which requests a run sends.
use mathlib.Core.Path.{ap, subst, sym, ◌∙◌}
use ffmuc_salt_public.Prelude.{
  String, ◌≡◌, refl, Bool, true, none, some, Option, [], ◌∷◌, ◌++◌, All, nat_eq,
}
use ffmuc_salt_public.Prelude.Result.{Error, ok, err, ok_inj}
use ffmuc_salt_public.Prelude.Exec.{Keeps, bind-Keeps, bind-lift_snd, lift}
use ffmuc_salt_public.Cloudflare.Data.{Payload, json}
use ffmuc_salt_public.Cloudflare.Record.{Record}
use ffmuc_salt_public.Cloudflare.Zone.{
  Zone, ZoneDict, Headers, headers, Api, World, Request, Uri, Method, get, post, put, delete, init,
  request_of, request, zone_uri, add_record, remove_record, update_record,
}
use ffmuc_salt_public.Cloudflare.Sanity.{sanity_check, check_zone}
use ffmuc_salt_public.Cloudflare.Order.{Op, add, remove, update}
use ffmuc_salt_public.Cloudflare.Manage.Sent.{handle_err-snd, Sent, request-Sent, writes, run-Sent}
use ffmuc_salt_public.Cloudflare.Manage.{Env, apply_op, manage_zone_records}

request_of-method : (z : Zone) (uri : Uri) → (request_of z uri get none).method ≡ get
unfolding request_of
request_of-method z uri = refl

abbrev pub IsGet : Request → Type 0
IsGet r = r.method ≡ get

-- A run in test mode sends nothing but GET requests, whatever the API answers and however the run
-- ends: it changes no record.
pub dry_run-IsGet :
    (env : Env) (name : String) (dict : ZoneDict) (w : World env.api)
    → All IsGet w.sent
    → All IsGet (manage_zone_records env true name dict w).1.sent
dry_run-IsGet env name dict =
    run-Sent IsGet env true name dict (λ z e uri. request_of-method z uri) (λ z e absurdity. cc)

module _ (P : Request → Type 0) (env : Env) (z : Zone)
    (all : (uri : Uri) (m : Method) (p : Option Payload) → P (request_of z uri m p)) where
  add-Sent : (r : Record) → Keeps (Sent P env.api) (add_record env.api z r)
  unfolding add_record
  add-Sent r =
      bind-Keeps (Sent P env.api) (lift (json r)) _ (λ w a. a)
        (λ p. request-Sent P env.api z _ post (some p) (all _ post (some p)))

  remove-Sent : (r : Record) → Keeps (Sent P env.api) (remove_record env.api z r)
  unfolding remove_record
  remove-Sent r = request-Sent P env.api z _ delete none (all _ delete none)

  update-Sent : (r : Record) → Keeps (Sent P env.api) (update_record env.api z r)
  unfolding update_record
  update-Sent r =
      bind-Keeps (Sent P env.api) (lift (json r)) _ (λ w a. a)
        (λ p. request-Sent P env.api z _ put (some p) (all _ put (some p)))

  act-Sent : (op : Op) → Keeps (Sent P env.api) (apply_op env z op)
  unfolding apply_op
  act-Sent op =
      elim op.action
        as (λ a. Keeps (Sent P env.api) (elim a [
          | add ↦ add_record env.api z op.subject
          | remove ↦ remove_record env.api z op.subject
          | update ↦ update_record env.api z op.subject
        ])) [
          | add ↦ add-Sent op.subject
          | remove ↦ remove-Sent op.subject
          | update ↦ update-Sent op.subject
        ]

headers-eq :
    (z : Zone) (uri : Uri) (m : Method) (p : Option Payload)
    → (request_of z uri m p).headers ≡ headers z
unfolding request_of
headers-eq z uri m p = refl

abbrev pub HasHeaders : Headers → Request → Type 0
HasHeaders h r = r.headers ≡ h

-- Every request of a run carries the credentials of the configured zone, whatever the API answers
-- and however the run ends.
pub run-HasHeaders :
    (env : Env) (test : Bool) (name : String) (dict : ZoneDict) (z : Zone) (w : World env.api)
    → init name dict ≡ ok z
    → All (HasHeaders (headers z)) w.sent
    → All (HasHeaders (headers z)) (manage_zone_records env test name dict w).1.sent
run-HasHeaders env test name dict z w h a =
    run-Sent (HasHeaders (headers z)) env test name dict
      (λ z' e uri.
        subst (λ x. HasHeaders (headers z) (request_of x uri get none)) (same z' e)
          (headers-eq z uri get none))
      (λ z' e t.
        writes (HasHeaders (headers z)) env z'
          (subst (λ x. (uri : Uri) → HasHeaders (headers z) (request_of x uri get none)) (same z' e)
            (λ uri. headers-eq z uri get none))
          (act-Sent (HasHeaders (headers z)) env z' (
            subst
              (λ x.
                (uri : Uri) (m : Method) (p : Option Payload)
                → HasHeaders (headers z) (request_of x uri m p))
              (same z' e) (headers-eq z))))
      w a
  where
    same : (z' : Zone) → init name dict ≡ ok z' → z ≡ z'
    same z' e = ok_inj (sym h ∙ e)

check-sent :
    (api : Api) (z : Zone) (w : World api)
    → (sanity_check api z w).1.sent ≡ w.sent ++ (request_of z (zone_uri z.zone_id) get none ∷ [])
unfolding sanity_check request
check-sent api z w =
    ap (λ v. v.sent) (bind-lift_snd (request api z (zone_uri z.zone_id) get none) (check_zone z) w)

-- A sanity check that raises ends the run: nothing is sent but the GET request for the zone itself,
-- in either mode, so no record is changed.
pub failed_check-sent :
    (env : Env) (test : Bool) (name : String) (dict : ZoneDict) (z : Zone) (e : Error)
    (w : World env.api)
    → init name dict ≡ ok z
    → (sanity_check env.api z w).0 ≡ err e
    → (manage_zone_records env test name dict w).1.sent
      ≡ w.sent ++ (request_of z (zone_uri z.zone_id) get none ∷ [])
unfolding manage_zone_records
failed_check-sent env test name dict z e w h c =
    rw (h, c)
      (ap (λ v. v.sent) (handle_err-snd env test z e (sanity_check env.api z w).1)
        ∙ check-sent env.api z w)
