-- ===== src/Cloudflare/Manage/Effects.antt =====
-- `Zone.apply` of _states/cloudflare.py: one request for each change, in their order.
use ffmuc_salt_public.Prelude.{◌≡◌, none, some, List, [], ◌∷◌, ◌++◌}
use ffmuc_salt_public.Prelude.Result.{Result, ok, ◌>>=◌}
use ffmuc_salt_public.Prelude.Exec
use ffmuc_salt_public.Prelude.Exec.{Exec, Keeps}
use ffmuc_salt_public.Cloudflare.Data.{json}
use ffmuc_salt_public.Cloudflare.Record.{Record}
use ffmuc_salt_public.Cloudflare.Zone.{
  Zone, World, Request, post, put, delete, request_of, add_record_uri, remove_record_uri,
  update_record_uri,
}
use ffmuc_salt_public.Cloudflare.Order.{Op, add, remove, update}
use ffmuc_salt_public.Cloudflare.Manage.{Env}

-- The request that a change asks for, or the error of its payload
abbrev pub op_request : Zone → Op → Result Request
op_request z op = elim op.action [
  | add ↦ json op.subject >>= λ p. ok (request_of z (add_record_uri z.zone_id) post (some p))
  | remove ↦ ok (request_of z (remove_record_uri z.zone_id op.subject.id) delete none)
  | update ↦ json op.subject >>= λ p.
      ok (request_of z (update_record_uri z.zone_id op.subject.id) put (some p))
]

abbrev pub op_requests : Zone → List Op → Result (List Request)
op_requests z [] = ok []
op_requests z (op ∷ ops) = op_request z op >>= λ r. op_requests z ops >>= λ rs. ok (r ∷ rs)

module _ (env : Env) (z : Zone) where
  -- From the world `w` to one in which the request that `q` is was sent last
  abbrev Sends : Result Request → World env.api → World env.api → Type 0
  Sends q w w' = (r : Request) × (q ≡ ok r) × (w'.sent ≡ w.sent ++ (r ∷ []))
