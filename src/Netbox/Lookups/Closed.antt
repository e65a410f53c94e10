-- ===== src/Netbox/Lookups/Closed.antt =====
-- The query of _modules/site_prefixes.py, _modules/netbox_vms.py and _modules/extra_dns_entries.py: a
-- failed lookup is never an empty answer.
use ffmuc_salt_public.Prelude.{String, ◌≡◌, refl, true, Option, none, some, List, arith}
use ffmuc_salt_public.Prelude.Dict.{Dict}
use ffmuc_salt_public.Prelude.Result.{Error, Result, ok, err, command_execution_error, err_inj}
use ffmuc_salt_public.Netbox.Query.{Request, Response, results_of, attempt, guarded, query}

module _ {A : Type 0} (get : Request → Result (Response A)) where
  -- Netbox answered the request with a success and a list of results.
  abbrev pub Answered : Request → List A → Type 0
  Answered request results =
      (response : Response A) × (get request ≡ ok response)
      × (response.succeeded ≡ true)
      × (response.body ≡ some (some results))

  results_of-ok :
      (body : Option (Option (List A))) (results : List A)
      → results_of body ≡ ok results
      → body ≡ some (some results)
  unfolding results_of
  results_of-ok none results h = cc
  results_of-ok (some none) results h = cc
  results_of-ok (some (some rs)) results h = cc

  attempt-ok :
      (reply : Result (Response A)) (results : List A)
      → attempt reply ≡ ok results
      → (response : Response A) × (reply ≡ ok response)
        × (response.succeeded ≡ true)
        × (response.body ≡ some (some results))
  unfolding attempt
  attempt-ok (err e) results h = cc
  attempt-ok (ok response) results h =
      (response, refl, ground arith, results_of-ok response.body results (ground arith))

  guarded-ok :
      (what url : String) (r : Result (List A)) (results : List A)
      → guarded what url r ≡ ok results
      → r ≡ ok results
  unfolding guarded
  guarded-ok what url (ok rs) results h = h
  guarded-ok what url (err e) results h = cc

  guarded-err :
      (what url : String) (r : Result (List A)) (e : Error)
      → guarded what url r ≡ err e
      → (text : String) × (e ≡ command_execution_error text)
  unfolding guarded
  guarded-err what url (ok rs) e h = cc
  guarded-err what url (err x) e h = (_, err_inj h)

  pub query-Answered :
      (what url : String) (headers : Dict String String) (results : List A)
      → query get what url headers ≡ ok results
      → Answered (record { url = url; headers = headers }) results
  unfolding query
  query-Answered what url headers results h =
      attempt-ok (get (record { url = url; headers = headers })) results
        (guarded-ok what url (attempt (get (record { url = url; headers = headers }))) results h)

  -- A query that fails in any way, in the connection, the status, the JSON or its shape, raises a
  -- CommandExecutionError.
  pub query_errors :
      (what url : String) (headers : Dict String String) (e : Error)
      → query get what url headers ≡ err e
      → (text : String) × (e ≡ command_execution_error text)
  unfolding query
  query_errors what url headers e h =
      guarded-err what url (attempt (get (record { url = url; headers = headers }))) e h
