-- ===== src/Netbox/Query.antt =====
-- The query that _modules/site_prefixes.py, _modules/netbox_vms.py and _modules/extra_dns_entries.py
-- have in common: the `try` around `requests.get`. Netbox behind the requests library is the
-- parameter `get`.
use ffmuc_salt_public.Prelude.{ℕ, String, ◌<>◌, Bool, not, Option, none, some, List}
use ffmuc_salt_public.Prelude.Numbers.{show_ℕ}
use ffmuc_salt_public.Prelude.Dict.{Dict}
use ffmuc_salt_public.Prelude.Result.{
  Error, Result, ok, err, command_execution_error, os_error, value_error, key_error, raise_if,
  ◌>>=◌, ◌>>◌, salt_invocation_error, index_error, type_error, attribute_error, unbound_error,
  overflow_error, runtime_error, exception,
}

-- A response: whether its status is none of an error, the status, and the decoded body, if it is JSON,
-- with the list at "results", if it is there.
pub record Response (A : Type 0) : Type 0 where
  pub succeeded : Bool
  pub status_code : ℕ
  pub body : Option (Option (List A))

-- A request, with its headers; the timeout is the same for all.
pub record Request : Type 0 where
  pub url : String
  pub headers : Dict String String

-- `str(exc)`
unfoldable pub message : Error → String
message (salt_invocation_error s) = s
message (command_execution_error s) = s
message (key_error s) = "'" <> (s <> "'")
message (value_error s) = s
message index_error = "list index out of range"
message type_error = "unsupported operand type"
message attribute_error = "no such attribute"
message (unbound_error s) = s
message (overflow_error s) = s
message (os_error s) = s
message (runtime_error s) = s
message (exception s) = s

module _ {A : Type 0} where
  -- `response.json()["results"]`
  unfoldable pub results_of : Option (Option (List A)) → Result (List A)
  results_of none = err (value_error "invalid JSON")
  results_of (some none) = err (key_error "results")
  results_of (some (some results)) = ok results

  -- What stands in the `try`
  unfoldable pub attempt : Result (Response A) → Result (List A)
  unfolding results_of
  attempt reply = do
    response ← reply
    raise_if (not response.succeeded) (os_error ("HTTP status " <> show_ℕ response.status_code))
    results_of response.body

  -- The `except Exception`: `what` is the text up to the URL.
  unfoldable pub guarded : String → String → Result (List A) → Result (List A)
  guarded what url (ok results) = ok results
  guarded what url (err e) =
      err (command_execution_error (what <> (" failed (" <> (url <> ("): " <> message e)))))

  unfoldable pub query :
      (Request → Result (Response A)) → String → String → Dict String String → Result (List A)
  query get what url headers =
      guarded what url (attempt (get (record { url = url; headers = headers })))
