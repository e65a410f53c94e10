-- ===== src/Kea/Socket.antt =====
-- dhcp-server/kea_pool_stats.py: `kea_command` and `main`. Kea behind its socket is the parameter
-- `kea`: for a command, what the connection delivers. Texts stand for bytes, `json.loads` and
-- `json.dumps` are the parameters `loads` and `dumps`, and the parsed options are arguments.
pub mod Chunks
pub mod Exit
use ffmuc_salt_public.Prelude.{
  ℕ, String, ◌<>◌, Bool, true, false, not, ◌||◌, Option, none, some, is_some, List, [], ◌∷◌,
  if◌then◌else◌, ◌==◌, string_eq, nat_eq, option_eq,
}
use mathlib.Core.Option
use ffmuc_salt_public.Prelude.Result.{
  Error, Result, ok, err, os_error, runtime_error, value_error, index_error, attribute_error,
  raise_if, ◌>>=◌, ◌>>◌, salt_invocation_error, command_execution_error, key_error, type_error,
  unbound_error, overflow_error, exception,
}
use ffmuc_salt_public.Kea.Counters.{Stats, unknown_status}
use ffmuc_salt_public.Kea.Report.{Dhcp4, Report, build_report}
use ffmuc_salt_public.Kea.Nagios.{nagios_result}

-- The dict "arguments": the configuration at the key "Dhcp4", or the statistics by their names.
pub record Arguments : Type 0 where
  pub dhcp4 : Option Dhcp4
  pub stats : Stats

pub record Response : Type 0 where
  pub result : Option ℕ
  pub text : Option String
  pub arguments : Option Arguments

pub data Json : Type 0 where
  null : Json
  object : Response → Json
  array : List Response → Json
  scalar : Json

-- What `recv` returns or raises. A closed connection delivers nothing more.
pub data Event : Type 0 where
  chunk : String → Event
  broken : Error → Event

abbrev pub show_text : Option String → String
show_text none = "None"
show_text (some s) = s

abbrev pub first_response : String → Option Json → Result Response
first_response command none =
    err (runtime_error ("no complete response from Kea for '" <> (command <> "'")))
first_response command (some null) =
    err (runtime_error ("no complete response from Kea for '" <> (command <> "'")))
first_response command (some (object r)) = ok r
first_response command (some (array [])) = err index_error
first_response command (some (array (r ∷ rest))) = ok r
first_response command (some scalar) = err attribute_error

abbrev pub no_arguments : Arguments
no_arguments = record { dhcp4 = none; stats = [] }

abbrev pub no_config : Dhcp4
no_config = record { shared_networks = none; subnet4 = none }

pub data Stream : Type 0 where
  stdout stderr : Stream

pub record Output : Type 0 where
  pub stream : Stream
  pub text : String
  pub code : ℕ

-- The message of an exception that `main` catches
abbrev pub caught : Error → Option String
caught (os_error s) = some s
caught (runtime_error s) = some s
caught (value_error s) = some s
caught (salt_invocation_error s) = none
caught (command_execution_error s) = none
caught (key_error s) = none
caught index_error = none
caught type_error = none
caught attribute_error = none
caught (unbound_error s) = none
caught (overflow_error s) = none
caught (exception s) = none

module _ (loads : String → Option Json) where
  -- What is left to read once some more of the response is there
  abbrev pub got : Option Json → Result (Option Json) → Result (Option Json)
  got none more = more
  got (some null) more = more
  got (some (object r)) more = ok (some (object r))
  got (some (array rs)) more = ok (some (array rs))
  got (some scalar) more = ok (some scalar)

  -- `while response is None`. A text that does not parse, and `null`, leave the response None.
  unfoldable pub read : String → List Event → Result (Option Json)
  read buffer [] = ok none
  read buffer (broken e ∷ rest) = err e
  read buffer (chunk c ∷ rest) =
      let more = read (buffer <> c) rest in
      if c == "" then ok none else got (loads (buffer <> c)) more

  module _ (kea : String → Result (List Event)) where
    -- `kea_command`
    unfoldable pub kea_command : String → Result Arguments
    kea_command command = do
      events ← kea command
      response ← read "" events
      r ← first_response command response
      raise_if (not (r.result == some 0))
          (runtime_error ("Kea '" <> (command <> ("' failed: " <> show_text r.text))))
      ok (Option.get_or r.arguments no_arguments)

    -- The two queries in the `try`
    unfoldable pub query : Result (Dhcp4 × Stats)
    query = do
      config ← kea_command "config-get"
      found ← kea_command "statistic-get-all"
      ok (Option.get_or config.dhcp4 no_config, found.stats)

    module _ (dumps : Report → String) (warning critical : Option ℕ) where
      abbrev pub nagios : Bool
      nagios = is_some warning || is_some critical

      -- What `main` does behind the `try`, or in the `except`
      unfoldable pub conclude : Result (Dhcp4 × Stats) → Result Output
      conclude (err e) = elim (caught e) [
        | none ↦ err e
        | some text ↦ ok (record {
          stream = if nagios then stdout else stderr;
          text = "UNKNOWN: cannot query Kea: " <> text;
          code = if nagios then unknown_status else 1;
        })
      ]
      conclude (ok (config, stats)) = do
        report ← build_report warning critical config stats
        if nagios
            then (do
              verdict ← nagios_result report
              ok (record { stream = stdout; text = verdict.1; code = verdict.0 }))
            else ok (record { stream = stdout; text = dumps report; code = 0 })

      -- `main`
      unfoldable pub main : Result Output
      main = conclude query
