-- ===== src/Kea/Socket/Exit.antt =====
-- `main` of dhcp-server/kea_pool_stats.py: the exit code 0 means that Kea was asked and answered.
use mathlib.Core.Option
use mathlib.Core.Path.{subst}
use ffmuc_salt_public.Prelude.{
  ℕ, String, ◌<>◌, ◌≡◌, refl, ap, sym, ◌∙◌, Bool, true, false, not, Option, none, some, is_some,
  List, [], ◌∷◌, arith, ◌⊎◌, ◌||◌, Option-cases, inl, inr, ◌==◌, if◌then◌else◌, option_eq, nat_eq,
  string_eq,
}
use ffmuc_salt_public.Prelude.Result.{
  Error, Result, ok, err, runtime_error, raise_if, ◌>>=◌, >>=-eq-ok, ok_inj,
}
use ffmuc_salt_public.Kea.Counters.{Stats}
use ffmuc_salt_public.Kea.Report.{Dhcp4, Report, build_report}
use ffmuc_salt_public.Kea.Nagios.{nagios_result}
use ffmuc_salt_public.Kea.Socket.{
  Json, null, object, array, scalar, Event, chunk, broken, Response, Arguments, no_arguments,
  no_config, first_response, show_text, got, read, kea_command, query, conclude, main, caught,
  Output, stdout, nagios,
}
use ffmuc_salt_public.Kea.Socket.Chunks.{chunks, all_of}

-- What parses is the response, or a list that begins with it.
abbrev pub Says : Option Json → Response → Type 0
Says none r = ⊥
Says (some null) r = ⊥
Says (some (object r')) r = r' ≡ r
Says (some (array [])) r = ⊥
Says (some (array (r' ∷ rest))) r = r' ≡ r
Says (some scalar) r = ⊥

first_response-Says :
    (command : String) (o : Option Json) (r : Response) → first_response command o ≡ ok r → Says o r
first_response-Says command none r h = cc
first_response-Says command (some null) r h = cc
first_response-Says command (some (object r')) r h = ok_inj h
first_response-Says command (some (array [])) r h = cc
first_response-Says command (some (array (r' ∷ rest))) r h = ok_inj h
first_response-Says command (some scalar) r h = cc

-- What is printed with the exit code 0, in the monitoring mode or not
abbrev pub Printed : (Report → String) → Bool → Report → Output → Type 0
Printed dumps true report out = nagios_result report ≡ ok (0, out.text)
Printed dumps false report out = out.text ≡ dumps report

module _ (loads : String → Option Json) where
  -- The chunks up to some point make up the text that parses to the response.
  abbrev pub Delivers : String → List Event → Option Json → Type 0
  Delivers buffer events j =
      (before : List String) × (rest : List Event) × (events ≡ chunks before rest)
      × (loads (all_of buffer before) ≡ j)

  read_step :
      (b : Bool) (o : Option Json) (more : Result (Option Json)) (j : Json)
      → (if b then ok none else got loads o more) ≡ ok (some j)
      → (o ≡ some j) ⊎ (more ≡ ok (some j))
  read_step true o more j h = absurd (cc h)
  read_step false none more j h = inr h
  read_step false (some null) more j h = inr h
  read_step false (some (object r)) more j h = inl (ok_inj h)
  read_step false (some (array rs)) more j h = inl (ok_inj h)
  read_step false (some scalar) more j h = inl (ok_inj h)

  read-Delivers :
      (buffer : String) (events : List Event) (j : Json)
      → read loads buffer events ≡ ok (some j)
      → Delivers buffer events (some j)
  unfolding read
  read-Delivers buffer [] j h = absurd (cc h)
  read-Delivers buffer (broken e ∷ rest) j h = absurd (cc h)
  read-Delivers buffer (chunk c ∷ rest) j h =
      elim (read_step (c == "") (loads (buffer <> c)) (read loads (buffer <> c) rest) j h) [
        | inl whole ↦ (c ∷ [], rest, refl, whole)
        | inr more ↦
            let (before, after, e, p) = read-Delivers (buffer <> c) rest j more in
            (c ∷ before, after, ap (λ l. chunk c ∷ l) e, p)
      ]

  module _ (kea : String → Result (List Event)) where
    -- Kea was sent the command, and delivered a response with the result 0 and these arguments.
    abbrev pub Answered : String → Arguments → Type 0
    Answered command arguments =
        (events : List Event) × (j : Option Json) × (r : Response) × (kea command ≡ ok events)
        × Delivers "" events j
        × Says j r
        × (r.result ≡ some 0)
        × (arguments ≡ Option.get_or r.arguments no_arguments)

    read-said :
        (command : String) (events : List Event) (o : Option Json) (r : Response)
        → read loads "" events ≡ ok o
        → first_response command o ≡ ok r
        → Delivers "" events o
    read-said command events none r h k = absurd (cc k)
    read-said command events (some j) r h k = read-Delivers "" events j h

    result_zero :
        (b : Bool) (o : Option ℕ) (e : Error) (u : Unit {0})
        → (o == some 0) ≡ b
        → raise_if (not b) e ≡ ok u
        → o ≡ some 0
    result_zero true o e u z h = ground (arith, z)
    result_zero false o e u z h = absurd (cc h)

    kea_command-Answered :
        (command : String) (arguments : Arguments)
        → kea_command loads kea command ≡ ok arguments
        → Answered command arguments
    unfolding kea_command
    kea_command-Answered command arguments h =
        let (events, sent, h1) = >>=-eq-ok (kea command) _ h in
        let (o, e, h2) = >>=-eq-ok (read loads "" events) _ h1 in
        let (r, f, h3) = >>=-eq-ok (first_response command o) _ h2 in
        let (u, z, h4) =
          >>=-eq-ok
            (raise_if (not (r.result == some 0))
              (runtime_error ("Kea '" <> (command <> ("' failed: " <> show_text r.text)))))
            _ h3 in
        (
          events,
          o,
          r,
          sent,
          read-said command events o r e f,
          first_response-Says command o r f,
          result_zero (r.result == some 0) r.result _ u refl z,
          sym (ok_inj h4),
        )

    module _ (dumps : Report → String) where
      shown :
          (b : Bool) (report : Report) (out : Output)
          → (if b
              then (nagios_result report >>= λ verdict.
                  ok (record { stream = stdout; text = verdict.1; code = verdict.0 }))
              else ok (record { stream = stdout; text = dumps report; code = 0 }))
            ≡ ok out
          → out.code ≡ 0
          → Printed dumps b report out
      shown true report out h z =
          let (verdict, e, h1) = >>=-eq-ok (nagios_result report) _ h in
          e ∙ ap (λ (o : Output). ok (o.code, o.text)) (ok_inj h1) ∙ ap (λ n. ok (n, out.text)) z
      shown false report out h z = ap (λ (o : Output). o.text) (sym (ok_inj h))

      module _ (warning critical : Option ℕ) where
        conclude-ok :
            (q : Result (Dhcp4 × Stats)) (out : Output)
            → conclude loads kea dumps warning critical q ≡ ok out
            → out.code ≡ 0
            → (found : Dhcp4 × Stats) × (report : Report) × (q ≡ ok found)
              × (build_report warning critical found.0 found.1 ≡ ok report)
              × Printed dumps (nagios loads kea dumps warning critical) report out
        unfolding conclude
        conclude-ok (err e) out h z = elim (Option-cases (caught e)) [
          | inl n ↦ absurd (ground arith)
          | inr (text, s) ↦ absurd (ground arith)
        ]
        conclude-ok (ok (config, stats)) out h z =
            let (report, e, h1) = >>=-eq-ok (build_report warning critical config stats) _ h in
            (
              (config, stats),
              report,
              refl,
              e,
              shown (nagios loads kea dumps warning critical) report out h1 z,
            )

        -- The program ends with the exit code 0 only if Kea has answered both commands with the result
        -- 0, a report was built from the two answers, and what is printed is this report, or in the
        -- monitoring mode its summary with the verdict 0.
        pub main-ok :
            (out : Output)
            → main loads kea dumps warning critical ≡ ok out
            → out.code ≡ 0
            → (config found : Arguments) × (report : Report) × Answered "config-get" config
              × Answered "statistic-get-all" found
              × (build_report warning critical (Option.get_or config.dhcp4 no_config) found.stats
                  ≡ ok report)
              × Printed dumps (is_some warning || is_some critical) report out
        unfolding main query
        main-ok out h z =
            let (q, report, e, b, p) = conclude-ok (query loads kea) out h z in
            let (config, c, h1) = >>=-eq-ok (kea_command loads kea "config-get") _ e in
            let (found, s, h2) = >>=-eq-ok (kea_command loads kea "statistic-get-all") _ h1 in
            (
              config,
              found,
              report,
              kea_command-Answered "config-get" config c,
              kea_command-Answered "statistic-get-all" found s,
              subst (λ x. build_report warning critical x.0 x.1 ≡ ok report) (sym (ok_inj h2)) b,
              p,
            )
