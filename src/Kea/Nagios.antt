-- ===== src/Kea/Nagios.antt =====
-- dhcp-server/kea_pool_stats.py: `nagios_result`.
pub mod Worst
use ffmuc_salt_public.Prelude.{
  ℕ, String, ◌<>◌, List, [], ◌∷◌, keep_if, length, if◌then◌else◌, ◌==◌, nat_eq, string_eq, ltb,
}
use ffmuc_salt_public.Prelude.Numbers.{show_ℕ}
use ffmuc_salt_public.Prelude.Text.{join}
use ffmuc_salt_public.Prelude.Result.{Result, ok, err, key_error, ◌>>=◌}
use ffmuc_salt_public.Kea.Counters.{ok_status, warning_status, critical_status, unknown_status}
use ffmuc_salt_public.Kea.Report.{PoolRow, Report}

-- STATUS_TEXT
unfoldable pub status_text : ℕ → Result String
status_text code =
    if code == ok_status
    then ok "OK"
    else if code == warning_status
    then ok "WARNING"
    else if code == critical_status
    then ok "CRITICAL"
    else if code == unknown_status
    then ok "UNKNOWN"
    else err (key_error (show_ℕ code))

-- `max(entry["status"] …, default=OK)`
unfoldable pub worst : List PoolRow → ℕ
worst [] = ok_status
worst (row ∷ rows) = let w = worst rows in if ltb w row.status then row.status else w

-- `counts[code]`
unfoldable pub count : ℕ → List PoolRow → ℕ
count code rows = length (keep_if (λ row. row.status == code) rows)

perfdata : List PoolRow → List String
perfdata [] = []
perfdata (row ∷ rows) =
    ("'"
      <> (row.location
          <> ("'=" <> (show_ℕ row.counters.used <> (";;;0;" <> show_ℕ row.counters.defined)))))
    ∷ perfdata rows

-- `nagios_result`
unfoldable pub nagios_result : Report → Result (ℕ × String)
unfolding perfdata
nagios_result report = do
  let rows = report.subnets
  verdict ← status_text (worst rows)
  let figures = join " " (perfdata rows)
  let text =
      verdict
      <> (": Ranges - crit: "
          <> (show_ℕ (count critical_status rows)
              <> (" warn: "
                  <> (show_ℕ (count warning_status rows)
                      <> (" ok: " <> show_ℕ (count ok_status rows))))))
  ok (worst rows, if figures == "" then text else text <> (" | " <> figures))
