-- ===== src/Kea/Nagios/Worst.antt =====
-- `nagios_result` of dhcp-server/kea_pool_stats.py: the exit code and the counts of a report.
use ffmuc_salt_public.Prelude.{ℕ, ◌≡◌, Bool, Option, List, nat_eq, any, string_eq}
use ffmuc_salt_public.Kea.Counters.{status, reaches}
use ffmuc_salt_public.Kea.Report.{PoolRow, Report}

-- The status of a row is that of its percentage.
abbrev pub HasStatus : Option ℕ → Option ℕ → PoolRow → Type 0
HasStatus warning critical row = row.status ≡ status row.counters.percent warning critical

-- Some row's percentage reaches the limit.
abbrev pub any_reaches : Option ℕ → List PoolRow → Bool
any_reaches limit rows = any (λ row. reaches row.counters.percent limit) rows
