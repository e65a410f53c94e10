-- ===== src/Kea/Counters.antt =====
-- dhcp-server/kea_pool_stats.py: `_stat`, `_counters` and `_status`. Kea's counters are not
-- negative. A percentage is the exact number of thousandths of a percent, where Python rounds a
-- float to three places.
pub mod Bounds
use ffmuc_salt_public.Prelude.{
  ℕ, ◌+◌, ◌-◌, ◌*◌, ◌/◌, ◌%◌, String, Bool, true, false, Option, none, some, List, [], ◌∷◌,
  if◌then◌else◌, ◌==◌, nat_eq, string_eq, leb, ltb,
}
use ffmuc_salt_public.Prelude.Dict.{Dict, lookup}
use ffmuc_salt_public.Prelude.Result.{Result, ok, err, index_error}

-- OK, WARNING, CRITICAL, UNKNOWN
abbrev pub ok_status : ℕ
ok_status = 0

abbrev pub warning_status : ℕ
warning_status = 1

abbrev pub critical_status : ℕ
critical_status = 2

abbrev pub unknown_status : ℕ
unknown_status = 3

-- What `statistic-get-all` answers: for each name samples, of which the first part is the value.
abbrev pub Stats : Type 0
Stats = Dict String (List (List ℕ))

current : Option (List (List ℕ)) → Result ℕ
current none = ok 0
current (some []) = ok 0
current (some ([] ∷ samples)) = err index_error
current (some ((value ∷ rest) ∷ samples)) = ok value

-- `_stat`
unfoldable pub stat : Stats → String → Result ℕ
unfolding current
stat stats name = current (lookup name stats)

-- `round` of a quotient to an integer, halves to the even neighbour
unfoldable pub round : ℕ → ℕ → ℕ
round a b =
    let q = a / b in
    let twice = 2 * (a % b) in
    if ltb twice b then q else if ltb b twice then q + 1 else if q % 2 == 0 then q else q + 1

-- `round(100.0 * part / whole, 3) if whole else 0.0`
unfoldable pub percent_of : ℕ → ℕ → ℕ
unfolding round
percent_of part whole = if whole == 0 then 0 else round (100000 * part) whole

pub record Counters : Type 0 where
  pub defined : ℕ
  pub used : ℕ
  pub touched : ℕ
  pub free : ℕ
  pub percent : ℕ
  pub touch_count : ℕ
  pub touch_percent : ℕ

-- `_counters`. The difference of natural numbers is the `max(defined - used, 0)` of the source.
unfoldable pub counters : ℕ → ℕ → ℕ → Counters
unfolding percent_of
counters defined used touched = record {
  defined = defined;
  used = used;
  touched = touched;
  free = defined - used;
  percent = percent_of used defined;
  touch_count = used + touched;
  touch_percent = percent_of (used + touched) defined;
}

-- `limit is not None and percent >= limit`
abbrev pub reaches : ℕ → Option ℕ → Bool
reaches percent none = false
reaches percent (some limit) = leb limit percent

-- `_status`
unfoldable pub status : ℕ → Option ℕ → Option ℕ → ℕ
status percent warning critical =
    if reaches percent critical
    then critical_status
    else if reaches percent warning
    then warning_status
    else ok_status
