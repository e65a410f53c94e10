-- ===== src/Telegraf/Duration.antt =====
-- telegraf/files/haproxy_peers_stats.py: `DURATION_RE`, `UNITS` and `duration_s`. Python's floats are
-- the parameter `Float`.
use ffmuc_salt_public.Prelude.{
  ℕ, zero, suc, ◌+◌, ◌-◌, ◌*◌, String, ◌<>◌, Option, none, some, List, [], ◌∷◌, if◌then◌else◌, ◌==◌,
  string_eq,
}
use ffmuc_salt_public.Prelude.Scan.{is_digit, span1, literal, len, int_of_digits}
use ffmuc_salt_public.Prelude.Result.{Result, ok, err, float_limit, ◌>>=◌}

-- Python's `float`: the value of an integer and the product of an integer with 0.001, where none stands for
-- an OverflowError, the sum, and `repr`
pub record Float : Type 1 where
  pub Value : Type 0
  pub of_int : ℕ → Option Value
  pub thousandths : ℕ → Option Value
  pub add : Value → Value → Value
  pub repr : Value → String

pub data TimeUnit : Type 0 where
  milliseconds days hours minutes seconds : TimeUnit

-- What stands in a text for a unit
abbrev pub unit_text : TimeUnit → String
unit_text milliseconds = "ms"
unit_text days = "d"
unit_text hours = "h"
unit_text minutes = "m"
unit_text seconds = "s"

-- A part that `findall` finds: a text of digits, and the unit behind it
pub record Part : Type 0 where
  pub digits : String
  pub unit : TimeUnit

-- `ms|d|h|m|s`: the first that fits
abbrev first_of : List TimeUnit → String → Option TimeUnit
first_of [] s = none
first_of (u ∷ units) s = elim (literal (unit_text u) s) [
  | none ↦ first_of units s
  | some rest ↦ some u
]

unfoldable pub unit_at : String → Option TimeUnit
unfolding literal
unit_at s = first_of (milliseconds ∷ days ∷ hours ∷ minutes ∷ seconds ∷ []) s

abbrev part_of : Option (String × String) → Option Part
part_of none = none
part_of (some (digits, rest)) = elim (unit_at rest) [
  | none ↦ none
  | some u ↦ some (record { digits = digits; unit = u })
]

-- The match of `DURATION_RE` that begins a text. No shorter run of digits has a unit behind it.
unfoldable pub match_part : String → Option Part
unfolding span1 unit_at
match_part s = part_of (span1 is_digit s)

unfoldable pub part_text : Part → String
part_text p = p.digits <> unit_text p.unit

-- `DURATION_RE.findall(value)`, with the number of characters that the last match goes on for. A
-- match holds two characters at least.
find_parts : ℕ → String → List Part
unfolding match_part part_text len
find_parts skip String.[] = []
find_parts (suc skip) (String.◌∷◌ c s) = find_parts skip s
find_parts zero (String.◌∷◌ c s) = elim (match_part (String.◌∷◌ c s)) [
  | none ↦ find_parts zero s
  | some p ↦ p ∷ find_parts (len (part_text p) - 1) s
]

unfoldable pub findall : String → List Part
unfolding find_parts
findall value = find_parts zero value

-- `"".join(n + u for n, u in parts)`
unfoldable pub joined : List Part → String
unfolding part_text
joined [] = ""
joined (p ∷ parts) = part_text p <> joined parts

module _ (float : Float) where
  open float use {Value, of_int, thousandths, add}

  -- A number of Python: an `int`, or a `float`
  pub data Num : Type 0 where
    int_num : ℕ → Num
    float_num : Value → Num

  abbrev pub converted : Option Value → Result Value
  converted none = err float_limit
  converted (some x) = ok x

  unfoldable pub plus : Num → Num → Result Num
  plus (int_num a) (int_num b) = ok (int_num (a + b))
  plus (int_num a) (float_num y) = converted (of_int a) >>= λ x. ok (float_num (add x y))
  plus (float_num x) (int_num b) = converted (of_int b) >>= λ y. ok (float_num (add x y))
  plus (float_num x) (float_num y) = ok (float_num (add x y))

  -- `n * UNITS[u]`
  unfoldable pub times_unit : ℕ → TimeUnit → Result Num
  times_unit n milliseconds = converted (thousandths n) >>= λ x. ok (float_num x)
  times_unit n days = ok (int_num (n * 86400))
  times_unit n hours = ok (int_num (n * 3600))
  times_unit n minutes = ok (int_num (n * 60))
  times_unit n seconds = ok (int_num (n * 1))

  -- `int(n) * UNITS[u]`
  unfoldable pub amount : Part → Result Num
  unfolding int_of_digits times_unit
  amount p = int_of_digits p.digits >>= λ n. times_unit n p.unit

  -- `sum(…)`, from `acc` on
  unfoldable pub total : Num → List Part → Result Num
  unfolding plus amount
  total acc [] = ok acc
  total acc (p ∷ parts) = amount p >>= λ n. plus acc n >>= λ sum. total sum parts

  -- `float(…)`
  unfoldable pub to_float : Num → Result Value
  to_float (int_num n) = converted (of_int n)
  to_float (float_num x) = ok x

  abbrev pub some_parts : String → List Part → Result (Option Value)
  some_parts value [] = ok none
  some_parts value (p ∷ parts) =
      if joined (p ∷ parts) == value
      then (total (int_num 0) (p ∷ parts) >>= to_float >>= λ x. ok (some x))
      else ok none

  -- `duration_s`
  unfoldable pub duration_s : String → Result (Option Value)
  unfolding findall joined total to_float
  duration_s value = some_parts value (findall value)
