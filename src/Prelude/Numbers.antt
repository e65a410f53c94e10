-- ===== src/Prelude/Numbers.antt =====
-- Numbers in text: `str(n)`, `int(s)`, and `"…".format(…)` with positional fields.
use Prim.Native.Char.{code}
use ffmuc_salt_public.Prelude.{
  ℕ, zero, suc, ◌+◌, ◌-◌, ◌*◌, ◌/◌, ◌%◌, String, ◌<>◌, ◌≡◌, refl, Bool, true, false, ◌&&◌, Option,
  none, some, List, [], ◌∷◌, ltb, leb, if◌then◌else◌, ◌==◌, string_eq, nat_eq,
}
use ffmuc_salt_public.Prelude.Int.{ℤ, pos, negsuc, neg}
use ffmuc_salt_public.Prelude.Result.{int_limit, Result, ok, err, value_error, index_error, ◌>>=◌}
use ffmuc_salt_public.Prelude.Text.{strip}

abbrev digit : ℕ → String
digit n =
    if n == 0
    then "0"
    else if n == 1
    then "1"
    else if n == 2
    then "2"
    else if n == 3
    then "3"
    else if n == 4
    then "4"
    else if n == 5
    then "5"
    else if n == 6
    then "6"
    else if n == 7
    then "7"
    else if n == 8
    then "8"
    else "9"

-- Each round divides by ten, so `n + 1` rounds are enough.
show_fuel : ℕ → ℕ → String
show_fuel zero n = ""
show_fuel (suc f) n =
    let front = show_fuel f (n / 10) in if ltb n 10 then digit n else front <> digit (n % 10)

-- `str(n)`
unfoldable pub show_ℕ : ℕ → String
unfolding show_fuel
show_ℕ n = show_fuel (suc n) n

unfoldable pub show_ℤ : ℤ → String
unfolding show_ℕ
show_ℤ (pos n) = show_ℕ n
show_ℤ (negsuc n) = "-" <> show_ℕ (suc n)

-- The digits of `int(s)`, with single underscores between them. The flag says that the
-- character before was a digit.
digits : String → Bool → ℕ → Option ℕ
digits String.[] after_digit n = if after_digit then some n else none
digits (String.◌∷◌ c s) after_digit n =
    let value = digits s true (n * 10 + (code c - b'0')) in
    let gap = digits s false n in
    if leb b'0' (code c) && leb (code c) b'9'
    then value
    else if code c == b'_' && after_digit
    then gap
    else none

abbrev signed : String → Option ℤ
signed String.[] = none
signed (String.◌∷◌ c s) =
    if code c == b'-'
    then elim (digits s false 0) [ none ↦ none | some n ↦ some (neg n) ]
    else if code c == b'+'
    then elim (digits s false 0) [ none ↦ none | some n ↦ some (pos n) ]
    else elim (digits (String.◌∷◌ c s) false 0) [ none ↦ none | some n ↦ some (pos n) ]

digit_count : String → ℕ
digit_count String.[] = 0
digit_count (String.◌∷◌ c s) =
    let rest = digit_count s in if leb b'0' (code c) && leb (code c) b'9' then suc rest else rest

-- `int(s)`, which has a limit
unfoldable pub int : String → Result ℤ
unfolding digits strip digit_count
int s = elim (signed (strip s)) [
  | none ↦ err (value_error ("invalid literal for int() with base 10: '" <> (s <> "'")))
  | some n ↦ if ltb 4300 (digit_count s) then err int_limit else ok n
]

-- A template is its literal parts and its fields `{i}`.
pub data Piece : Type 0 where
  lit : String → Piece
  arg : ℕ → Piece

unfoldable pub at : List String → ℕ → Result String
at [] i = err index_error
at (x ∷ xs) zero = ok x
at (x ∷ xs) (suc i) = at xs i

-- `template.format(*args)`: a field beyond the arguments raises, an argument that no field names
-- is left out.
unfoldable pub format : List Piece → List String → Result String
unfolding at
format [] args = ok ""
format (lit s ∷ rest) args = do tail ← format rest args; ok (s <> tail)
format (arg i ∷ rest) args = do value ← at args i; tail ← format rest args; ok (value <> tail)

int_runs : int " -1_0\n" ≡ ok (negsuc 9)
unfolding int string_eq nat_eq
int_runs = refl

show_runs : show_ℕ 3600 ≡ "3600"
unfolding show_ℕ nat_eq
show_runs = refl

format_runs : format (arg 1 ∷ lit "-" ∷ arg 0 ∷ []) ("a" ∷ "b" ∷ "c" ∷ []) ≡ ok "b-a"
unfolding format
format_runs = refl
