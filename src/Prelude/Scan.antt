-- ===== src/Prelude/Scan.antt =====
-- Python's `re`, as far as the patterns of the code need it, and the `str` methods that go with it.
-- In each pattern what follows a repeated class is no character of that class, so the longest run is
-- the only one to try. Digits are the ASCII ones.
use Prim.Native.Char.{Char, code}
use ffmuc_salt_public.Prelude.{
  ℕ, suc, ◌+◌, ◌-◌, ◌*◌, ◌≡◌, refl, String, Bool, true, false, not, ◌&&◌, ◌||◌, Option, none, some,
  List, [], ◌∷◌, leb, ltb, if◌then◌else◌, ◌==◌, nat_eq,
}
use ffmuc_salt_public.Prelude.Result.{Result, ok, err, int_limit}

infixl 5 ◌>>=◌
abbrev pub ◌>>=◌ {ℓ κ} : {A : Type ℓ} {B : Type κ} → Option A → (A → Option B) → Option B
none >>= next = none
some a >>= next = next a

-- `\d`, `[0-9a-f]`, and `\s`
abbrev pub is_digit : Char → Bool
is_digit c = leb b'0' (code c) && leb (code c) b'9'

abbrev pub is_hex : Char → Bool
is_hex c = is_digit c || (leb b'a' (code c) && leb (code c) b'f')

abbrev pub is_white : Char → Bool
is_white c =
    (leb 9 (code c) && leb (code c) 13)
    || (leb 28 (code c) && leb (code c) 32)
    || code c == 0x85
    || code c == 0xa0
    || code c == 0x1680
    || (leb 0x2000 (code c) && leb (code c) 0x200a)
    || (leb 0x2028 (code c) && leb (code c) 0x2029)
    || code c == 0x202f
    || code c == 0x205f
    || code c == 0x3000

-- `[…]*`: the longest run, and the rest
unfoldable pub span : (Char → Bool) → String → String × String
span p String.[] = ("", "")
span p (String.◌∷◌ c s) =
    let (front, back) = span p s in if p c then (String.◌∷◌ c front, back) else ("", String.◌∷◌ c s)

abbrev nonempty : String × String → Option (String × String)
nonempty (String.[], back) = none
nonempty (String.◌∷◌ c front, back) = some (String.◌∷◌ c front, back)

-- `[…]+`
unfoldable pub span1 : (Char → Bool) → String → Option (String × String)
unfolding span
span1 p s = nonempty (span p s)

-- Literal text: what follows it
unfoldable pub literal : String → String → Option String
literal String.[] s = some s
literal (String.◌∷◌ c t) String.[] = none
literal (String.◌∷◌ c t) (String.◌∷◌ d s) =
    let rest = literal t s in if code c == code d then rest else none

-- `len(s)`
unfoldable pub len : String → ℕ
len String.[] = 0
len (String.◌∷◌ c s) = suc (len s)

-- `t in s`
abbrev matches_here : Option String → Bool
matches_here none = false
matches_here (some rest) = true

unfoldable pub occurs : String → String → Bool
unfolding literal
occurs t String.[] = matches_here (literal t "")
occurs t (String.◌∷◌ c s) = matches_here (literal t (String.◌∷◌ c s)) || occurs t s

-- `s.isdigit()`
unfoldable pub all_digits : String → Bool
all_digits String.[] = true
all_digits (String.◌∷◌ c s) = is_digit c && all_digits s

abbrev is_nonempty : String → Bool
is_nonempty String.[] = false
is_nonempty (String.◌∷◌ c s) = true

unfoldable pub isdigit : String → Bool
unfolding all_digits
isdigit s = is_nonempty s && all_digits s

-- `int(s)` of a text of digits
unfoldable pub decimal : ℕ → String → ℕ
decimal n String.[] = n
decimal n (String.◌∷◌ c s) = decimal (n * 10 + (code c - b'0')) s

-- `int(s)` of a text of digits, which has a limit
unfoldable pub int_of_digits : String → Result ℕ
unfolding len decimal
int_of_digits s = if ltb 4300 (len s) then err int_limit else ok (decimal 0 s)

-- `s.splitlines()`. The flag says that the character before was a carriage return.
abbrev is_break : Char → Bool
is_break c =
    (leb 10 (code c) && leb (code c) 13)
    || (leb 28 (code c) && leb (code c) 30)
    || code c == 0x85
    || code c == 0x2028
    || code c == 0x2029

abbrev with_first : Char → List String → List String
with_first c [] = String.◌∷◌ c "" ∷ []
with_first c (x ∷ xs) = String.◌∷◌ c x ∷ xs

lines_from : Bool → String → List String
lines_from after_return String.[] = []
lines_from after_return (String.◌∷◌ c s) =
    let rest = lines_from (code c == 13) s in
    if after_return && code c == 10
    then rest
    else if is_break c
    then "" ∷ rest
    else with_first c rest

unfoldable pub splitlines : String → List String
unfolding lines_from
splitlines s = lines_from false s

-- `s.split()`: the runs of what is no white space. The flag says that a run goes on.
words_from : Bool → String → List String
words_from inside String.[] = if inside then "" ∷ [] else []
words_from inside (String.◌∷◌ c s) =
    let next = words_from (not (is_white c)) s in
    if is_white c then if inside then "" ∷ next else next else with_first c next

unfoldable pub words : String → List String
unfolding words_from
words s = words_from false s

splitlines_runs : splitlines "a\r\nb\n\nc" ≡ "a" ∷ "b" ∷ "" ∷ "c" ∷ []
unfolding splitlines nat_eq
splitlines_runs = refl

words_runs : words " a=1  b " ≡ "a=1" ∷ "b" ∷ []
unfolding words nat_eq
words_runs = refl
