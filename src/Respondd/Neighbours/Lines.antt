-- ===== src/Respondd/Neighbours/Lines.antt =====
-- The patterns of respondd/respondd-tmpl/lib/neighbours.py.
use Prim.Native.Char.{Char, code}
use ffmuc_salt_public.Prelude.{
  String, ◌<>◌, Bool, not, ◌&&◌, ◌||◌, Option, none, some, leb, if◌then◌else◌, ◌==◌, nat_eq,
}
use ffmuc_salt_public.Prelude.Scan.{◌>>=◌, is_digit, is_hex, span, span1, literal}

-- `[…]+` where what follows may begin with the same characters: the longest run first, then the shorter ones
unfoldable pub plus_then {ℓ} :
    {A : Type ℓ} → (Char → Bool) → (String → Option A) → String → Option A
plus_then p next String.[] = none
plus_then p next (String.◌∷◌ c s) =
    let longer = plus_then p next s in
    if p c then elim longer [ some a ↦ some a | none ↦ next s ] else none

abbrev is_letter : Char → Bool
is_letter c = (leb b'a' (code c) && leb (code c) b'z') || (leb b'A' (code c) && leb (code c) b'Z')

abbrev is_word : Char → Bool
is_word c = is_letter c || is_digit c || code c == b'_'

abbrev is_mac : Char → Bool
is_mac c = is_hex c || (leb b'A' (code c) && leb (code c) b'F') || code c == b':'

-- A letter where `re.I` makes no difference between `c` and `d`
abbrev one_of : Char → Char → String → Option String
one_of c d String.[] = none
one_of c d (String.◌∷◌ x s) = if code x == code c || code x == code d then some s else none

-- `^Station ([0-9a-f:]+) \(on ([\w\d]+)\)`, with `re.I`: the address
unfoldable pub station_of : String → Option String
unfolding span1 literal
station_of line = do
  s ← one_of "S" "s" line
  t ← one_of "T" "t" s
  a ← one_of "A" "a" t
  t' ← one_of "T" "t" a
  i ← one_of "I" "i" t'
  o ← one_of "O" "o" i
  n ← one_of "N" "n" o
  blank ← literal " " n
  mac ← span1 is_mac blank
  opened ← literal " (" mac.1
  o' ← one_of "O" "o" opened
  n' ← one_of "N" "n" o'
  blank' ← literal " " n'
  interface ← span1 is_word blank'
  closed ← literal ")" interface.1
  some mac.0

abbrev is_blank : Char → Bool
is_blank c = code c == 9 || code c == b' '

-- `^[\t ]+([^:]+):[\t ]+([^ ]+)`
abbrev value_part : String → String → Option (String × String)
value_part name s = do value ← span1 (λ c. not (code c == b' ')) s; some (name, value.0)

abbrev name_part : String → Option (String × String)
unfolding plus_then
name_part s = do
  name ← span1 (λ c. not (code c == b':')) s
  after ← literal ":" name.1
  plus_then is_blank (value_part name.0) after

unfoldable pub field_of : String → Option (String × String)
unfolding plus_then span1 literal
field_of line = plus_then is_blank name_part line

pub record Originator : Type 0 where
  pub origin : String
  pub lastseen : String
  pub tq : String
  pub nexthop : String
  pub interface : String

-- `(.*)\]`: what stands before the last bracket
unfoldable pub before_bracket : String → Option String
before_bracket String.[] = none
before_bracket (String.◌∷◌ c s) = elim (before_bracket s) [
  | some front ↦ some (String.◌∷◌ c front)
  | none ↦ if code c == b']' then some "" else none
]

-- `[ ]*`: what follows
abbrev spaces : String → String
spaces s = (span (λ c. code c == b' ') s).1

abbrev is_lead : Char → Bool
is_lead c = is_blank c || code c == b'*'

abbrev is_seconds : Char → Bool
is_seconds c = is_digit c || code c == b'.'

-- `^[ \*\t]*([0-9a-f:]+)[ ]*([\d\.]*)s[ ]*\(([ ]*\d*)\)[ ]*([0-9a-f:]+)[ ]*\[[ ]*(.*)\]`, with `re.I`. Neither a
-- letter s, nor a parenthesis or a bracket is in the class before it, so the longest runs are the only ones.
unfoldable pub originator_of : String → Option Originator
unfolding span span1 literal before_bracket
originator_of line = do
  origin ← span1 is_mac (span is_lead line).1
  let (lastseen, after) = span is_seconds (spaces origin.1)
  s ← one_of "s" "S" after
  opened ← literal "(" (spaces s)
  let (lead, number) = span (λ c. code c == b' ') opened
  let (digits, after_tq) = span is_digit number
  closed ← literal ")" after_tq
  nexthop ← span1 is_mac (spaces closed)
  bracket ← literal "[" (spaces nexthop.1)
  interface ← before_bracket (spaces bracket)
  some (record {
    origin = origin.0;
    lastseen = lastseen;
    tq = lead <> digits;
    nexthop = nexthop.0;
    interface = interface;
  })
