-- ===== src/Dhcpd/Patterns.antt =====
-- dhcp-server/dhcpd_to_context.py: the patterns of `parse`. A pattern is a function from the text at
-- which it is tried to its group; digits are the ASCII ones.
use Prim.Native.Char.{Char, code}
use ffmuc_salt_public.Prelude.{
  String, Bool, not, ◌&&◌, ◌||◌, Option, none, some, List, [], ◌∷◌, if◌then◌else◌, ◌==◌, nat_eq,
  string_eq, ltb, leb,
}
use ffmuc_salt_public.Prelude.Scan.{◌>>=◌, is_digit, is_hex, is_white, span, span1, literal, len}

-- `re.search`: the group of the first place where the pattern fits
unfoldable pub search {ℓ} : {A : Type ℓ} → (String → Option A) → String → Option A
search pattern String.[] = pattern ""
search pattern (String.◌∷◌ c s) = elim (pattern (String.◌∷◌ c s)) [
  | some a ↦ some a
  | none ↦ search pattern s
]

-- `\s+`
abbrev white : String → Option String
white s = span1 is_white s >>= λ w. some w.1

-- `word\s+`
abbrev word : String → String → Option String
word w s = literal w s >>= white

-- `"([^"]*)"`, and what follows
abbrev quoted : String → Option (String × String)
quoted s = do
  opened ← literal "\"" s
  let (text, after) = span (λ c. not (code c == b'"')) opened
  rest ← literal "\"" after
  some (text, rest)

-- `option\s+key\s+"([^"]*)"`
unfoldable pub quoted_option : String → String → Option String
unfolding span span1 literal
quoted_option key s = do
  named ← word "option" s
  text ← word key named
  group ← quoted text
  some group.0

-- `filename\s+"([^"]*)";`
unfoldable pub boot_file_pattern : String → Option String
unfolding span span1 literal
boot_file_pattern s = do
  text ← word "filename" s
  group ← quoted text
  end ← literal ";" group.1
  some group.0

abbrev last_char : String → String
last_char String.[] = ""
last_char (String.◌∷◌ c String.[]) = String.◌∷◌ c ""
last_char (String.◌∷◌ c (String.◌∷◌ d s)) = last_char (String.◌∷◌ d s)

-- `\s+([^;]+);`. The white space gives its last character to the group where nothing else is left
-- for it.
abbrev group_of : String → String → Option String
group_of blank String.[] = if ltb 1 (len blank) then some (last_char blank) else none
group_of blank (String.◌∷◌ c s) = some (String.◌∷◌ c s)

unfoldable pub value : String → Option String
unfolding span span1 literal len
value s = do
  blank ← span1 is_white s
  let (text, after) = span (λ c. not (code c == b';')) blank.1
  end ← literal ";" after
  group_of blank.0 text

-- `option\s+key\s+([^;]+);`
unfoldable pub option_value : String → String → Option String
unfolding value
option_value key s = word "option" s >>= literal key >>= value

-- `next-server\s+([^;]+);`
unfoldable pub next_server_pattern : String → Option String
unfolding value
next_server_pattern s = literal "next-server" s >>= value

-- The text before the last semicolon, which has to be there: `(\S+);` gives back what is behind it.
unfoldable pub before_semicolon : String → Option String
before_semicolon String.[] = none
before_semicolon (String.◌∷◌ c s) = elim (before_semicolon s) [
  | some front ↦ some (String.◌∷◌ c front)
  | none ↦ if code c == b';' then some "" else none
]

abbrev nonempty : String → Option String
nonempty String.[] = none
nonempty (String.◌∷◌ c s) = some (String.◌∷◌ c s)

-- `range\s+(\S+)\s+(\S+);`
unfoldable pub range_pattern : String → Option (String × String)
unfolding span1 literal before_semicolon
range_pattern s = do
  first ← word "range" s
  low ← span1 (λ c. not (is_white c)) first
  second ← white low.1
  run ← span1 (λ c. not (is_white c)) second
  front ← before_semicolon run.0
  high ← nonempty front
  some (low.0, high)

-- `key\s+([…]+);`, for a class that has no semicolon
unfoldable pub class_value : String → (Char → Bool) → String → Option String
unfolding span1 literal
class_value key p s = do
  text ← word key s
  group ← span1 p text
  end ← literal ";" group.1
  some group.0

-- `[0-9a-fA-F:]`, and `[\d.]`
abbrev pub is_mac : Char → Bool
is_mac c = is_hex c || (leb b'A' (code c) && leb (code c) b'F') || code c == b':'

abbrev pub is_ip : Char → Bool
is_ip c = is_digit c || code c == b'.'

-- `hardware\s+ethernet\s+([0-9a-fA-F:]+);`
unfoldable pub mac_pattern : String → Option String
unfolding class_value
mac_pattern s = word "hardware" s >>= class_value "ethernet" is_mac

-- `re.findall(key + r'\s+(\d+);', body)`. A match leaves nothing in which another could begin: the
-- digits and the semicolon begin none, and the key has to follow a match whole.
unfoldable pub find_numbers : String → String → List String
unfolding class_value
find_numbers key String.[] = []
find_numbers key (String.◌∷◌ c s) = elim (class_value key is_digit (String.◌∷◌ c s)) [
  | none ↦ find_numbers key s
  | some digits ↦ digits ∷ find_numbers key s
]

-- `re.sub(r'\s+', '', s)`
unfoldable pub without_white : String → String
without_white String.[] = ""
without_white (String.◌∷◌ c s) =
    let rest = without_white s in if is_white c then rest else String.◌∷◌ c rest
