-- ===== src/Respondd/Clients.antt =====
-- respondd/respondd-tmpl/lib/statistics.py: `getClients`, and `getGateway`. What `batctl` gives is an
-- argument; letters are the ASCII ones.
pub mod Counted
use Prim.Native.Char.{Char, code}
use ffmuc_salt_public.Prelude.{
  ℕ, zero, suc, String, Bool, true, false, not, ◌&&◌, ◌||◌, Option, none, some, List, [], ◌∷◌, leb,
  if◌then◌else◌, ◌==◌, nat_eq, string_eq, option_eq,
}
use ffmuc_salt_public.Prelude.Result.{Result, ok, err, ◌>>=◌, index_error}
use ffmuc_salt_public.Prelude.Scan.{
  ◌>>=◌ as ◌>>?◌, is_digit, is_hex, is_white, span, span1, literal,
}

pub record Clients : Type 0 where
  pub total : ℕ
  pub wifi : ℕ

-- A class, for one character: what follows it
abbrev one : (Char → Bool) → String → Option String
one p String.[] = none
one p (String.◌∷◌ c s) = if p c then some s else none

abbrev is_any_hex : Char → Bool
is_any_hex c = is_hex c || (leb b'A' (code c) && leb (code c) b'F') || code c == b':'

abbrev is_lead : Char → Bool
is_lead c = is_white c || code c == b'*'

abbrev is_flag : Char → Bool
is_flag c =
    code c == b'R'
    || code c == b'P'
    || code c == b'N'
    || code c == b'X'
    || code c == b'W'
    || code c == b'I'
    || code c == b'r'
    || code c == b'p'
    || code c == b'n'
    || code c == b'x'
    || code c == b'w'
    || code c == b'i'
    || code c == b'.'

-- `^[\s*]*([0-9a-f:]+)\s+-\d\s\[([RPNXWI\.]+)\]`, with `re.I`: the address and the flags
unfoldable pub client_of : String → Option (String × String)
unfolding span span1 literal
client_of line = span1 is_any_hex (span is_lead line).1 >>? λ mac. span1 is_white mac.1 >>? λ gap.
    literal "-" gap.1 >>? λ minus. one is_digit minus >>? λ digit. one is_white digit >>? λ blank.
    literal "[" blank >>? λ opened.
    span1 is_flag opened >>? λ flags. literal "]" flags.1 >>? λ closed. some (mac.0, flags.0)

-- `flags[i]`
unfoldable pub char_at : ℕ → String → Result Char
char_at i String.[] = err index_error
char_at zero (String.◌∷◌ c s) = ok c
char_at (suc i) (String.◌∷◌ c s) = char_at i s

abbrev starts_with : String → String → Bool
starts_with t s = elim (literal t s) [ none ↦ false | some rest ↦ true ]

abbrev pub is_multicast : String → Bool
is_multicast mac = starts_with "33:33:" mac || starts_with "01:00:5e:" mac

-- The two tests that hide an entry
unfoldable pub is_shown : Option String → String → String → Result Bool
unfolding char_at literal
is_shown bridge mac flags =
    if bridge == some mac
    then ok false
    else (char_at 0 flags >>= λ c. ok (not (code c == b'R') && not (is_multicast mac)))

-- An entry that is counted
unfoldable pub count_entry : String → Clients → Result Clients
unfolding char_at
count_entry flags c = char_at 4 flags >>= λ w.
    ok (record { total = suc c.total; wifi = if code w == b'W' then suc c.wifi else c.wifi })

-- A round of the loop
unfoldable pub add_entry : Option String → Option (String × String) → Clients → Result Clients
unfolding is_shown count_entry
add_entry bridge none c = ok c
add_entry bridge (some (mac, flags)) c =
    is_shown bridge mac flags >>= λ shown. if shown then count_entry flags c else ok c

unfoldable pub add_clients : Option String → List String → Clients → Result Clients
unfolding client_of add_entry
add_clients bridge [] c = ok c
add_clients bridge (line ∷ lines) c =
    add_entry bridge (client_of line) c >>= add_clients bridge lines

-- `getClients`
unfoldable pub get_clients : Option String → List String → Result Clients
unfolding add_clients
get_clients bridge lines = add_clients bridge lines (record { total = 0; wifi = 0 })

pub record Gateway : Type 0 where
  pub gateway : String
  pub gateway_nexthop : String

abbrev is_lower_hex : Char → Bool
is_lower_hex c = is_hex c || code c == b':'

abbrev is_weight : Char → Bool
is_weight c = is_digit c || code c == b' ' || code c == b'.'

abbrev or_try : Option String → Option String → Option String
or_try none b = b
or_try (some a) b = some a

-- `(\*|=>)\s+([0-9a-f:]+)\s\([\d \.]+\)\s+([0-9a-f:]+)`
unfoldable pub gateway_of : String → Option Gateway
unfolding span span1 literal
gateway_of line = or_try (literal "*" line) (literal "=>" line) >>? λ marked.
    span1 is_white marked >>? λ gap. span1 is_lower_hex gap.1 >>? λ gateway.
    one is_white gateway.1 >>? literal "(" >>? λ opened. span1 is_weight opened >>? λ weight.
    literal ")" weight.1 >>? λ closed. span1 is_white closed >>? λ gap'.
    span1 is_lower_hex gap'.1 >>? λ nexthop.
    some (record { gateway = gateway.0; gateway_nexthop = nexthop.0 })

abbrev or_before : Option Gateway → Option Gateway → Option Gateway
or_before none before = before
or_before (some g) before = some g

-- `getGateway`: the last line that fits
unfoldable pub get_gateway : List String → Option Gateway → Option Gateway
unfolding gateway_of
get_gateway [] ret = ret
get_gateway (line ∷ lines) ret = get_gateway lines (or_before (gateway_of line) ret)
