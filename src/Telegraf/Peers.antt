-- ===== src/Telegraf/Peers.antt =====
-- telegraf/files/haproxy_peers_stats.py: `SECTION_RE`, `PEER_RE` and `parse_peers`.
pub mod Named
pub mod Headers
use Prim.Native.Char.{code}
use ffmuc_salt_public.Prelude.{
  ℕ, String, Bool, true, false, not, ◌&&◌, ◌||◌, Option, none, some, List, [], ◌∷◌, ◌++◌,
  if◌then◌else◌, ◌==◌, string_eq, nat_eq, is_some,
}
use ffmuc_salt_public.Prelude.Dict.{Dict, lookup, insert}
use ffmuc_salt_public.Prelude.Scan.{
  ◌>>=◌, is_hex, is_white, span, span1, literal, occurs, splitlines, words,
}
use ffmuc_salt_public.Prelude.Text.{partition}

-- `SECTION_RE.match(line)`: its group
unfoldable pub section_of : String → Option String
unfolding span span1 literal
section_of line = do
  address ← literal "0x" line
  hex ← span1 is_hex address
  open_bracket ← literal ": [" hex.1
  let (inside, after) = span (λ c. not (code c == b']')) open_bracket
  id ← literal "] id=" after
  name ← span1 (λ c. not (is_white c)) id
  some name.0

-- `(local|remote),`
abbrev kind_of : String → Option Bool
kind_of s = elim (literal "local," s) [
  | some rest ↦ some false
  | none ↦ elim (literal "remote," s) [ some rest ↦ some true | none ↦ none ]
]

-- `PEER_RE.match(line)`: its first group, and whether the second is "remote"
unfoldable pub peer_of : String → Option (String × Bool)
unfolding span1 literal
peer_of line = do
  indent ← span1 is_white line
  address ← literal "0x" indent.1
  hex ← span1 is_hex address
  id ← literal ": id=" hex.1
  name ← span1 (λ c. not (code c == b'(' || is_white c)) id
  paren ← literal "(" name.1
  remote ← kind_of paren
  some (name.0, remote)

abbrev pub Peer : Type 0
Peer = Dict String String

-- The dict that `current` names is the last of `peers`, and changes there too: it stands in `current`
-- until that is left, and `peers` holds those before it.
pub record State : Type 0 where
  pub peers : List Peer
  pub section : Option String
  pub current : Option Peer

abbrev pub start : State
start = record { peers = []; section = none; current = none }

abbrev opened : List Peer → Option Peer → List Peer
opened peers none = peers
opened peers (some p) = peers ++ p ∷ []

-- All of the list `peers` of the source
unfoldable pub all_peers : State → List Peer
all_peers s = opened s.peers s.current

-- `current = None`
unfoldable pub close : State → State
unfolding all_peers
close s = record s { peers = all_peers s; current = none }

-- `current.setdefault(key, value)`
unfoldable pub set_default : String → String → Peer → Peer
unfolding lookup insert
set_default key value p = if is_some (lookup key p) then p else insert key value p

-- `key, sep, value = token.partition("=")`, and what is done with them
unfoldable pub add_token : String → Peer → Peer
unfolding set_default partition occurs
add_token token p =
    let (key, value) = partition "=" token in
    if occurs "=" token && not (key == "id") then set_default key value p else p

unfoldable pub add_tokens : List String → Peer → Peer
unfolding add_token
add_tokens [] p = p
add_tokens (token ∷ tokens) p = add_tokens tokens (add_token token p)

unfoldable pub is_table_line : String → Bool
unfolding occurs
is_table_line line =
    occurs "shared tables:" line || occurs "remote_table:" line || occurs "last_local_table:" line

-- `if match.group(2) == "remote" and section`
abbrev pub truthy : Option String → Option String
truthy none = none
truthy (some section) = if section == "" then none else some section

abbrev new_peer : String → Option String → String → Option Peer
new_peer line none name = none
new_peer line (some section) name =
    some (add_tokens (words line) (("section", section) ∷ ("peer", name) ∷ []))

-- The branches of the loop's body, by what the two patterns find
unfoldable pub read_peer : String → String × Bool → State → State
unfolding close add_tokens words
read_peer line (name, remote) s = record (close s) {
  current = new_peer line (if remote then truthy s.section else none) name;
}

unfoldable pub read_other : String → Option Peer → State → State
unfolding close add_tokens words is_table_line
read_other line none s = s
read_other line (some p) s =
    if is_table_line line then close s else record s { current = some (add_tokens (words line) p) }

abbrev by_peer : String → Option (String × Bool) → State → State
by_peer line none s = read_other line s.current s
by_peer line (some found) s = read_peer line found s

abbrev by_section : String → Option String → State → State
by_section line none s = by_peer line (peer_of line) s
by_section line (some section) s = record (close s) { section = some section }

unfoldable pub read_line : String → State → State
unfolding section_of peer_of read_peer read_other close
read_line line s = by_section line (section_of line) s

unfoldable pub read_lines : List String → State → State
unfolding read_line
read_lines [] s = s
read_lines (line ∷ lines) s = read_lines lines (read_line line s)

-- `parse_peers`
unfoldable pub parse_peers : String → List Peer
unfolding read_lines splitlines all_peers
parse_peers text = all_peers (read_lines (splitlines text) start)
