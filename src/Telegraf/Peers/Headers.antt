-- ===== src/Telegraf/Peers/Headers.antt =====
-- `parse_peers`: which peers it finds.
use ffmuc_salt_public.Prelude.{
  String, ◌≡◌, refl, ◌∙◌, ap, sym, Bool, true, false, Option, none, some, List, [], ◌∷◌, ◌++◌, map,
  All, All-append, string_eq, Bool-cases, inl, inr,
}
use mathlib.Core.Path.{subst}
use mathlib.Core.List.{map-append, append-nil, append_assoc}
use ffmuc_salt_public.Prelude.Dict.{lookup}
use ffmuc_salt_public.Prelude.Scan.{splitlines, words}
use ffmuc_salt_public.Telegraf.Peers.{
  Peer, State, start, section_of, peer_of, all_peers, close, add_tokens, truthy, read_peer,
  read_other, read_line, read_lines, parse_peers, is_table_line, opened, new_peer, by_peer,
  by_section,
}
use ffmuc_salt_public.Telegraf.Peers.Named.{named, Complete, add_tokens-Complete, add_tokens-named}

-- The peer that a line names, if it is remote and stands in a section
abbrev pub header : Option String → Option (String × Bool) → List (Option String × Option String)
header none peer = []
header (some section) none = []
header (some section) (some (name, true)) = (some section, some name) ∷ []
header (some section) (some (name, false)) = []

-- What a line adds, by the section that it names, and the section of the lines below it
abbrev pub here :
    Option String → Option String → Option (String × Bool) → List (Option String × Option String)
here none section peer = header (truthy section) peer
here (some named_section) section peer = []

abbrev pub below : Option String → Option String → Option String
below none section = section
below (some named_section) section = some named_section

-- The lines of the remote peers, each with the section of the last line above it that names one
abbrev pub headers : Option String → List String → List (Option String × Option String)
headers section [] = []
headers section (line ∷ lines) =
    here (section_of line) section (peer_of line) ++ headers (below (section_of line) section) lines

abbrev Open : Option Peer → Type 0
Open none = Unit
Open (some p) = Complete p

abbrev heads : State → List (Option String × Option String)
heads s = map named (all_peers s)

-- Each peer has its section and its name.
abbrev Sound : State → Type 0
Sound s = All Complete s.peers × Open s.current

all_peers-Complete : (s : State) → Sound s → All Complete (all_peers s)
unfolding all_peers
all_peers-Complete s h = opened-Complete s.peers s.current h.0 h.1
  where
    opened-Complete :
        (peers : List Peer) (current : Option Peer)
        → All Complete peers
        → Open current
        → All Complete (opened peers current)
    opened-Complete peers none h k = h
    opened-Complete peers (some p) h k = All-append Complete peers (p ∷ []) h (k, tt)

abbrev fresh : String → String → Peer
fresh section name = ("section", section) ∷ ("peer", name) ∷ []

fresh-Complete : (section name : String) → Complete (fresh section name)
unfolding lookup string_eq
fresh-Complete section name = (section, name, refl, refl)

fresh-named : (section name : String) → named (fresh section name) ≡ (some section, some name)
unfolding lookup string_eq
fresh-named section name = refl

new_peer-Open :
    (line : String) (section : Option String) (name : String) → Open (new_peer line section name)
new_peer-Open line none name = tt
new_peer-Open line (some section) name =
    add_tokens-Complete (words line) (fresh section name) (fresh-Complete section name)

new_peer-heads :
    (peers : List Peer) (line : String) (section : Option String) (name : String)
    → map named (opened peers (new_peer line section name))
      ≡ map named peers ++ header section (some (name, true))
new_peer-heads peers line none name = sym (append-nil (map named peers))
new_peer-heads peers line (some section) name =
    map-append named peers (add_tokens (words line) (fresh section name) ∷ [])
    ∙ ap (λ h. map named peers ++ h ∷ [])
        (add_tokens-named (words line) (fresh section name) (fresh-Complete section name)
          ∙ fresh-named section name)

-- What a line that names no section does to a state
abbrev Steps : String → State → State → Type 0
Steps line s s' =
    Sound s'
    × (s'.section ≡ s.section)
    × (heads s' ≡ heads s ++ header (truthy s.section) (peer_of line))

read_peer-Steps :
    (line : String) (found : String × Bool) (s : State)
    → Sound s
    → peer_of line ≡ some found
    → Steps line s (read_peer line found s)
unfolding read_peer close all_peers
read_peer-Steps line (name, true) s h e = (
  (all_peers-Complete s h, new_peer-Open line (truthy s.section) name),
  refl,
  rw e (new_peer-heads (all_peers s) line (truthy s.section) name),
)
read_peer-Steps line (name, false) s h e =
    ((all_peers-Complete s h, tt), refl, rw e (no_header (truthy s.section) (heads s)))
  where
    no_header :
        (section : Option String) (before : List (Option String × Option String))
        → before ≡ before ++ header section (some (name, false))
    no_header none before = sym (append-nil before)
    no_header (some section) before = sym (append-nil before)

no_peer :
    (section : Option String) (before : List (Option String × Option String))
    → before ≡ before ++ header section none
no_peer none before = sym (append-nil before)
no_peer (some section) before = sym (append-nil before)

more_tokens-heads :
    (line : String) (peers : List Peer) (p : Peer)
    → Complete p
    → map named (peers ++ add_tokens (words line) p ∷ []) ≡ map named (peers ++ p ∷ [])
more_tokens-heads line peers p h =
    map-append named peers (add_tokens (words line) p ∷ [])
    ∙ ap (λ x. map named peers ++ x ∷ []) (add_tokens-named (words line) p h)
    ∙ sym (map-append named peers (p ∷ []))

read_other-Steps :
    (line : String) (s : State) (current : Option Peer)
    → s.current ≡ current
    → Sound s
    → peer_of line ≡ none
    → Steps line s (read_other line current s)
unfolding read_other close all_peers
read_other-Steps line s none e h none_here =
    (h, refl, rw none_here (no_peer (truthy s.section) (heads s)))
read_other-Steps line s (some p) e h none_here = elim (Bool-cases (is_table_line line)) [
  | inl b ↦
      rw b ((all_peers-Complete s h, tt), refl, rw none_here (no_peer (truthy s.section) (heads s)))
  | inr b ↦ rw b (
    (h.0, add_tokens-Complete (words line) p (complete s.current e h.1)),
    refl,
    rw none_here (
        more_tokens-heads line s.peers p (complete s.current e h.1)
        ∙ ap (λ c. map named (opened s.peers c)) (sym e)
        ∙ no_peer (truthy s.section) (heads s)),
  )
]
  where
    complete : (c : Option Peer) → c ≡ some p → Open c → Complete p
    complete c f k = subst Open f k

by_peer-Steps :
    (line : String) (found : Option (String × Bool)) (s : State)
    → Sound s
    → peer_of line ≡ found
    → Steps line s (by_peer line found s)
by_peer-Steps line none s h e = read_other-Steps line s s.current refl h e
by_peer-Steps line (some found) s h e = read_peer-Steps line found s h e

read_line-Steps :
    (line : String) (section : Option String) (s : State)
    → Sound s
    → Sound (by_section line section s)
      × ((by_section line section s).section ≡ below section s.section)
      × (heads (by_section line section s) ≡ heads s ++ here section s.section (peer_of line))
unfolding close all_peers
read_line-Steps line none s h = by_peer-Steps line (peer_of line) s h refl
read_line-Steps line (some section) s h =
    ((all_peers-Complete s h, tt), refl, sym (append-nil (heads s)))

-- The rest of the loop, from the state that a line leaves
abbrev Reads : List String → State → Type 0
Reads lines s =
    Sound (read_lines lines s) × (heads (read_lines lines s) ≡ heads s ++ headers s.section lines)

read_lines-Reads : (lines : List String) (s : State) → Sound s → Reads lines s
unfolding read_lines read_line
read_lines-Reads [] s h = (h, sym (append-nil (heads s)))
read_lines-Reads (line ∷ lines) s h =
    let (sound, same, more) = read_line-Steps line (section_of line) s h in
    let (sound', more') = read_lines-Reads lines (by_section line (section_of line) s) sound in
    (
      sound',
      more'
          ∙ ap (λ x. heads (by_section line (section_of line) s) ++ headers x lines) same
          ∙ ap (λ x. x ++ headers (below (section_of line) s.section) lines) more
          ∙ append_assoc (heads s) (here (section_of line) s.section (peer_of line))
              (headers (below (section_of line) s.section) lines),
    )

parse_peers-Reads : (text : String) → Reads (splitlines text) start
parse_peers-Reads text = read_lines-Reads (splitlines text) start (tt, tt)

pub parse_peers-Complete : (text : String) → All Complete (parse_peers text)
unfolding parse_peers
parse_peers-Complete text =
    all_peers-Complete (read_lines (splitlines text) start) (parse_peers-Reads text).0

-- The peers found are the remote ones, in the order of their lines, each with the section of the last
-- line above it that names one: no line of details, and no key in it, adds, drops or renames a peer.
pub parse_peers-headers :
    (text : String) → map named (parse_peers text) ≡ headers none (splitlines text)
unfolding parse_peers all_peers
parse_peers-headers text = (parse_peers-Reads text).1
