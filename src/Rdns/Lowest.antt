-- ===== src/Rdns/Lowest.antt =====
-- `ptr_records` of _modules/ffmuc_rdns.py: of several candidates for an address, the one of the lowest
-- priority counts.
use ffmuc_salt_public.Prelude.{
  ◌≤◌, String, ◌≡◌, Option, none, some, List, [], ◌∷◌, All, if◌then◌else◌, keep_if, ◌==◌, option_eq,
  string_eq, nat_eq,
}
use ffmuc_salt_public.Rdns.{Address, address_eq, Keyed, Ip, parsed}

-- The address of a candidate, if it has one that parses
abbrev pub address_of : Ip → Keyed → Option Address
address_of ip c = elim c.address [ none ↦ none | some text ↦ parsed ip text ]

-- The first candidate of an address
abbrev pub first_of : Ip → Address → List Keyed → Option String
first_of ip a [] = none
first_of ip a (c ∷ cs) =
    let later = first_of ip a cs in if address_of ip c == some a then some c.target else later

abbrev or_else : Option String → Option String → Option String
or_else none b = b
or_else (some t) b = some t

-- The priority is no higher than that of a candidate with the address.
abbrev NotAbove : Ip → Address → Keyed → Keyed → Type 0
NotAbove ip a c d = address_of ip d ≡ some a → c.priority ≤ d.priority

-- A candidate that counts for an address: it has the address, and none with the address in the list
-- has a lower priority.
abbrev pub IsLowest : Ip → Address → Keyed → List Keyed → Type 0
IsLowest ip a c cs =
    (address_of ip c ≡ some a)
    × All (λ d. c.priority ≤ d.priority) (keep_if (λ d. address_of ip d == some a) cs)
