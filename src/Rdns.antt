-- ===== src/Rdns.antt =====
-- _modules/ffmuc_rdns.py: `ptr_records`, the reverse records of the public prefixes. Parsing, printing
-- and `reverse_pointer` of the module ipaddress are the parameter `Ip`; an address is its version and
-- its number, and parsing what was printed gives it back.
pub mod Custom
pub mod Longest
pub mod Lowest
pub mod Placed
pub mod Sorted
mod Examples
use ffmuc_salt_public.Prelude.{
  ℕ, ◌+◌, ◌-◌, ◌*◌, ◌/◌, ◌^◌, String, ◌<>◌, Bool, true, false, not, ◌&&◌, ◌||◌, Option, none, some,
  List, [], ◌∷◌, keep_if, Eq, if◌then◌else◌, ◌==◌, string_eq, nat_eq, ltb, leb,
}
use Prim.Native.Char.{code}
use mathlib.Core.Option
use native.Mathlib.Decide.{ℕ_discrete}
use ffmuc_salt_public.Prelude.Dict.{Dict, insert, has}
use ffmuc_salt_public.Prelude.Sort.{sorted_by}
use ffmuc_salt_public.Prelude.Text.{text_le, ends_with, split, strip}
use ffmuc_salt_public.Prelude.Result.{Result, ok, err, key_error, value_error, ◌>>=◌}

pub record Address : Type 0 where
  pub version : ℕ
  pub value : ℕ

unfoldable pub Address-discrete : Discrete Address
Address-discrete = hlevel ℕ_discrete

instance unfoldable pub address_eq : Eq Address
unfolding Address-discrete
address_eq = record { dec = Address-discrete }

pub record Network : Type 0 where
  pub version : ℕ
  pub network_address : ℕ
  pub prefixlen : ℕ

-- `ip_address` and `ip_network`, without a value where they raise a ValueError, `str` and
-- `reverse_pointer`
pub record Ip : Type 0 where
  pub ip_address : String → Option Address
  pub ip_network : String → Option Network
  pub show : Address → String
  pub reverse_pointer : Address → String

-- `address in network`: the bits of the prefix are the network's.
unfoldable pub in_network : Address → Network → Bool
in_network a n =
    let block = 2 ^ ((if n.version == 4 then 32 else 128) - n.prefixlen) in
    a.version == n.version && a.value / block == n.network_address / block

-- `_fqdn`
unfoldable pub fqdn : String → String
fqdn name = let s = strip name in if ends_with s "." then s else s <> "."

-- `max(matches, key=…)`: the first of those with the longest prefix
unfoldable pub longest : List (Network × String) → Option (Network × String)
longest [] = none
longest (m ∷ rest) = elim (longest rest) [
  | none ↦ some m
  | some best ↦ if ltb m.0.prefixlen best.0.prefixlen then some best else some m
]

-- `_zone_for`
unfoldable pub zone_for : Address → List (Network × String) → Option String
unfolding longest
zone_for address networks =
    Option.map (λ m. m.1) (longest (keep_if (λ m. in_network address m.0) networks))

pub record Candidate : Type 0 where
  pub address : Option String
  pub target : Option String
  pub priority : Option ℕ

-- A candidate with its key: the priority and the full name of the target
pub record Keyed : Type 0 where
  pub address : Option String
  pub target : String
  pub priority : ℕ

abbrev required {ℓ} : {A : Type ℓ} → String → Option A → Result A
required key none = err (key_error key)
required key (some a) = ok a

unfoldable pub keyed : List Candidate → Result (List Keyed)
keyed [] = ok []
keyed (c ∷ rest) = required "target" c.target >>= λ target. keyed rest >>= λ more. ok (
    record { address = c.address; target = fqdn target; priority = Option.get_or c.priority 100 }
    ∷ more)

unfoldable pub key_le : Keyed → Keyed → Bool
key_le x y = ltb x.priority y.priority || (x.priority == y.priority && text_le x.target y.target)

abbrev pub Selected : Type 0
Selected = Dict Address String

abbrev pub first_part : List String → String
first_part [] = ""
first_part (s ∷ rest) = s

abbrev set_default : Address → String → Selected → Selected
set_default a t selected = if has a selected then selected else insert a t selected

module _ (ip : Ip) where
  -- The address of a candidate, if it parses
  abbrev pub parsed : String → Option Address
  parsed text = ip.ip_address (first_part (split "/" text))

  abbrev kept : Option Address → String → Selected → Selected
  kept none target selected = selected
  kept (some a) target selected = set_default a target selected

  -- The loop over the sorted candidates
  unfoldable pub select : List Keyed → Selected → Result Selected
  select [] selected = ok selected
  select (c ∷ rest) selected =
      required "address" c.address >>= λ text. select rest (kept (parsed text) c.target selected)

  abbrev valid : Option Address → Result Address
  valid none = err (value_error "does not appear to be an IPv4 or IPv6 address")
  valid (some a) = ok a

  -- The loops over `custom`; a single text stands for a list of one.
  unfoldable pub override : String → List String → Selected → Result Selected
  override target [] selected = ok selected
  override target (text ∷ rest) selected =
      valid (ip.ip_address text) >>= λ a. override target rest (insert a (fqdn target) selected)

  unfoldable pub overrides : Dict String (List String) → Selected → Result Selected
  overrides [] selected = ok selected
  overrides ((target, addresses) ∷ rest) selected =
      override target addresses selected >>= λ more. overrides rest more

-- `zone.rstrip(".")`
unfoldable pub strip_dots : String → String
strip_dots String.[] = ""
strip_dots (String.◌∷◌ c s) =
    let rest = strip_dots s in
    if rest == "" && String.◌∷◌ c "" == "." then "" else String.◌∷◌ c rest

pub record Ptr : Type 0 where
  pub ip : Address
  pub address : String
  pub name : String
  pub zone : String
  pub target : String

-- The key `(version, address)` of the last sort
unfoldable pub ptr_le : Ptr → Ptr → Bool
ptr_le x y =
    ltb x.ip.version y.ip.version || (x.ip.version == y.ip.version && leb x.ip.value y.ip.value)

module _ (ip : Ip) where
  unfoldable pub parse_networks : Dict String String → Result (List (Network × String))
  parse_networks [] = ok []
  parse_networks ((prefix, zone) ∷ rest) =
      (elim (ip.ip_network prefix) [
        | none ↦ err (value_error "does not appear to be an IPv4 or IPv6 network")
        | some n ↦ ok n
      ])
      >>= λ network. parse_networks rest >>= λ more. ok ((network, strip_dots zone) ∷ more)

  abbrev add_ptr : Address → String → Option String → List Ptr → List Ptr
  add_ptr a target none rest = rest
  add_ptr a target (some zone) rest =
      if zone == ""
      then rest
      else record {
        ip = a;
        address = ip.show a;
        name = ip.reverse_pointer a <> ".";
        zone = zone;
        target = target;
      }
        ∷ rest

  -- The loop over `selected`
  unfoldable pub ptrs : List (Network × String) → Selected → List Ptr
  unfolding zone_for
  ptrs networks [] = []
  ptrs networks ((a, target) ∷ rest) = add_ptr a target (zone_for a networks) (ptrs networks rest)

  -- `ptr_records`
  unfoldable pub ptr_records :
      List Candidate → Dict String String → Dict String (List String) → Result (List Ptr)
  ptr_records candidates zones custom = do
    networks ← parse_networks zones
    found ← keyed candidates
    selected ← select ip (sorted_by key_le found) []
    final ← overrides ip custom selected
    ok (sorted_by ptr_le (ptrs networks final))
