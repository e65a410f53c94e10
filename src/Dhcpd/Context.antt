-- ===== src/Dhcpd/Context.antt =====
-- dhcp-server/dhcpd_to_context.py: the loop of `parse` over the blocks. The module ipaddress is the parameter `Ip`.
use Prim.Native.Char.{Char, code}
use ffmuc_salt_public.Prelude.{
  ℕ, zero, suc, String, ◌<>◌, Bool, false, Option, none, some, List, [], ◌∷◌, ◌++◌, if◌then◌else◌,
  ◌==◌, contains, nat_eq, string_eq,
}
use ffmuc_salt_public.Prelude.Result.{
  Result, ok, err, Error, attribute_error, index_error, value_error,
}
use ffmuc_salt_public.Prelude.Scan.{words, int_of_digits}
use ffmuc_salt_public.Prelude.Text.{strip}
use ffmuc_salt_public.Dhcpd.Patterns.{
  search, quoted_option, boot_file_pattern, option_value, next_server_pattern, range_pattern,
  class_value, is_ip, mac_pattern, find_numbers, without_white,
}

-- The module ipaddress: None stands for a ValueError.
pub record Ip : Type 1 where
  pub Network : Type 0
  pub Address : Type 0
  pub ip_network : String → Option Network
  pub ip_address : String → Option Address
  pub holds : Network → Address → Bool
  pub show : Network → String

-- A call returns, raises an exception, or ends the program with a message.
pub data Outcome {ℓ} (A : Type ℓ) : Type ℓ where
  done : A → Outcome A
  raised : Error → Outcome A
  system_exit : String → Outcome A

infixl 5 ◌>>=◌ ◌>>◌
abbrev pub ◌>>=◌ {ℓ κ} : {A : Type ℓ} {B : Type κ} → Outcome A → (A → Outcome B) → Outcome B
done a >>= next = next a
raised e >>= next = raised e
system_exit text >>= next = system_exit text

abbrev pub ◌>>◌ {ℓ} : {B : Type ℓ} → Outcome (Unit {0}) → Outcome B → Outcome B
first >> next = first >>= λ _. next

pub record Reservation : Type 0 where
  pub mac : String
  pub ip : String
  pub hostname : String

pub record Subnet : Type 0 where
  pub subnet : String
  pub routers : Option String
  pub dns : Option String
  pub next_server : Option String
  pub boot_file : Option String
  pub pool : String
  pub reservations : List Reservation

-- `out`, without what is the same for every text
pub record Context : Type 0 where
  pub interfaces : List String
  pub domain_name : Option String
  pub subnets : List Subnet
  pub valid_lifetime : Option ℕ
  pub max_valid_lifetime : Option ℕ

-- What the loop over the blocks has found: the two lists, and the set `lifetimes` by its keys
pub record Found : Type 0 where
  pub subnets : List Subnet
  pub hosts : List Reservation
  pub default_times : List ℕ
  pub max_times : List ℕ

-- `m.group(…)`, where the search may have found nothing
abbrev pub group {ℓ} : {A : Type ℓ} → Option A → Outcome A
group none = raised attribute_error
group (some a) = done a

-- `words[i]`
unfoldable pub nth : List String → ℕ → Outcome String
nth [] i = raised index_error
nth (w ∷ ws) zero = done w
nth (w ∷ ws) (suc i) = nth ws i

-- `words[:1] == [kind]`
abbrev pub begins_with : String → List String → Bool
begins_with kind [] = false
begins_with kind (w ∷ ws) = w == kind

abbrev map_option : (String → String) → Option String → Option String
map_option f none = none
map_option f (some s) = some (f s)

-- `lifetimes.add(…)` for each, with `int(v)`
abbrev pub from_result {ℓ} : {A : Type ℓ} → Result A → Outcome A
from_result (ok a) = done a
from_result (err e) = raised e

unfoldable pub add_times : List String → List ℕ → Outcome (List ℕ)
unfolding int_of_digits
add_times [] set = done set
add_times (v ∷ vs) set = from_result (int_of_digits v) >>= λ n.
    add_times vs (if contains set n then set else set ++ n ∷ [])

-- `s.lower()`, of a text that has no other capital letters
abbrev lower_char : Char → Char
lower_char c =
    if code c == b'A'
    then "a"
    else if code c == b'B'
    then "b"
    else if code c == b'C'
    then "c"
    else if code c == b'D'
    then "d"
    else if code c == b'E'
    then "e"
    else if code c == b'F'
    then "f"
    else c

unfoldable pub lower : String → String
lower String.[] = ""
lower (String.◌∷◌ c s) = String.◌∷◌ (lower_char c) (lower s)

-- `res`
unfoldable pub reservation_of : List String → String → Outcome Reservation
unfolding search mac_pattern class_value quoted_option nth lower
reservation_of names body = do
  mac ← group (search mac_pattern body)
  ip ← group (search (class_value "fixed-address" is_ip) body)
  hostname ← elim (search (quoted_option "host-name") body) [
    | some name ↦ done name
    | none ↦ nth names 1
  ]
  done (record { mac = lower mac; ip = ip; hostname = hostname })

abbrev pub nothing : Found
nothing = record { subnets = []; hosts = []; default_times = []; max_times = [] }

module _ (lib : Ip) where
  open lib use {ip_network, ip_address, holds, show}

  abbrev pub valid {ℓ} : {A : Type ℓ} → Option A → Outcome A
  valid none = raised (value_error "no address or network")
  valid (some a) = done a

  -- `sub`
  unfoldable pub subnet_of : List String → String → Outcome Subnet
  unfolding search option_value next_server_pattern boot_file_pattern range_pattern without_white
      nth strip
  subnet_of names body = do
    address ← nth names 1
    mask ← nth names 3
    net ← valid (ip_network (address <> ("/" <> mask)))
    range ← group (search range_pattern body)
    done (record {
      subnet = show net;
      routers = map_option without_white (search (option_value "routers") body);
      dns = map_option without_white (search (option_value "domain-name-servers") body);
      next_server = map_option strip (search next_server_pattern body);
      boot_file = map_option strip (search boot_file_pattern body);
      pool = range.0 <> (" - " <> range.1);
      reservations = [];
    })

  -- The two branches of the loop over the blocks
  unfoldable pub add_subnet : List String → String → Found → Outcome Found
  unfolding subnet_of find_numbers add_times
  add_subnet names body f = do
    sub ← subnet_of names body
    default_times ← add_times (find_numbers "default-lease-time" body) f.default_times
    max_times ← add_times (find_numbers "max-lease-time" body) f.max_times
    done (record f {
      subnets = f.subnets ++ sub ∷ [];
      default_times = default_times;
      max_times = max_times;
    })

  unfoldable pub add_host : List String → String → Found → Outcome Found
  unfolding reservation_of
  add_host names body f = do
    res ← reservation_of names body
    done (record f { hosts = f.hosts ++ res ∷ [] })

  -- One round of the loop
  unfoldable pub add_block : String × String → Found → Outcome Found
  unfolding add_subnet add_host words
  add_block (head, body) f =
      if begins_with "subnet" (words head)
      then add_subnet (words head) body f
      else if begins_with "host" (words head)
      then add_host (words head) body f
      else done f

  unfoldable pub add_blocks : List (String × String) → Found → Outcome Found
  unfolding add_block
  add_blocks [] f = done f
  add_blocks (block ∷ rest) f = add_block block f >>= add_blocks rest
