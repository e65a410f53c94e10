-- ===== src/Dhcpd/Reservations.antt =====
-- dhcp-server/dhcpd_to_context.py: `parse` from its second loop on, and the counts of `main`.
use ffmuc_salt_public.Prelude.{
  ℕ, ◌+◌, String, ◌<>◌, Bool, not, Option, none, some, List, [], ◌∷◌, ◌++◌, map, length,
  if◌then◌else◌, ◌==◌, nat_eq, string_eq, keep_if,
}
use ffmuc_salt_public.Prelude.Numbers.{show_ℕ}
use ffmuc_salt_public.Prelude.Text.{join, split}
use ffmuc_salt_public.Prelude.Sort.{sorted_on}
use ffmuc_salt_public.Dhcpd.Blocks.{uncomment, top_level, blocks}
use ffmuc_salt_public.Dhcpd.Patterns.{search, quoted_option}
use ffmuc_salt_public.Dhcpd.Context.{
  Ip, Outcome, done, system_exit, ◌>>=◌, Reservation, Subnet, Context, add_blocks, nothing, valid,
}

-- The last loop, for one of the keys
unfoldable pub lifetime : String → List ℕ → Outcome (Option ℕ)
unfolding join sorted_on show_ℕ
lifetime key [] = done none
lifetime key (v ∷ []) = done (some v)
lifetime key (v ∷ w ∷ vs) = system_exit (
    "different "
    <> (key
        <> (" per pool: [" <> (join ", " (map show_ℕ (sorted_on (λ n. n) (v ∷ w ∷ vs))) <> "]"))))

abbrev or_else : Option ℕ → Option ℕ → Option ℕ
or_else none found = found
or_else (some v) found = if v == 0 then found else some v

module _ (lib : Ip) where
  open lib use {ip_network, ip_address, holds, show}

  -- `ipaddress.ip_address(res['ip']) in ipaddress.ip_network(sub['subnet'])`
  unfoldable pub fits : Reservation → Subnet → Outcome Bool
  fits res sub = do
    address ← valid lib (ip_address res.ip)
    net ← valid lib (ip_network sub.subnet)
    done (holds net address)

  -- The inner loop of the second: the first subnet that fits gets the reservation.
  unfoldable pub place : Reservation → List Subnet → Outcome (List Subnet)
  unfolding fits
  place res [] = system_exit ("reservation " <> (res.ip <> " fits no subnet"))
  place res (sub ∷ rest) = do
    here ← fits res sub
    if here
        then done (record sub { reservations = sub.reservations ++ res ∷ [] } ∷ rest)
        else (place res rest >>= λ placed. done (sub ∷ placed))

  unfoldable pub place_all : List Reservation → List Subnet → Outcome (List Subnet)
  unfolding place
  place_all [] subnets = done subnets
  place_all (res ∷ hosts) subnets = place res subnets >>= place_all hosts

  -- `parse`
  unfoldable pub parse : String → List String → Option ℕ → Outcome Context
  unfolding uncomment top_level blocks search quoted_option add_blocks place_all lifetime
  parse text interfaces valid_lifetime = do
    let plain = uncomment text
    f ← add_blocks lib (blocks plain) nothing
    subnets ← place_all f.hosts f.subnets
    default_time ← lifetime "default-lease-time" f.default_times
    max_time ← lifetime "max-lease-time" f.max_times
    done (record {
      interfaces = interfaces;
      domain_name = search (quoted_option "domain-name") (top_level plain);
      subnets = subnets;
      valid_lifetime = or_else valid_lifetime default_time;
      max_valid_lifetime = max_time;
    })

-- The count of reservations that `main` prints with `--summary`
unfoldable pub reserved : List Subnet → ℕ
reserved [] = 0
reserved (sub ∷ rest) = length sub.reservations + reserved rest

-- `[i for i in args.interfaces.split(',') if i]`
unfoldable pub interfaces_of : String → List String
unfolding split
interfaces_of text = keep_if (λ i. not (i == "")) (split "," text)

-- The numbers that `main` prints with `--summary`
unfoldable pub summary : Context → ℕ × ℕ
unfolding reserved
summary ctx = (length ctx.subnets, reserved ctx.subnets)
