-- ===== src/Dhcpd/Placing.antt =====
-- The last loop of `parse` in dhcp-server/dhcpd_to_context.py: a reservation goes to a subnet.
use ffmuc_salt_public.Prelude.{
  ℕ, suc, ◌+◌, ◌≡◌, refl, ap, ◌∙◌, Bool, true, false, Option, none, some, List, [], ◌∷◌, ◌++◌,
  length, length-append, if◌then◌else◌, string_eq, arith, All, All-append,
}
use mathlib.Core.Path.{subst}
use ffmuc_salt_public.Dhcpd.Context.{
  Ip, valid, Outcome, done, raised, system_exit, ◌>>=◌, Reservation, Subnet,
}
use ffmuc_salt_public.Dhcpd.Reservations.{fits, place, place_all, reserved}

pub bind-done {ℓ κ} :
    {A : Type ℓ} {B : Type κ} (m : Outcome A) (f : A → Outcome B) {b : B}
    → (m >>= f) ≡ done b
    → (a : A) × (m ≡ done a) × (f a ≡ done b)
bind-done (done a) f h = (a, refl, h)
bind-done (raised e) f h = cc
bind-done (system_exit text) f h = cc

pub done_inj {ℓ} : {A : Type ℓ} {a b : A} → done a ≡ done b → a ≡ b
done_inj h = cc

module _ (lib : Ip) where
  open lib use {Network, Address, ip_network, ip_address, holds}

  -- The address of a reservation is in the network of a subnet.
  abbrev pub IsIn : Subnet → Reservation → Type 0
  IsIn sub res =
      (net : Network) × (address : Address) × (ip_network sub.subnet ≡ some net)
      × (ip_address res.ip ≡ some address)
      × (holds net address ≡ true)

  -- Each reservation of a subnet has an address in it.
  abbrev pub Fitting : Subnet → Type 0
  Fitting sub = All (IsIn sub) sub.reservations

  valid-done {ℓ} : {A : Type ℓ} (o : Option A) (a : A) → valid lib o ≡ done a → o ≡ some a
  valid-done none a h = absurd (cc h)
  valid-done (some b) a h = ap some (done_inj h)

  fits-IsIn : (res : Reservation) (sub : Subnet) → fits lib res sub ≡ done true → IsIn sub res
  unfolding fits
  fits-IsIn res sub h =
      let (address, e, h1) = bind-done (valid lib (ip_address res.ip)) _ h in
      let (net, e1, h2) = bind-done (valid lib (ip_network sub.subnet)) _ h1 in
      (
        net,
        address,
        valid-done (ip_network sub.subnet) net e1,
        valid-done (ip_address res.ip) address e,
        done_inj h2,
      )

  abbrev pub Placed : ℕ → List Subnet → List Subnet → Type 0
  Placed n before after =
      All Fitting after × (reserved after ≡ n + reserved before) × (length after ≡ length before)

  round-Placed :
      (res : Reservation) (sub : Subnet) (rest after : List Subnet) (here : Bool)
      → All Fitting (sub ∷ rest)
      → ((after' : List Subnet) → place lib res rest ≡ done after' → Placed 1 rest after')
      → fits lib res sub ≡ done here
      → (if here
          then done (record sub { reservations = sub.reservations ++ res ∷ [] } ∷ rest)
          else (place lib res rest >>= λ placed. done (sub ∷ placed)))
        ≡ done after
      → Placed 1 (sub ∷ rest) after
  unfolding reserved fits
  round-Placed res sub rest after true f ih e h = subst (Placed 1 (sub ∷ rest)) (done_inj h) (
    (All-append (IsIn sub) sub.reservations (res ∷ []) f.0 (fits-IsIn res sub e, tt), f.1),
    omega (arith, length-append sub.reservations (res ∷ [])),
    refl,
  )
  round-Placed res sub rest after false f ih e h =
      let (placed, p, h1) = bind-done (place lib res rest) _ h in
      let (fitting, more, same) = ih placed p in
      subst (Placed 1 (sub ∷ rest)) (done_inj h1) ((f.0, fitting), omega (arith, more), ap suc same)

  place-Placed :
      (res : Reservation) (before after : List Subnet)
      → All Fitting before
      → place lib res before ≡ done after
      → Placed 1 before after
  unfolding place
  place-Placed res [] after f h = absurd (cc h)
  place-Placed res (sub ∷ rest) after f h =
      let (here, e, h1) = bind-done (fits lib res sub) _ h in
      round-Placed res sub rest after here f (λ after'. place-Placed res rest after' f.1) e h1

  pub place_all-Placed :
      (hosts : List Reservation) (before after : List Subnet)
      → All Fitting before
      → place_all lib hosts before ≡ done after
      → Placed (length hosts) before after
  unfolding place_all
  place_all-Placed [] before after f h = subst (Placed 0 before) (done_inj h) (f, omega arith, refl)
  place_all-Placed (res ∷ hosts) before after f h =
      let (middle, e, h1) = bind-done (place lib res before) _ h in
      let (fitting, more, same) = place-Placed res before middle f e in
      let (fitting', more', same') = place_all-Placed hosts middle after fitting h1 in
      (fitting', omega (arith, more, more'), same' ∙ same)
