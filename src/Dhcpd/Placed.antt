-- ===== src/Dhcpd/Placed.antt =====
-- `parse` of dhcp-server/dhcpd_to_context.py: where the reservations go.
use ffmuc_salt_public.Prelude.{
  ℕ, ◌+◌, String, ◌<>◌, ◌≡◌, refl, ap, sym, ◌∙◌, Bool, true, false, Option, List, [], ◌∷◌, ◌++◌,
  length, count, one_if, length-append, if◌then◌else◌, ◌==◌, string_eq, arith, All, All-append,
}
use mathlib.Core.Path.{subst}
use ffmuc_salt_public.Prelude.Scan.{words}
use ffmuc_salt_public.Dhcpd.Blocks.{uncomment, blocks}
use ffmuc_salt_public.Dhcpd.Context.{
  add_times, Ip, Outcome, done, Subnet, Context, Found, begins_with, subnet_of, reservation_of,
  add_block, add_blocks, nothing, nth, group, valid, add_subnet, add_host,
}
use ffmuc_salt_public.Dhcpd.Reservations.{place_all, lifetime, parse, reserved}
use ffmuc_salt_public.Dhcpd.Patterns.{find_numbers, search, range_pattern}
use ffmuc_salt_public.Dhcpd.Placing.{bind-done, done_inj, IsIn, Fitting, place_all-Placed}

abbrev pub is_subnet : String × String → Bool
is_subnet (head, body) = begins_with "subnet" (words head)

abbrev pub is_host : String × String → Bool
is_host (head, body) = begins_with "host" (words head)

eq_of_== : (a b : String) → (a == b) ≡ true → b ≡ a
eq_of_== a b h = ground arith

subnet-ne-host : (◌==◌ {A = String} "subnet" "host") ≡ false
unfolding string_eq
subnet-ne-host = refl

not_both : (ws : List String) → begins_with "subnet" ws ≡ true → begins_with "host" ws ≡ false
not_both [] h = refl
not_both (w ∷ ws) h = subst (λ x. (x == "host") ≡ false) (eq_of_== w "subnet" h) subnet-ne-host

module _ (lib : Ip) where
  -- What the loop over the blocks has found: no reservation is placed yet.
  abbrev Counts : ℕ → ℕ → Found → Type 0
  Counts subnets hosts f =
      All (Fitting lib) f.subnets
      × (reserved f.subnets ≡ 0)
      × (length f.subnets ≡ subnets)
      × (length f.hosts ≡ hosts)

  reserved-append :
      (subnets : List Subnet) (sub : Subnet)
      → sub.reservations ≡ []
      → reserved (subnets ++ sub ∷ []) ≡ reserved subnets
  unfolding reserved
  reserved-append [] sub e = rw e refl
  reserved-append (s ∷ subnets) sub e = omega (arith, reserved-append subnets sub e)

  subnet_of-empty :
      (names : List String) (body : String) (sub : Subnet)
      → subnet_of lib names body ≡ done sub
      → sub.reservations ≡ []
  unfolding subnet_of
  subnet_of-empty names body sub h =
      let (address, e, h1) = bind-done (nth names 1) _ h in
      let (mask, e1, h2) = bind-done (nth names 3) _ h1 in
      let (net, e2, h3) = bind-done (valid lib (lib.ip_network (address <> ("/" <> mask)))) _ h2 in
      let (range, e3, h4) = bind-done (group (search range_pattern body)) _ h3 in
      ap (λ (x : Subnet). x.reservations) (sym (done_inj h4))

  -- A branch that adds a subnet without reservations, and one that adds a host
  add_subnet-Counts :
      (names : List String) (body : String) (f g : Found) (n m : ℕ)
      → Counts n m f
      → add_subnet lib names body f ≡ done g
      → Counts (1 + n) m g
  unfolding add_subnet
  add_subnet-Counts names body f g n m (fitting, none_yet, subnets, hosts) h =
      let (sub, e, h1) = bind-done (subnet_of lib names body) _ h in
      let (times, e1, h2) =
        bind-done (add_times (find_numbers "default-lease-time" body) f.default_times) _ h1 in
      let (more_times, e2, h3) =
        bind-done (add_times (find_numbers "max-lease-time" body) f.max_times) _ h2 in
      let empty = subnet_of-empty names body sub e in
      subst (Counts (1 + n) m) (done_inj h3) (
        All-append (Fitting lib) f.subnets (sub ∷ []) fitting
            (subst (All (IsIn lib sub)) (sym empty) tt, tt),
        reserved-append f.subnets sub empty ∙ none_yet,
        omega (arith, length-append f.subnets (sub ∷ []), subnets),
        hosts,
      )

  add_host-Counts :
      (names : List String) (body : String) (f g : Found) (n m : ℕ)
      → Counts n m f
      → add_host lib names body f ≡ done g
      → Counts n (1 + m) g
  unfolding add_host
  add_host-Counts names body f g n m (fitting, none_yet, subnets, hosts) h =
      let (res, e, h1) = bind-done (reservation_of names body) _ h in
      subst (Counts n (1 + m)) (done_inj h1)
        (fitting, none_yet, subnets, omega (arith, length-append f.hosts (res ∷ []), hosts))

  recount : (n n' m m' : ℕ) (f : Found) → Counts n m f → n ≡ n' → m ≡ m' → Counts n' m' f
  recount n n' m m' f (fitting, none_yet, subnets, hosts) p q =
      (fitting, none_yet, subnets ∙ p, hosts ∙ q)

  branch-Counts :
      (b c : Bool) (p q : Outcome Found) (f g : Found) (n m : ℕ)
      → (b ≡ true → c ≡ false)
      → Counts n m f
      → (p ≡ done g → Counts (1 + n) m g)
      → (q ≡ done g → Counts n (1 + m) g)
      → (if b then p else if c then q else done f) ≡ done g
      → Counts (one_if b + n) (one_if c + m) g
  branch-Counts true c p q f g n m one k kp kq h =
      let none_here = ap one_if (one refl) in
      recount (1 + n) _ m _ g (kp h) (omega arith) (omega (arith, none_here))
  branch-Counts false true p q f g n m one k kp kq h =
      recount n _ (1 + m) _ g (kq h) (omega arith) (omega arith)
  branch-Counts false false p q f g n m one k kp kq h =
      recount n _ m _ g (subst (Counts n m) (done_inj h) k) (omega arith) (omega arith)

  add_blocks-Counts :
      (list : List (String × String)) (f g : Found) (n m : ℕ)
      → Counts n m f
      → add_blocks lib list f ≡ done g
      → Counts (count is_subnet list + n) (count is_host list + m) g
  unfolding add_blocks add_block
  add_blocks-Counts [] f g n m k h =
      recount n _ m _ g (subst (Counts n m) (done_inj h) k) (omega arith) (omega arith)
  add_blocks-Counts ((head, body) ∷ rest) f g n m k h =
      let (middle, e, h1) = bind-done (add_block lib (head, body) f) _ h in
      let k1 =
        branch-Counts (begins_with "subnet" (words head)) (begins_with "host" (words head))
          (add_subnet lib (words head) body f) (add_host lib (words head) body f) f middle n m
          (not_both (words head)) k (add_subnet-Counts (words head) body f middle n m k)
          (add_host-Counts (words head) body f middle n m k) e in
      recount _ _ _ _ g
        (add_blocks-Counts rest middle g (one_if (begins_with "subnet" (words head)) + n)
          (one_if (begins_with "host" (words head)) + m) k1 h1)
        (omega arith) (omega arith)

  -- Where the program gets to a context, it has a subnet for each block of a subnet and a reservation
  -- for each block of a host, and each reservation stands in a subnet whose network has its address.
  pub parse-Placed :
      (text : String) (interfaces : List String) (valid_lifetime : Option ℕ) (ctx : Context)
      → parse lib text interfaces valid_lifetime ≡ done ctx
      → (length ctx.subnets ≡ count is_subnet (blocks (uncomment text)))
        × (reserved ctx.subnets ≡ count is_host (blocks (uncomment text)))
        × All (Fitting lib) ctx.subnets
  unfolding parse reserved
  parse-Placed text interfaces valid_lifetime ctx h =
      let list = blocks (uncomment text) in
      let (f, e, h1) = bind-done (add_blocks lib list nothing) _ h in
      let (subnets, e1, h2) = bind-done (place_all lib f.hosts f.subnets) _ h1 in
      let (default_time, e2, h3) = bind-done (lifetime "default-lease-time" f.default_times) _ h2 in
      let (max_time, e3, h4) = bind-done (lifetime "max-lease-time" f.max_times) _ h3 in
      let (fitting, none_yet, n, m) =
        add_blocks-Counts list nothing f 0 0 (tt, refl, refl, refl) e in
      let (fitting', placed, same) = place_all-Placed lib f.hosts f.subnets subnets fitting e1 in
      let same_subnets = ap (λ (c : Context). c.subnets) (done_inj h4) in
      subst
        (λ l.
          (length l ≡ count is_subnet list)
          × (reserved l ≡ count is_host list)
          × All (Fitting lib) l)
        same_subnets (omega (arith, same, n), omega (arith, placed, none_yet, m), fitting')
