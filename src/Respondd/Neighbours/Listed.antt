-- ===== src/Respondd/Neighbours/Listed.antt =====
-- `_get` of respondd/respondd-tmpl/lib/neighbours.py lists the direct neighbours.
use ffmuc_salt_public.Prelude.{
  String, ◌≡◌, refl, ap, sym, ◌∙◌, Bool, true, false, ◌&&◌, ◌||◌, Option, none, some, List, [], ◌∷◌,
  any, if◌then◌else◌, ◌==◌, string_eq, option_eq, is_some, arith,
}
use ffmuc_salt_public.Prelude.Numbers.{int}
use ffmuc_salt_public.Prelude.Dict.{Dict, lookup, insert, lookup-insert}
use ffmuc_salt_public.Prelude.Result.{Result, ok, ◌>>=◌, >>=-eq-ok, ok_inj}
use ffmuc_salt_public.Respondd.Neighbours.Lines.{Originator, originator_of}
use ffmuc_salt_public.Respondd.Neighbours.{
  Config, Stations, Macs, Under, Neighbour, Found, with_key, put_under, mesh_interfaces, has_wlan,
  add_wifi, add_batadv, add_direct, add_originator, add_originators, get_neighbours,
  get_station_dump,
}

-- A neighbour stands under the address of an interface.
abbrev pub is_listed {ℓ} : {V : Type ℓ} → Option String → String → Under V → Bool
is_listed mac origin d = is_some (lookup origin (with_key mac d))

abbrev or_empty {ℓ} : {V : Type ℓ} → Option (Dict String V) → Dict String V
or_empty none = []
or_empty (some d) = d

with_key-lookup {ℓ} :
    {V : Type ℓ} (mac : Option String) (d : Under V) → with_key mac d ≡ or_empty (lookup mac d)
unfolding with_key
with_key-lookup mac d =
    elim (lookup mac d) as (λ o. elim o [ none ↦ [] | some n ↦ n ] ≡ or_empty o) [
      | none ↦ refl
      | some n ↦ refl
    ]

is_some_if {ℓ} :
    {V : Type ℓ} (b : Bool) (v : V) (o : Option V)
    → is_some (if b then some v else o) ≡ (b || is_some o)
is_some_if true v o = refl
is_some_if false v o = refl

address_eq : (m mac : Option String) → (m == mac) ≡ true → mac ≡ m
address_eq m mac h = ground arith

listed_if {ℓ} :
    {V : Type ℓ} (here : Bool) (m mac : Option String) (x origin : String) (v : V) (d : Under V)
    → (here ≡ true → mac ≡ m)
    → is_some
        (lookup x (or_empty (if here then some (insert origin v (with_key mac d)) else lookup m d)))
      ≡ ((here && x == origin) || is_listed m x d)
listed_if true m mac x origin v d e =
    ap is_some (lookup-insert x origin v (with_key mac d))
    ∙ is_some_if (x == origin) v (lookup x (with_key mac d))
    ∙ ap (λ n. (x == origin) || is_listed n x d) (e refl)
listed_if false m mac x origin v d e = ap (λ r. is_some (lookup x r)) (sym (with_key-lookup m d))

is_listed-put_under {ℓ} :
    {V : Type ℓ} (m mac : Option String) (x origin : String) (v : V) (d : Under V)
    → is_listed m x (put_under mac origin v d) ≡ ((m == mac && x == origin) || is_listed m x d)
unfolding put_under
is_listed-put_under m mac x origin v d =
    let new = insert origin v (with_key mac d) in
    ap (λ r. is_some (lookup x r))
      (with_key-lookup m (insert mac new d) ∙ ap or_empty (lookup-insert m mac new d))
    ∙ listed_if (m == mac) m mac x origin v d (address_eq m mac)

-- A line about a direct neighbour, on an interface that has the address `m`
abbrev pub on_mac : Option String → Option (Option String) → Bool
on_mac m none = false
on_mac m (some mac) = m == mac

abbrev pub is_direct : Macs → Option String → String → Option Originator → Bool
is_direct macs m x none = false
is_direct macs m x (some o) =
    o.origin == o.nexthop && (on_mac m (lookup o.interface macs) && x == o.origin)

module _ {ℓ} {Float : Type ℓ} (float : String → Result Float) (m : Option String) (x : String) where
  found_step :
      (mac : Option (Option String)) (o : Originator) (b b' : Under (Neighbour float))
      → (elim mac [
        | none ↦ ok b
        | some mac ↦ int o.tq >>= λ tq. float o.lastseen >>= λ lastseen.
            ok (put_under mac o.origin (record { tq = tq; lastseen = lastseen }) b)
      ])
        ≡ ok b'
      → is_listed m x b' ≡ ((on_mac m mac && x == o.origin) || is_listed m x b)
  found_step none o b b' h = ap (is_listed m x) (sym (ok_inj h))
  found_step (some mac) o b b' h =
      let (tq, e, h1) = >>=-eq-ok (int o.tq) _ h in
      let (lastseen, e1, h2) = >>=-eq-ok (float o.lastseen) _ h1 in
      ap (is_listed m x) (sym (ok_inj h2)) ∙ is_listed-put_under m mac x o.origin _ b

  add_direct-listed :
      (config : Config) (stations : Stations) (macs : Macs) (o : Originator)
      (ret ret' : Found float)
      → add_direct float config stations macs o ret ≡ ok ret'
      → is_listed m x ret'.batadv
        ≡ ((on_mac m (lookup o.interface macs) && x == o.origin) || is_listed m x ret.batadv)
  unfolding add_direct add_batadv
  add_direct-listed config stations macs o ret ret' h =
      let (wifi, e, h1) =
        >>=-eq-ok
          (if has_wlan config o.interface
            then add_wifi float stations macs o ret.wifi
            else ok ret.wifi)
          _ h in
      let (batadv, e1, h2) = >>=-eq-ok (add_batadv float macs o ret.batadv) _ h1 in
      ap (λ (r : Found float). is_listed m x r.batadv) (sym (ok_inj h2))
      ∙ found_step (lookup o.interface macs) o ret.batadv batadv e1

  guarded :
      (same : Bool) (config : Config) (stations : Stations) (macs : Macs) (o : Originator)
      (ret ret' : Found float)
      → (if same then add_direct float config stations macs o ret else ok ret) ≡ ok ret'
      → is_listed m x ret'.batadv ≡ (
          (same && (on_mac m (lookup o.interface macs) && x == o.origin))
          || is_listed m x ret.batadv)
  guarded true config stations macs o ret ret' h =
      add_direct-listed config stations macs o ret ret' h
  guarded false config stations macs o ret ret' h =
      ap (λ (r : Found float). is_listed m x r.batadv) (sym (ok_inj h))

  add_originator-listed :
      (config : Config) (stations : Stations) (macs : Macs) (entry : Option Originator)
      (ret ret' : Found float)
      → add_originator float config stations macs entry ret ≡ ok ret'
      → is_listed m x ret'.batadv ≡ (is_direct macs m x entry || is_listed m x ret.batadv)
  unfolding add_originator
  add_originator-listed config stations macs none ret ret' h =
      ap (λ (r : Found float). is_listed m x r.batadv) (sym (ok_inj h))
  add_originator-listed config stations macs (some o) ret ret' h =
      guarded (o.origin == o.nexthop) config stations macs o ret ret' h

  or_swap : (a b c : Bool) → (a || (b || c)) ≡ ((b || a) || c)
  or_swap true true c = refl
  or_swap true false c = refl
  or_swap false true c = refl
  or_swap false false c = refl

  or_false : (b : Bool) → (b || false) ≡ b
  or_false true = refl
  or_false false = refl

  add_originators-listed :
      (config : Config) (stations : Stations) (macs : Macs) (lines : List String)
      (ret ret' : Found float)
      → add_originators float config stations macs lines ret ≡ ok ret'
      → is_listed m x ret'.batadv
        ≡ (any (λ line. is_direct macs m x (originator_of line)) lines || is_listed m x ret.batadv)
  unfolding add_originators
  add_originators-listed config stations macs [] ret ret' h =
      ap (λ (r : Found float). is_listed m x r.batadv) (sym (ok_inj h))
  add_originators-listed config stations macs (line ∷ lines) ret ret' h =
      let (middle, e, h1) =
        >>=-eq-ok (add_originator float config stations macs (originator_of line) ret) _ h in
      add_originators-listed config stations macs lines middle ret' h1
      ∙ ap (λ b. any (λ line. is_direct macs m x (originator_of line)) lines || b)
          (add_originator-listed config stations macs (originator_of line) ret middle e)
      ∙ or_swap (any (λ line. is_direct macs m x (originator_of line)) lines)
          (is_direct macs m x (originator_of line)) (is_listed m x ret.batadv)

  -- Where `_get` returns, a neighbour stands under the address of an interface in "batadv" exactly if some line of
  -- the originators has it as its own next hop, on an interface of the mesh that has this address.
  pub get_neighbours-listed :
      (get_interface_mac : String → Option String) (config : Config) (dumps : List (List String))
      (interfaces originators : List String) (ret : Found float)
      → get_neighbours float get_interface_mac config dumps interfaces originators ≡ ok ret
      → is_listed m x ret.batadv
        ≡ any
            (λ line.
              is_direct (mesh_interfaces get_interface_mac interfaces []) m x (originator_of line))
            originators
  unfolding get_neighbours with_key
  get_neighbours-listed get_interface_mac config dumps interfaces originators ret h =
      let (stations, e, h1) =
        >>=-eq-ok (elim config.mesh_wlan [ none ↦ ok [] | some l ↦ get_station_dump dumps [] ]) _
          h in
      add_originators-listed config stations (mesh_interfaces get_interface_mac interfaces [])
        originators (record { wifi = []; batadv = [] }) ret h1
      ∙ or_false (
          any
            (λ line.
              is_direct (mesh_interfaces get_interface_mac interfaces []) m x (originator_of line))
            originators)
