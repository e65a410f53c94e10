-- ===== src/Pillar/Interfaces/Adding.antt =====
-- _pillar/netbox.py: what an address changes in the dict of the interfaces.
use ffmuc_salt_public.Prelude.{
  String, ◌≡◌, refl, ap, sym, ◌∙◌, Bool, true, false, Option, none, some, List, [], ◌∷◌, ◌++◌,
  if◌then◌else◌, ◌==◌, ==_of_eq, string_eq, arith, Bool-cases, inl, inr,
}
use ffmuc_salt_public.Prelude.Json.{
  Json, null, flag, num, decimal, str, arr, nil, obj, get, get-put, item, set_item, is_in, append,
  elements, elements-items,
}
use ffmuc_salt_public.Prelude.Result.{ok, err, key_error, ◌>>=◌, >>=-eq-ok, ok_inj}
use ffmuc_salt_public.Pillar.Interfaces.{append_address, add_address}

-- What stands at a key of an object
abbrev pub at : String → Option Json → Option Json
at k none = none
at k (some null) = none
at k (some (flag b)) = none
at k (some (num n)) = none
at k (some (decimal s)) = none
at k (some (str s)) = none
at k (some (arr vs)) = none
at k (some (obj d)) = get k d

abbrev pub list_of : Option Json → Option (List Json)
list_of none = none
list_of (some null) = none
list_of (some (flag b)) = none
list_of (some (num n)) = none
list_of (some (decimal s)) = none
list_of (some (str s)) = none
list_of (some (arr vs)) = some (elements vs)
list_of (some (obj d)) = none

abbrev listed : Json → Option (List Json)
listed interface = list_of (at "ipaddresses" (some interface))

pub item-at : (k : String) (v w : Json) → item k v ≡ ok w → at k (some v) ≡ some w
unfolding item
item-at k (obj d) w h = got (get k d) h
  where
    got :
        (o : Option Json) → elim o [ none ↦ err (key_error k) | some x ↦ ok x ] ≡ ok w → o ≡ some w
    got none h = cc
    got (some x) h = ap some (ok_inj h)
item-at k v w h = cc

pub set_item-at :
    (j k : String) (v w x : Json)
    → set_item k w v ≡ ok x
    → at j (some x) ≡ (if j == k then some w else at j (some v))
unfolding set_item
set_item-at j k (obj d) w x h = ap (λ y. at j (some y)) (sym (ok_inj h)) ∙ get-put j k w d
set_item-at j k v w x h = cc

pub set_item_self : (k : String) (v w x : Json) → set_item k w v ≡ ok x → at k (some x) ≡ some w
set_item_self k v w x h =
    set_item-at k k v w x h ∙ ap (λ b. if b then some w else at k (some v)) (==_of_eq {a = k} refl)

is_in-at : (k : String) (v w : Json) → at k (some v) ≡ some w → is_in k v ≡ ok true
unfolding is_in
is_in-at k (obj d) w h = rw h refl
is_in-at k v w h = cc

append-list :
    (a v w : Json) (before : List Json)
    → list_of (some v) ≡ some before
    → append a v ≡ ok w
    → list_of (some w) ≡ some (before ++ a ∷ [])
unfolding append
append-list a (arr vs) w before e h =
    ap (λ y. list_of (some y)) (sym (ok_inj h))
    ∙ ap some (elements-items (elements vs ++ a ∷ []) ∙ ap (λ l. l ++ a ∷ []) (some_inj e))
  where
    some_inj : {x y : List Json} → some x ≡ some y → x ≡ y
    some_inj p = cc
append-list a v w before e h = cc

pub present : (o : Option Json) (l : List Json) → list_of o ≡ some l → (v : Json) × (o ≡ some v)
present none l h = absurd (cc h)
present (some v) l h = (v, refl)

append_address-listed :
    (a interface changed : Json) (before : List Json)
    → listed interface ≡ some before
    → append_address a interface ≡ ok changed
    → listed changed ≡ some (before ++ a ∷ [])
unfolding append_address
append_address-listed a interface changed before e h =
    let (l, p) = present (at "ipaddresses" (some interface)) before e in
    let h0 =
      ap
        (λ r. r >>= λ has_list.
          (if has_list then ok interface else set_item "ipaddresses" (arr nil) interface)
          >>= λ ready. item "ipaddresses" ready >>= λ list.
              append a list >>= λ longer. set_item "ipaddresses" longer ready)
        (sym (is_in-at "ipaddresses" interface l p))
      ∙ h in
    let (list, q, h1) = >>=-eq-ok (item "ipaddresses" interface) _ h0 in
    let (longer, r, h2) = >>=-eq-ok (append a list) _ h1 in
    ap list_of (set_item_self "ipaddresses" interface longer changed h2)
    ∙ append-list a list longer before
        (ap list_of (sym (item-at "ipaddresses" interface list q)) ∙ e) r

-- The addresses of an interface, by its name in the dict of the interfaces
abbrev pub addresses : String → Option Json → Option (List Json)
addresses name interfaces = list_of (at "ipaddresses" (at name interfaces))

put_in :
    (b : Bool) (name key : String) (found interfaces known : Json)
    → (name == key) ≡ false
    → (if b then ok interfaces else set_item key found interfaces) ≡ ok known
    → at name (some known) ≡ at name (some interfaces)
put_in true name key found interfaces known n h = ap (λ v. at name (some v)) (sym (ok_inj h))
put_in false name key found interfaces known n h =
    set_item-at name key interfaces found known h
    ∙ ap (λ b. if b then some found else at name (some interfaces)) n

same_name : (name key : String) → (name == key) ≡ true → key ≡ name
same_name name key h = ground arith

-- Another interface keeps its addresses.
add_address-other :
    (key name : String) (found a interfaces changed : Json)
    → (name == key) ≡ false
    → add_address key found a interfaces ≡ ok changed
    → addresses name (some changed) ≡ addresses name (some interfaces)
unfolding add_address
add_address-other key name found a interfaces changed n h =
    let (is_known, p, h1) = >>=-eq-ok (is_in key interfaces) _ h in
    let (known, q, h2) =
      >>=-eq-ok (if is_known then ok interfaces else set_item key found interfaces) _ h1 in
    let (interface, r, h3) = >>=-eq-ok (item key known) _ h2 in
    let (longer, t, h4) = >>=-eq-ok (append_address a interface) _ h3 in
    ap (λ o. list_of (at "ipaddresses" o))
      (set_item-at name key known longer changed h4
        ∙ ap (λ b. if b then some longer else at name (some known)) n
        ∙ put_in is_known name key found interfaces known n q)

-- An interface that is there gets the address at the end of its own.
add_address_self :
    (key : String) (found a interfaces changed : Json) (before : List Json)
    → addresses key (some interfaces) ≡ some before
    → add_address key found a interfaces ≡ ok changed
    → addresses key (some changed) ≡ some (before ++ a ∷ [])
unfolding add_address
add_address_self key found a interfaces changed before e h =
    let (i, p) = interface_there (at key (some interfaces)) e in
    let h0 =
      ap
        (λ r. r >>= λ is_known.
          (if is_known then ok interfaces else set_item key found interfaces) >>= λ known.
          item key known >>= λ interface.
          append_address a interface >>= λ changed'. set_item key changed' known)
        (sym (is_in-at key interfaces i p))
      ∙ h in
    let (interface, r, h3) = >>=-eq-ok (item key interfaces) _ h0 in
    let (longer, t, h4) = >>=-eq-ok (append_address a interface) _ h3 in
    ap (λ o. list_of (at "ipaddresses" o)) (set_item_self key interfaces longer changed h4)
    ∙ append_address-listed a interface longer before
        (ap (λ o. list_of (at "ipaddresses" o)) (sym (item-at key interfaces interface r)) ∙ e) t
  where
    interface_there :
        (o : Option Json) → list_of (at "ipaddresses" o) ≡ some before → (v : Json) × (o ≡ some v)
    interface_there none f = absurd (cc f)
    interface_there (some v) f = (v, refl)

pub add_address-addresses :
    (key name : String) (found a interfaces changed : Json) (before : List Json)
    → addresses name (some interfaces) ≡ some before
    → add_address key found a interfaces ≡ ok changed
    → addresses name (some changed) ≡ some (if name == key then before ++ a ∷ [] else before)
add_address-addresses key name found a interfaces changed before e h =
    elim (Bool-cases (name == key)) [
      | inl b ↦ rw b (
          add_address_self name found a interfaces changed before e
            (ap (λ k. add_address k found a interfaces) (sym (same_name name key b)) ∙ h))
      | inr b ↦ rw b (add_address-other key name found a interfaces changed b h ∙ e)
    ]
