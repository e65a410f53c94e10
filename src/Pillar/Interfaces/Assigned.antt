-- ===== src/Pillar/Interfaces/Assigned.antt =====
-- _pillar/netbox.py: which addresses the loop of `ext_pillar` gives to an interface.
use ffmuc_salt_public.Prelude.{
  String, ◌≡◌, refl, ap, sym, ◌∙◌, Bool, true, false, Option, some, is_some, List, [], ◌∷◌, ◌++◌,
  if◌then◌else◌, ◌==◌, string_eq, Bool-cases, inl, inr, keep_if, keep_if_yes, keep_if_no,
}
use mathlib.Core.List.{append-nil, append_assoc}
use ffmuc_salt_public.Prelude.Json.{Json, obj, get, get-put, item, set_item, is_in, is_there}
use ffmuc_salt_public.Prelude.Result.{Result, ok, err, ◌>>=◌, >>=-eq-ok, ok_inj}
use ffmuc_salt_public.Pillar.Api.{
  Settings, Request, Response, item_url, required, name_of, log_failure,
}
use ffmuc_salt_public.Pillar.Search
use ffmuc_salt_public.Pillar.Interfaces.{
  Flow, returned, go, if_go, in_interfaces, add_address, app_of, assigned, with_response,
  add_addresses,
}
use ffmuc_salt_public.Pillar.Interfaces.Adding.{
  at, addresses, item-at, set_item_self, add_address-addresses,
}

set_item-is_in :
    (j k : String) (v w x : Json) → (j == k) ≡ false → set_item k w v ≡ ok x → is_in j x ≡ is_in j v
unfolding set_item is_in
set_item-is_in j k (obj d) w x n h =
    ap (is_in j) (sym (ok_inj h))
    ∙ ap (λ o. ok (is_there o)) (get-put j k w d ∙ ap (λ b. if b then some w else get j d) n)
set_item-is_in j k v w x n h = cc

-- The addresses of an interface of the device
abbrev pub addresses_of : String → Json → Option (List Json)
addresses_of name device = addresses name (at "interfaces" (some device))

abbrev pub is_named : String → Result String → Bool
is_named name (ok key) = name == key
is_named name (err e) = false

same_app :
    (device changed : Json)
    → is_in "vcpus" changed ≡ is_in "vcpus" device
    → app_of changed ≡ app_of device
unfolding app_of
same_app device changed e =
    ap (λ r. r >>= λ is_vm. ok (if is_vm then "virtualization" else "dcim")) e

vcpus_differs : (◌==◌ {A = String} "vcpus" "interfaces") ≡ false
unfolding string_eq
vcpus_differs = refl

-- A change of the interfaces leaves the rest of the device.
in_interfaces-ok :
    (f : Json → Result Json) (device changed : Json)
    → in_interfaces f device ≡ ok changed
    → (before : Json) × (after : Json) × (at "interfaces" (some device) ≡ some before)
      × (f before ≡ ok after)
      × (at "interfaces" (some changed) ≡ some after)
      × (app_of changed ≡ app_of device)
unfolding in_interfaces
in_interfaces-ok f device changed h =
    let (before, p, h1) = >>=-eq-ok (item "interfaces" device) _ h in
    let (after, q, h2) = >>=-eq-ok (f before) _ h1 in
    (
      before,
      after,
      item-at "interfaces" device before p,
      q,
      set_item_self "interfaces" device after changed h2,
      same_app device changed
          (set_item-is_in "vcpus" "interfaces" device after changed vcpus_differs h2),
    )

bound {ℓ κ} :
    {A : Type ℓ} {B : Type κ} (m : Result A) (f : A → Result B) (a : A) → m ≡ ok a → (m >>= f) ≡ f a
bound m f a h = ap (λ r. r >>= f) h

goes_on :
    (b : Bool) (m : Result String) (n : Result Flow) (device device' : Json) (last : Option Json)
    → (if b then (m >>= λ text. ok (returned device)) else n) ≡ ok (go device' last)
    → n ≡ ok (go device' last)
goes_on true (ok text) n device device' last h = cc
goes_on true (err e) n device device' last h = cc
goes_on false m n device device' last h = h

go_inj : {v w : Json} {l m : Option Json} → ok (go v l) ≡ ok (go w m) → v ≡ w
go_inj h = cc

module _ (http : Request → Response) (repr : Json → String) (s : Settings) where
  -- The name of the interface that an address is assigned to, which Netbox is asked for
  abbrev pub interface_name : String → Json → Result String
  interface_name app address = item "assigned_object_id" address >>= λ id.
      required "dict" (Search.get http repr s (item_url repr s app "interfaces" id)).body
      >>= λ found. item "name" found >>= name_of

  -- One round of the loop that goes on
  step :
      (a device device' : Json) (app : String) (response : Response) (last' : Option Json)
      → app_of device ≡ ok app
      → assigned http repr s device a ≡ ok response
      → with_response http repr s device a response ≡ ok (go device' last')
      → (key : String) × (interface_name app a ≡ ok key)
        × (app_of device' ≡ ok app)
        × ((name : String) (before : List Json)
            → addresses_of name device ≡ some before
            → addresses_of name device' ≡ some (if name == key then before ++ a ∷ [] else before))
  unfolding assigned with_response
  step a device device' app response last' app_eq asked h =
      let (id, p, h1) = >>=-eq-ok (item "assigned_object_id" a) _ asked in
      let (app', p1, h2) = >>=-eq-ok (app_of device) _ h1 in
      let same = ok_inj (sym app_eq ∙ p1) in
      let url = item_url repr s app "interfaces" id in
      let response_eq =
        ap (λ x. Search.get http repr s (item_url repr s x "interfaces" id)) same ∙ ok_inj h2 in
      let h3 = goes_on (is_some response.error) (log_failure response) _ device device' last' h in
      let (found, q, h4) = >>=-eq-ok (required "dict" response.body) _ h3 in
      let (name, q1, h5) = >>=-eq-ok (item "name" found) _ h4 in
      let (key, q2, h6) = >>=-eq-ok (name_of name) _ h5 in
      let (changed, q3, h7) = >>=-eq-ok (in_interfaces (add_address key found a) device) _ h6 in
      let (before, after, b1, b2, b3, b4) =
        in_interfaces-ok (add_address key found a) device device'
          (q3 ∙ ap (λ x. ok x) (go_inj h7)) in
      (
        key,
        bound (item "assigned_object_id" a) _ id p
            ∙ bound (required "dict" (Search.get http repr s url).body) _ found
                (ap (λ r. required "dict" r.body) response_eq ∙ q)
            ∙ bound (item "name" found) name_of name q1
            ∙ q2,
        b4 ∙ app_eq,
        λ n l e.
            ap (addresses n) b3
            ∙ add_address-addresses key n found a before after l (ap (addresses n) (sym b1) ∙ e) b2,
      )

  -- The addresses of a list that are assigned to an interface of the name
  abbrev pub assigned_to : String → String → List Json → List Json
  assigned_to app name list = keep_if (λ a. is_named name (interface_name app a)) list

  one_more :
      (app name key : String) (a : Json) (before rest : List Json)
      → interface_name app a ≡ ok key
      → (if name == key then before ++ a ∷ [] else before) ++ assigned_to app name rest
        ≡ before ++ assigned_to app name (a ∷ rest)
  one_more app name key a before rest e =
      let p = λ (x : Json). is_named name (interface_name app x) in
      elim (Bool-cases (name == key)) [
        | inl b ↦ rw b (
            append_assoc before (a ∷ []) (assigned_to app name rest)
            ∙ ap (λ l. before ++ l) (sym (keep_if_yes p a rest (ap (is_named name) e ∙ b))))
        | inr b ↦
            rw b (ap (λ l. before ++ l) (sym (keep_if_no p a rest (ap (is_named name) e ∙ b))))
      ]

  -- What is claimed of the loop
  abbrev Assigns : List Json → Type 0
  Assigns list =
      (device device' : Json) (last last' : Option Json) (app name : String) (before : List Json)
      → app_of device ≡ ok app
      → add_addresses http repr s list device last ≡ ok (go device' last')
      → addresses_of name device ≡ some before
      → addresses_of name device' ≡ some (before ++ assigned_to app name list)

  round :
      (a : Json) (rest : List Json) (flow : Flow) (response : Response) (device device' : Json)
      (last' : Option Json) (app name : String) (before : List Json)
      → Assigns rest
      → app_of device ≡ ok app
      → addresses_of name device ≡ some before
      → assigned http repr s device a ≡ ok response
      → with_response http repr s device a response ≡ ok flow
      → if_go flow (add_addresses http repr s rest) ≡ ok (go device' last')
      → addresses_of name device' ≡ some (before ++ assigned_to app name (a ∷ rest))
  round a rest (returned d) response device device' last' app name before ih app_eq e p q h = cc
  round a rest (go d l) response device device' last' app name before ih app_eq e p q h =
      let (key, named, app_eq', gives) = step a device d app response l app_eq p q in
      ih d device' l last' app name (if name == key then before ++ a ∷ [] else before) app_eq' h
        (gives name before e)
      ∙ ap some (one_more app name key a before rest named)

  -- Where the loop over the addresses comes to its end, each interface that was there has got, behind
  -- its own addresses and in their order, just those that are assigned to an interface of its name.
  pub add_addresses-assigned :
      (list : List Json) (device device' : Json) (last last' : Option Json) (app name : String)
      (before : List Json)
      → app_of device ≡ ok app
      → add_addresses http repr s list device last ≡ ok (go device' last')
      → addresses_of name device ≡ some before
      → addresses_of name device' ≡ some (before ++ assigned_to app name list)
  unfolding add_addresses
  add_addresses-assigned [] device device' last last' app name before app_eq h e =
      ap (addresses_of name) (sym (go_inj h)) ∙ e ∙ ap some (sym (append-nil before))
  add_addresses-assigned (a ∷ rest) device device' last last' app name before app_eq h e =
      let (response, p, h1) = >>=-eq-ok (assigned http repr s device a) _ h in
      let (flow, q, h2) = >>=-eq-ok (with_response http repr s device a response) _ h1 in
      round a rest flow response device device' last' app name before (add_addresses-assigned rest)
        app_eq e p q h2
