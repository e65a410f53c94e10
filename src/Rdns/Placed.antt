-- ===== src/Rdns/Placed.antt =====
-- `ptr_records` of _modules/ffmuc_rdns.py: each record stands in the zone of its address.
use mathlib.Core.Path.{subst}
use ffmuc_salt_public.Prelude.{
  String, ◌<>◌, ◌≡◌, refl, ◌∙◌, sym, false, Option, none, some, List, [], ◌∷◌, All, ◌==◌, string_eq,
  Bool-cases, inl, inr,
}
use ffmuc_salt_public.Prelude.Dict.{Dict}
use ffmuc_salt_public.Prelude.Sort.{sorted_by, All-sorted_by}
use ffmuc_salt_public.Prelude.Result.{ok, >>=-eq-ok, ok_inj}
use ffmuc_salt_public.Rdns.{
  Address, address_eq, Network, Candidate, Selected, Ip, Ptr, zone_for, key_le, ptr_le,
  parse_networks, keyed, select, overrides, add_ptr, ptrs, ptr_records,
}

module _ (ip : Ip) (networks : List (Network × String)) where
  -- The record is the reverse name of its address, in the zone of the address, which has a name.
  abbrev pub Placed : Ptr → Type 0
  Placed r =
      (zone_for r.ip networks ≡ some r.zone)
      × ((r.zone == "") ≡ false)
      × (r.name ≡ ip.reverse_pointer r.ip <> ".")
      × (r.address ≡ ip.show r.ip)

  add_ptr-Placed :
      (a : Address) (target : String) (zone : Option String) (rest : List Ptr)
      → zone_for a networks ≡ zone
      → All Placed rest
      → All Placed (add_ptr ip a target zone rest)
  add_ptr-Placed a target none rest e h = h
  add_ptr-Placed a target (some zone) rest e h = elim (Bool-cases (zone == "")) [
    | inl empty ↦ rw empty h
    | inr full ↦ rw full ((e, full, refl, refl), h)
  ]

  ptrs-Placed : (selected : Selected) → All Placed (ptrs ip networks selected)
  unfolding ptrs
  ptrs-Placed [] = tt
  ptrs-Placed ((a, target) ∷ rest) =
      add_ptr-Placed a target (zone_for a networks) (ptrs ip networks rest) refl (ptrs-Placed rest)

-- Every record that `ptr_records` returns is the reverse name of its address, and stands in the zone
-- that the configured prefixes give the address; no record is made for an address without a zone.
pub ptr_records-Placed :
    (ip : Ip) (candidates : List Candidate) (zones : Dict String String)
    (custom : Dict String (List String)) (networks : List (Network × String)) (records : List Ptr)
    → parse_networks ip zones ≡ ok networks
    → ptr_records ip candidates zones custom ≡ ok records
    → All (Placed ip networks) records
unfolding ptr_records
ptr_records-Placed ip candidates zones custom networks records n h =
    let (ns, e, h1) = >>=-eq-ok (parse_networks ip zones) _ h in
    let (found, _, h2) = >>=-eq-ok (keyed candidates) _ h1 in
    let (selected, _, h3) = >>=-eq-ok (select ip (sorted_by key_le found) []) _ h2 in
    let (final, _, h4) = >>=-eq-ok (overrides ip custom selected) _ h3 in
    subst (All (Placed ip networks)) (ok_inj h4) (
      subst (λ x. All (Placed ip networks) (sorted_by ptr_le (ptrs ip x final)))
        (ok_inj (sym n ∙ e))
        (All-sorted_by (Placed ip networks) ptr_le (ptrs ip networks final)
          (ptrs-Placed ip networks final)))
