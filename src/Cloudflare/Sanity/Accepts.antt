-- ===== src/Cloudflare/Sanity/Accepts.antt =====
-- `Zone.sanity_check` of _states/cloudflare.py: exactly which records it accepts.
use mathlib.Core.Path.{fun_ext}
use text.Mathlib.TextEquality.{eq_iff}
use ffmuc_salt_public.Prelude.{
  String, ◌≡◌, refl, ap, sym, ◌∙◌, inl, inr, Bool-cases, ◌≢◌, Bool, true, false, not, ◌&&◌, ◌||◌,
  List, [], ◌∷◌, contains, ltb, arith, ◌==◌, string_eq, nat_eq, if◌then◌else◌,
}
use ffmuc_salt_public.Prelude.Result.{Result, ok, err, is_ok, ◌>>=◌}
use ffmuc_salt_public.Cloudflare.Record.{Record}
use ffmuc_salt_public.Cloudflare.Data.{synthesize}
use ffmuc_salt_public.Cloudflare.Data.Show.{show_record_hides_ttl}
use ffmuc_salt_public.Cloudflare.Sanity.{
  Names, no_names, is_address, is_cname, in_zone, check_shape, check_data, check_address,
  check_cname, check_record, check_records,
}

abbrev pub all : (Record → Bool) → List Record → Bool
all p [] = true
all p (r ∷ rs) = p r && all p rs

-- A record by itself: in the zone, a TTL of 1 or at least 120 without the proxy, and data that can
-- be synthesized.
abbrev pub fits : String → Record → Bool
fits zone r =
    in_zone zone r
    && ((r.ttl == 1 || (not (ltb r.ttl 120) && not r.proxied)) && is_ok (synthesize r))

-- Two records of one name: a CNAME stands beside no other CNAME and no address.
abbrev pub compatible : Record → Record → Bool
compatible r s =
    not (r.name == s.name)
    || not ((is_cname r && (is_cname s || is_address s)) || (is_address r && is_cname s))

abbrev pub is_sane : String → List Record → Bool
is_sane zone [] = true
is_sane zone (r ∷ rs) = fits zone r && (all (compatible r) rs && is_sane zone rs)

-- What the names seen so far allow.
abbrev free : Names → Record → Bool
free n r = not (
    (is_cname r && (contains n.cnames r.name || contains n.a_names r.name))
    || (is_address r && contains n.cnames r.name))

abbrev add_names : Record → Names → Names
add_names r n = record {
  a_names = if is_address r then r.name ∷ n.a_names else n.a_names;
  cnames = if is_cname r then r.name ∷ n.cnames else n.cnames;
}

check_data-eq : (r : Record) → is_ok (check_data r) ≡ is_ok (synthesize r)
unfolding check_data
check_data-eq r = ground (arith, show_record_hides_ttl r r.ttl)

a-ne-cname : ◌≢◌ {A = String} "A" "CNAME"
a-ne-cname = ground (arith, eq_iff "A" "CNAME")

aaaa-ne-cname : ◌≢◌ {A = String} "AAAA" "CNAME"
aaaa-ne-cname = ground (arith, eq_iff "AAAA" "CNAME")

address-ne-cname : (r : Record) → (is_address r && is_cname r) ≡ false
address-ne-cname r = ground (arith, a-ne-cname, aaaa-ne-cname)

-- One round accepts a record exactly if it fits by itself and beside the names before it.
module _ (zone : String) (r : Record) (n : Names) where
  check_shape-eq :
      is_ok (check_shape zone r)
      ≡ (in_zone zone r && (r.ttl == 1 || (not (ltb r.ttl 120) && not r.proxied)))
  unfolding check_shape
  check_shape-eq = ground arith

  check_names-eq :
      free n r ≡ true → (do n' ← check_address r n; check_cname r n') ≡ ok (add_names r n)
  unfolding check_address check_cname
  check_names-eq h = ground (arith, address-ne-cname r)

  check_names_refused :
      free n r ≡ false → is_ok (do n' ← check_address r n; check_cname r n') ≡ false
  unfolding check_address check_cname
  check_names_refused h = ground (arith, address-ne-cname r)

  check_record_accepts :
      (fits zone r && free n r) ≡ true → check_record zone r n ≡ ok (add_names r n)
  unfolding check_record
  check_record_accepts h = ground (arith, check_shape-eq, check_data-eq r, check_names-eq)

  check_record_refuses : (fits zone r && free n r) ≡ false → is_ok (check_record zone r n) ≡ false
  unfolding check_record
  check_record_refuses h = ground (arith, check_shape-eq, check_data-eq r, check_names_refused)

all-and :
    (p q : Record → Bool) (rs : List Record) → all (λ s. p s && q s) rs ≡ (all p rs && all q rs)
all-and p q [] = refl
all-and p q (r ∷ rs) = ground (arith, all-and p q rs)

free-add_names : (r s : Record) (n : Names) → free (add_names r n) s ≡ (free n s && compatible r s)
free-add_names r s n = ground arith

all-free :
    (r : Record) (n : Names) (rs : List Record)
    → all (free (add_names r n)) rs ≡ (all (free n) rs && all (compatible r) rs)
all-free r n rs =
    ap (λ (p : Record → Bool). all p rs) (fun_ext (λ s. free-add_names r s n))
    ∙ all-and (free n) (compatible r) rs

regroup :
    (f fr af ac s : Bool) → (f && fr) ≡ true → ((af && ac) && s) ≡ ((fr && af) && (f && (ac && s)))
regroup f fr af ac s h = ground arith

regroup_false : (f fr af ac s : Bool) → (f && fr) ≡ false → ((fr && af) && (f && (ac && s))) ≡ false
regroup_false f fr af ac s h = ground arith

is_ok-bind_false {ℓ} :
    {A B : Type ℓ} (m : Result A) (k : A → Result B) → is_ok m ≡ false → is_ok (m >>= k) ≡ false
is_ok-bind_false (ok a) k h = cc
is_ok-bind_false (err e) k h = refl

check_records-eq :
    (zone : String) (rs : List Record) (n : Names)
    → is_ok (check_records zone rs n) ≡ (all (free n) rs && is_sane zone rs)
unfolding check_records
check_records-eq zone [] n = refl
check_records-eq zone (r ∷ rs) n = elim (Bool-cases (fits zone r && free n r)) [
  | inl h ↦
      ap (λ m. is_ok (m >>= check_records zone rs)) (check_record_accepts zone r n h)
      ∙ check_records-eq zone rs (add_names r n)
      ∙ ap (λ b. b && is_sane zone rs) (all-free r n rs)
      ∙ regroup (fits zone r) (free n r) (all (free n) rs) (all (compatible r) rs) (is_sane zone rs)
          h
  | inr h ↦
      is_ok-bind_false (check_record zone r n) (check_records zone rs)
        (check_record_refuses zone r n h)
      ∙ sym (
          regroup_false (fits zone r) (free n r) (all (free n) rs) (all (compatible r) rs)
            (is_sane zone rs) h)
]

all-free_no_names : (rs : List Record) → all (free no_names) rs ≡ true
all-free_no_names [] = refl
all-free_no_names (r ∷ rs) = ground (arith, all-free_no_names rs)

-- The loop of the sanity check ends without an exception exactly if each record fits the zone and
-- no name has two CNAMEs, or a CNAME and an address, wherever in the list they stand.
pub check_records-is_sane :
    (zone : String) (rs : List Record) → is_ok (check_records zone rs no_names) ≡ is_sane zone rs
check_records-is_sane zone rs =
    check_records-eq zone rs no_names ∙ ap (λ b. b && is_sane zone rs) (all-free_no_names rs)
