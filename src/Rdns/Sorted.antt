-- ===== src/Rdns/Sorted.antt =====
-- The sorted candidates of `ptr_records` of _modules/ffmuc_rdns.py.
use ffmuc_salt_public.Prelude.{
  ◌≤◌, ◌≡◌, true, false, List, [], ◌∷◌, All, arith, Bool-cases, inl, inr, option_eq, string_eq,
  nat_eq, All-imp,
}
use ffmuc_salt_public.Prelude.Sort.{insert_by, sorted_by, All-insert_by}
use ffmuc_salt_public.Rdns.Longest.{Among}
use ffmuc_salt_public.Rdns.{address_eq, Keyed, key_le}

-- The priorities do not fall.
abbrev pub Rising : List Keyed → Type 0
Rising [] = Unit
Rising (c ∷ cs) = All (λ d. c.priority ≤ d.priority) cs × Rising cs

key_le-yes : (x y : Keyed) → key_le x y ≡ true → x.priority ≤ y.priority
unfolding key_le
key_le-yes x y h = ground arith

key_le-no : (x y : Keyed) → key_le x y ≡ false → y.priority ≤ x.priority
unfolding key_le
key_le-no x y h = ground arith

insert_by-Rising : (x : Keyed) (cs : List Keyed) → Rising cs → Rising (insert_by key_le x cs)
unfolding insert_by
insert_by-Rising x [] r = (tt, tt)
insert_by-Rising x (y ∷ ys) r = elim (Bool-cases (key_le x y)) [
  | inl first ↦
      let le = key_le-yes x y first in rw first ((le, All-imp _ _ ys (λ d h. omega arith) r.0), r)
  | inr later ↦ rw later (
    All-insert_by (λ d. y.priority ≤ d.priority) key_le x ys (key_le-no x y later) r.0,
    insert_by-Rising x ys r.1,
  )
]

pub sorted_by-Rising : (cs : List Keyed) → Rising (sorted_by key_le cs)
unfolding sorted_by
sorted_by-Rising [] = tt
sorted_by-Rising (c ∷ cs) = insert_by-Rising c (sorted_by key_le cs) (sorted_by-Rising cs)

-- The two items in front change places.
Among-swap : (x y c : Keyed) (cs : List Keyed) → Among c (x ∷ y ∷ cs) → Among c (y ∷ x ∷ cs)
Among-swap x y c cs (inl e) = inr (inl e)
Among-swap x y c cs (inr (inl e)) = inl e
Among-swap x y c cs (inr (inr m)) = inr (inr m)

Among-tail :
    (y c : Keyed) (cs ds : List Keyed)
    → (Among c cs → Among c ds)
    → Among c (y ∷ cs)
    → Among c (y ∷ ds)
Among-tail y c cs ds f (inl e) = inl e
Among-tail y c cs ds f (inr m) = inr (f m)

Among-insert_by :
    (x c : Keyed) (cs : List Keyed) → Among c (insert_by key_le x cs) → Among c (x ∷ cs)
unfolding insert_by
Among-insert_by x c [] m = m
Among-insert_by x c (y ∷ ys) m = elim (Bool-cases (key_le x y)) [
  | inl first ↦ rw first at m
  | inr later ↦
      Among-swap y x c ys
        (Among-tail y c (insert_by key_le x ys) (x ∷ ys) (Among-insert_by x c ys) (rw later at m))
]

pub Among-sorted_by : (c : Keyed) (cs : List Keyed) → Among c (sorted_by key_le cs) → Among c cs
unfolding sorted_by
Among-sorted_by c [] m = m
Among-sorted_by c (x ∷ cs) m =
    Among-tail x c (sorted_by key_le cs) cs (Among-sorted_by c cs)
      (Among-insert_by x c (sorted_by key_le cs) m)
