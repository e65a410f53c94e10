-- ===== src/Respondd/Struct/Cached.antt =====
-- `getStruct` of respondd/respondd-tmpl/lib/respondd.py: what the cache answers.
use ffmuc_salt_public.Prelude.{
  ℕ, ◌+◌, ◌≤◌, String, ◌≡◌, refl, ap, sym, ◌∙◌, true, false, Option, none, some, arith, leb,
  string_eq,
}
use ffmuc_salt_public.Prelude.Exec.{Ensures, bind-Ensures, pure-Ensures, lift}
use ffmuc_salt_public.Prelude.Result.{Result, ok, err, ok_inj}
use ffmuc_salt_public.Respondd.Struct.{
  Structure, Cache, plain, node_id, is_fresh, complete, collect, get_struct,
}

plain_inj : {a b : Structure} → ok (plain a) ≡ ok (plain b) → a ≡ b
plain_inj h = cc

module _ (caching : ℕ) (alias mac : Option String) where
  leb_le : (a b : ℕ) → a ≤ b → leb a b ≡ true
  leb_le a b h = ground arith

  -- The cache holds just what is returned.
  abbrev Kept : ℕ → Structure → Cache → Type 0
  Kept later s c = c ≡ record { cache = s; cache_time = later }

  complete-Kept :
      (x : Structure) (later : ℕ) (id : Result String) (c : Cache)
      → Ensures (Kept later) (complete (some caching) alias mac x later id) c
  unfolding complete
  complete-Kept x later (err e) c s h = cc
  complete-Kept x later (ok id) c s h =
      ap (λ y. record { cache = y; cache_time = later }) (ok_inj h)

  collect-Kept :
      (found : Result Structure) (later : ℕ) (c : Cache)
      → Ensures (Kept later) (collect (some caching) alias mac found later) c
  unfolding collect
  collect-Kept found later c =
      bind-Ensures (Kept later) (lift found) _ c λ x h. complete-Kept x later (node_id alias mac) c

  stale-Kept :
      (found : Result Structure) (now later : ℕ) (c : Cache)
      → is_fresh (some caching) now c ≡ false
      → Ensures
          (λ a c'. (s : Structure) × (a ≡ plain s) × Kept later s c')
          (get_struct (some caching) alias mac found now later none)
          c
  unfolding get_struct
  stale-Kept found now later c stale = rw stale (
      bind-Ensures (λ a c'. (s : Structure) × (a ≡ plain s) × Kept later s c')
        (collect (some caching) alias mac found later) _ c
        λ x h.
          pure-Ensures (λ a c'. (s : Structure) × (a ≡ plain s) × Kept later s c') (plain x) _
            (x, refl, collect-Kept found later c x h))

  fresh :
      (found : Result Structure) (s : Structure) (later now' later' : ℕ)
      → now' ≤ later + caching
      → get_struct
          (some caching)
          alias
          mac
          found
          now'
          later'
          none
          (record { cache = s; cache_time = later })
        ≡ (ok (plain s), record { cache = s; cache_time = later })
  unfolding get_struct is_fresh
  fresh found s later now' later' le = rw (leb_le now' (later + caching) le) refl

  -- Where an answer was collected at the time `later`, another question within the caching time is
  -- answered from the cache: the answer is the same structure, whatever could be collected now, and
  -- the cache stays as it is.
  pub get_struct-cached :
      (found found' : Result Structure) (now later now' later' : ℕ) (c : Cache) (s : Structure)
      → is_fresh (some caching) now c ≡ false
      → (get_struct (some caching) alias mac found now later none c).0 ≡ ok (plain s)
      → now' ≤ later + caching
      → get_struct
          (some caching)
          alias
          mac
          found'
          now'
          later'
          none
          (get_struct (some caching) alias mac found now later none c).1
        ≡ (ok (plain s), record { cache = s; cache_time = later })
  get_struct-cached found found' now later now' later' c s stale h le =
      let (x, e, k) = stale-Kept found now later c stale (plain s) h in
      let same = plain_inj (ap (λ a. ok a) e) in
      ap (get_struct (some caching) alias mac found' now' later' none)
        (k ∙ ap (λ y. record { cache = y; cache_time = later }) (sym same))
      ∙ fresh found' s later now' later' le
