-- ===== src/Respondd/Merge.antt =====
-- `merge` of respondd/respondd-tmpl/lib/helper.py.
pub mod Overlay
use ffmuc_salt_public.Prelude.{Option, none, some}
use ffmuc_salt_public.Prelude.Result.{Result, ok, err, unbound_error, ◌>>=◌}
use ffmuc_salt_public.Prelude.Json.{
  Json, null, flag, num, decimal, str, arr, obj, Fields, end, field, get, update,
}

abbrev pub or_null : Option Json → Json
or_null none = null
or_null (some v) = v

-- `merge`. No module of the name `itertools` is imported, so two lists raise a NameError.
unfoldable mutual
  unfolding get update

  pub merge : Json → Json → Result Json
  merge (obj a) (obj b) = merge_fields a b >>= λ merged. ok (obj (update a merged))
  merge (arr a) (arr b) = err (unbound_error "name 'itertools' is not defined")
  merge a null = ok a
  merge a b = ok b

  -- `{k: merge(a.get(k, None), b[k]) for k in b}`
  pub merge_fields : Fields → Fields → Result Fields
  merge_fields a end = ok end
  merge_fields a (field k v b) =
      merge (or_null (get k a)) v >>= λ w. merge_fields a b >>= λ merged. ok (field k w merged)
