-- ===== src/Prelude/Json.antt =====
-- JSON values as Python holds them, and what the code does with them.
use ffmuc_salt_public.Prelude.{
  ℕ, String, Bool, true, false, not, ◌||◌, Option, none, some, if◌then◌else◌, ◌==◌, string_eq,
  nat_eq, List, [], ◌∷◌, ◌++◌, ◌≡◌, refl, ap, arith,
}
use ffmuc_salt_public.Prelude.Dict.{Dict}
use ffmuc_salt_public.Prelude.Scan.{occurs}
use ffmuc_salt_public.Prelude.Result.{
  Result, ok, err, key_error, type_error, index_error, attribute_error,
}

-- `decimal` is a number that is not an integer, as it is printed.
mutual
  pub data Json : Type 0 where
    null : Json
    flag : Bool → Json
    num : ℕ → Json
    decimal : String → Json
    str : String → Json
    arr : Items → Json
    obj : Fields → Json

  pub data Items : Type 0 where
    nil : Items
    cons : Json → Items → Items

  pub data Fields : Type 0 where
    end : Fields
    field : String → Json → Fields → Fields

-- `d.get(k)`, and `d[k] = v`
unfoldable pub get : String → Fields → Option Json
get k end = none
get k (field j v d) = if k == j then some v else get k d

unfoldable pub put : String → Json → Fields → Fields
put k v end = field k v end
put k v (field j w d) = if k == j then field j v d else field j w (put k v d)

pub get-put :
    (j k : String) (v : Json) (d : Fields)
    → get j (put k v d) ≡ (if j == k then some v else get j d)
unfolding get put
get-put j k v end = refl
get-put j k v (field i w d) = ground (arith, get-put j k v d)

-- An object, and a list, of what is given
unfoldable pub object : Dict String Json → Fields
object [] = end
object ((k, v) ∷ d) = field k v (object d)

unfoldable pub items : List Json → Items
items [] = nil
items (v ∷ vs) = cons v (items vs)

-- `d.update(…)`
unfoldable pub update : Fields → Fields → Fields
unfolding put
update d end = d
update d (field k v more) = update (put k v d) more

-- `v[k]` for a text `k`
unfoldable pub item : String → Json → Result Json
unfolding get
item k null = err type_error
item k (flag b) = err type_error
item k (num n) = err type_error
item k (decimal s) = err type_error
item k (str s) = err type_error
item k (arr vs) = err type_error
item k (obj d) = elim (get k d) [ none ↦ err (key_error k) | some v ↦ ok v ]

-- `v[k] = w`
unfoldable pub set_item : String → Json → Json → Result Json
unfolding put
set_item k w null = err type_error
set_item k w (flag b) = err type_error
set_item k w (num n) = err type_error
set_item k w (decimal s) = err type_error
set_item k w (str s) = err type_error
set_item k w (arr vs) = err type_error
set_item k w (obj d) = ok (obj (put k w d))

abbrev is_text : String → Json → Bool
is_text k null = false
is_text k (flag b) = false
is_text k (num n) = false
is_text k (decimal s) = false
is_text k (str s) = k == s
is_text k (arr vs) = false
is_text k (obj d) = false

any_text : String → Items → Bool
any_text k nil = false
any_text k (cons v vs) = is_text k v || any_text k vs

abbrev pub is_there : Option Json → Bool
is_there none = false
is_there (some v) = true

-- `k in v` for a text `k`
unfoldable pub is_in : String → Json → Result Bool
unfolding get any_text occurs
is_in k null = err type_error
is_in k (flag b) = err type_error
is_in k (num n) = err type_error
is_in k (decimal s) = err type_error
is_in k (str s) = ok (occurs k s)
is_in k (arr vs) = ok (any_text k vs)
is_in k (obj d) = ok (is_there (get k d))

unfoldable pub elements : Items → List Json
elements nil = []
elements (cons v vs) = v ∷ elements vs

keys_of : Fields → List Json
keys_of end = []
keys_of (field k v d) = str k ∷ keys_of d

characters : String → List Json
characters String.[] = []
characters (String.◌∷◌ c s) = str (String.◌∷◌ c "") ∷ characters s

-- `for x in v`, and what `len(v)` counts
unfoldable pub iterate : Json → Result (List Json)
unfolding elements keys_of characters
iterate null = err type_error
iterate (flag b) = err type_error
iterate (num n) = err type_error
iterate (decimal s) = err type_error
iterate (str s) = ok (characters s)
iterate (arr vs) = ok (elements vs)
iterate (obj d) = ok (keys_of d)

abbrev first_of : List Json → Result Json
first_of [] = err index_error
first_of (v ∷ vs) = ok v

-- `v[0]`
unfoldable pub first : Json → Result Json
unfolding iterate
first null = err type_error
first (flag b) = err type_error
first (num n) = err type_error
first (decimal s) = err type_error
first (str s) = first_of (characters s)
first (arr vs) = first_of (elements vs)
first (obj d) = err (key_error "0")

-- `bool(v)`, but for numbers with a point, which print as "0.0" where they are false
unfoldable pub truthy : Json → Bool
truthy null = false
truthy (flag b) = b
truthy (num n) = not (n == 0)
truthy (decimal s) = not (s == "0.0")
truthy (str s) = not (s == "")
truthy (arr nil) = false
truthy (arr (cons v vs)) = true
truthy (obj end) = false
truthy (obj (field k v d)) = true

-- `v.append(w)`
unfoldable pub append : Json → Json → Result Json
unfolding elements items
append w null = err attribute_error
append w (flag b) = err attribute_error
append w (num n) = err attribute_error
append w (decimal s) = err attribute_error
append w (str s) = err attribute_error
append w (arr vs) = ok (arr (items (elements vs ++ w ∷ [])))
append w (obj d) = err attribute_error

pub elements-items : (vs : List Json) → elements (items vs) ≡ vs
unfolding elements items
elements-items [] = refl
elements-items (v ∷ vs) = ap (λ x. v ∷ x) (elements-items vs)
