-- ===== src/Respondd/Interfaces/Types.antt =====
-- `getBatmanInterfaces` of respondd/respondd-tmpl/lib/nodeinfo.py lists each interface under its type.
use ffmuc_salt_public.Prelude.{
  String, ◌≡◌, refl, ap, sym, ◌∙◌, Bool, true, false, Option, none, some, List, [], ◌∷◌, ◌++◌,
  if◌then◌else◌, ◌==◌, string_eq, arith, map, keep_if,
}
use mathlib.Core.List.{append-nil, append_assoc}
use ffmuc_salt_public.Prelude.Dict.{lookup, lookup-insert}
use ffmuc_salt_public.Respondd.Interfaces.{
  Config, Meshes, interface_type, interface_of, or_empty, append_mac, add_interfaces, with_l2tp,
  join_l2tp, get_batman_interfaces,
}

-- A list that is there unless it is empty
abbrev pub unless_empty : List (Option String) → Option (List (Option String))
unless_empty [] = none
unless_empty (mac ∷ macs) = some (mac ∷ macs)

or_empty-unless_empty : (macs : List (Option String)) → or_empty (unless_empty macs) ≡ macs
or_empty-unless_empty [] = refl
or_empty-unless_empty (mac ∷ macs) = refl

unless_empty-append :
    (before : List (Option String)) (mac : Option String) (macs : List (Option String))
    → unless_empty (before ++ mac ∷ macs) ≡ some (before ++ mac ∷ macs)
unless_empty-append [] mac macs = refl
unless_empty-append (m ∷ before) mac macs = refl

-- A write that appends at one key
appended :
    (here : Bool) (l m : List (Option String)) (mac : Option String) (macs : List (Option String))
    → (here ≡ true → m ≡ l)
    → (if here then some (m ++ mac ∷ macs) else unless_empty l)
      ≡ unless_empty (l ++ (if here then mac ∷ macs else []))
appended true l m mac macs e =
    ap (λ x. some (x ++ mac ∷ macs)) (e refl) ∙ sym (unless_empty-append l mac macs)
appended false l m mac macs e = ap unless_empty (sym (append-nil l))

key_eq : (t k : String) → (t == k) ≡ true → k ≡ t
key_eq t k h = ground arith

module _ (config : Config) (get_interface_mac : String → Option String) where
  -- The addresses of the interfaces of a type, in the order of the lines
  abbrev pub macs_of : String → List String → List (Option String)
  macs_of t lines =
      map get_interface_mac (keep_if (λ i. t == interface_type config i) (map interface_of lines))

  -- Under "tunnel" also stand the L2TP interfaces.
  abbrev pub expected : String → List String → List (Option String)
  expected t lines = macs_of t lines ++ (if t == "tunnel" then macs_of "l2tp" lines else [])

  macs_of-cons :
      (t line : String) (lines : List String)
      → (if t == interface_type config (interface_of line)
            then get_interface_mac (interface_of line) ∷ []
            else [])
          ++ macs_of t lines
        ≡ macs_of t (line ∷ lines)
  macs_of-cons t line lines = ground arith

  -- What is there under each type
  abbrev Listed : (String → List (Option String)) → Meshes → Type 0
  Listed f ret = (t : String) → lookup t ret ≡ unless_empty (f t)

  append_mac-Listed :
      (k : String) (mac : Option String) (f : String → List (Option String)) (ret : Meshes)
      → Listed f ret
      → Listed (λ t. f t ++ (if t == k then mac ∷ [] else [])) (append_mac k mac ret)
  unfolding append_mac
  append_mac-Listed k mac f ret g t =
      lookup-insert t k (or_empty (lookup k ret) ++ mac ∷ []) ret
      ∙ ap (λ o. if t == k then some (o ++ mac ∷ []) else lookup t ret)
          (ap or_empty (g k) ∙ or_empty-unless_empty (f k))
      ∙ ap (λ o. if t == k then some (f k ++ mac ∷ []) else o) (g t)
      ∙ appended (t == k) (f t) (f k) mac [] (λ h. ap f (key_eq t k h))

  add_interfaces-Listed :
      (lines : List String) (f : String → List (Option String)) (ret : Meshes)
      → Listed f ret
      → Listed (λ t. f t ++ macs_of t lines) (add_interfaces config get_interface_mac lines ret)
  unfolding add_interfaces
  add_interfaces-Listed [] f ret g t = g t ∙ ap unless_empty (sym (append-nil (f t)))
  add_interfaces-Listed (line ∷ lines) f ret g t =
      let i = interface_of line in
      let k = interface_type config i in
      let mac = get_interface_mac i in
      add_interfaces-Listed lines (λ t. f t ++ (if t == k then mac ∷ [] else []))
        (append_mac k mac ret) (append_mac-Listed k mac f ret g) t
      ∙ ap unless_empty (append_assoc (f t) _ _ ∙ ap (λ l. f t ++ l) (macs_of-cons t line lines))

  joined :
      (f : String → List (Option String)) (ret : Meshes) (l2tp : List (Option String)) (t : String)
      → Listed f ret
      → lookup t (with_l2tp (unless_empty l2tp) ret)
        ≡ unless_empty (f t ++ (if t == "tunnel" then l2tp else []))
  joined f ret [] t g = ground (arith, g t, append-nil (f t))
  joined f ret (mac ∷ macs) t g =
      lookup-insert t "tunnel" (or_empty (lookup "tunnel" ret) ++ mac ∷ macs) ret
      ∙ ap (λ o. if t == "tunnel" then some (o ++ mac ∷ macs) else lookup t ret)
          (ap or_empty (g "tunnel") ∙ or_empty-unless_empty (f "tunnel"))
      ∙ ap (λ o. if t == "tunnel" then some (f "tunnel" ++ mac ∷ macs) else o) (g t)
      ∙ appended (t == "tunnel") (f t) (f "tunnel") mac macs (λ h. ap f (key_eq t "tunnel" h))

  join_l2tp-Listed :
      (f : String → List (Option String)) (ret : Meshes)
      → Listed f ret
      → Listed (λ t. f t ++ (if t == "tunnel" then f "l2tp" else [])) (join_l2tp ret)
  unfolding join_l2tp
  join_l2tp-Listed f ret g t =
      ap (λ o. lookup t (with_l2tp o ret)) (g "l2tp") ∙ joined f ret (f "l2tp") t g

  -- Under each type `getBatmanInterfaces` lists the addresses of the interfaces of this type, in the order of the
  -- lines, and behind the tunnels the L2TP interfaces once more; a type without any has no list.
  pub get_batman_interfaces-expected :
      (lines : List String) (t : String)
      → lookup t (get_batman_interfaces config get_interface_mac lines)
        ≡ unless_empty (expected t lines)
  unfolding get_batman_interfaces lookup
  get_batman_interfaces-expected lines t =
      join_l2tp-Listed (λ t. macs_of t lines) (add_interfaces config get_interface_mac lines [])
        (add_interfaces-Listed lines (λ t. []) [] (λ t. refl)) t
