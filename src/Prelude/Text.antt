-- ===== src/Prelude/Text.antt =====
-- The operations of Python's `str` that the code uses, over the native text.
use Prim.Native.Char.{Char, code}
use Prim.Native.String.append
use mathlib.Core.Logic.{inl, inr}
use Prim.Native.Nat.{ℕ, zero, suc}
use Prim.Native.String.{String, ◌++◌ as ◌<>◌}
use mathlib.Core.Path.{◌≡◌, refl, ap, sym, ◌∙◌}
use mathlib.Core.Bool.{Bool, true, false, ◌||◌, ◌&&◌}
use mathlib.Core.List.{List, [], ◌∷◌}
use native.Mathlib.Omega.{arith}
use ffmuc_salt_public.Prelude.Tests.{if◌then◌else◌, Bool-cases, leb, ltb}
use ffmuc_salt_public.Prelude.Equality.{◌==◌, string_eq, nat_eq, ==_of_eq}

-- `<=` of texts, by their characters
unfoldable pub text_le : String → String → Bool
text_le String.[] t = true
text_le (String.◌∷◌ c s) String.[] = false
text_le (String.◌∷◌ c s) (String.◌∷◌ d t) =
    let rest = text_le s t in ltb (code c) (code d) || (code c == code d && rest)

-- `s.endswith(t)`
unfoldable pub ends_with : String → String → Bool
ends_with String.[] t = String.[] == t
ends_with (String.◌∷◌ c s) t = (String.◌∷◌ c s) == t || ends_with s t

-- Exactly the texts that have `t` at their end.
pub ends_with_sound : (s t : String) → ends_with s t ≡ true → (u : String) × (s ≡ u <> t)
unfolding ends_with
ends_with_sound String.[] t h = (String.[], ground (arith, append.nil t))
ends_with_sound (String.◌∷◌ c s) t h = elim (Bool-cases ((String.◌∷◌ c s) == t)) [
  | inl same ↦ (String.[], ground (arith, append.nil t))
  | inr other ↦
      let (u, e) = ends_with_sound s t (rw (other, ◌||◌) at h) in
      (String.◌∷◌ c u, ap (String.◌∷◌ c) e ∙ sym (append.cons c u t))
]

ends_with_self : (t : String) → ends_with t t ≡ true
unfolding ends_with
ends_with_self String.[] = ==_of_eq {A = String} refl
ends_with_self (String.◌∷◌ c t) = rw (==_of_eq {A = String} {a = String.◌∷◌ c t} refl)

pub ends_with_complete : (u t : String) → ends_with (u <> t) t ≡ true
unfolding ends_with
ends_with_complete String.[] t = rw append.nil (ends_with_self t)
ends_with_complete (String.◌∷◌ c u) t = rw append.cons (ground (arith, ends_with_complete u t))

-- `sep.join(parts)`
unfoldable pub join : String → List String → String
join sep [] = ""
join sep (x ∷ []) = x
join sep (x ∷ y ∷ rest) = x <> (sep <> join sep (y ∷ rest))

abbrev prepend : Char → List String → List String
prepend c [] = String.◌∷◌ c "" ∷ []
prepend c (x ∷ xs) = String.◌∷◌ c x ∷ xs

-- `s.split(sep)` for a separator of one character
unfoldable pub split : Char → String → List String
split sep String.[] = "" ∷ []
split sep (String.◌∷◌ c s) =
    let rest = split sep s in if code c == code sep then "" ∷ rest else prepend c rest

-- There is a first part.
pub split-cons :
    (sep : Char) (s : String)
    → (front : String) × (parts : List String) × (split sep s ≡ front ∷ parts)
unfolding split
split-cons sep String.[] = ("", [], refl)
split-cons sep (String.◌∷◌ c s) =
    let (front, parts, e) = split-cons sep s in
    elim (Bool-cases (code c == code sep)) [
      | inl cut ↦ ("", split sep s, rw cut refl)
      | inr other ↦ (String.◌∷◌ c front, parts, rw (other, e) refl)
    ]

-- `s.split(sep, n)`: at most `n` cuts
unfoldable pub split_at_most : Char → ℕ → String → List String
split_at_most sep zero s = s ∷ []
split_at_most sep (suc n) String.[] = "" ∷ []
split_at_most sep (suc n) (String.◌∷◌ c s) =
    let cut = split_at_most sep n s in
    let more = split_at_most sep (suc n) s in
    if code c == code sep then "" ∷ cut else prepend c more

-- `s.partition(sep)`: the part before the first separator, and the part behind it
unfoldable pub partition : Char → String → String × String
partition sep String.[] = ("", "")
partition sep (String.◌∷◌ c s) =
    let (front, back) = partition sep s in
    if code c == code sep then ("", s) else (String.◌∷◌ c front, back)

-- `s[1:]`, `s[:-1]`
unfoldable pub drop_first : String → String
drop_first String.[] = ""
drop_first (String.◌∷◌ c s) = s

unfoldable pub drop_last : String → String
drop_last String.[] = ""
drop_last (String.◌∷◌ c String.[]) = ""
drop_last (String.◌∷◌ c (String.◌∷◌ d s)) = String.◌∷◌ c (drop_last (String.◌∷◌ d s))

-- ASCII white space, as `str.strip` removes it
abbrev is_space : Char → Bool
is_space c = (leb 9 (code c) && leb (code c) 13) || (leb 28 (code c) && leb (code c) 32)

unfoldable pub strip_left : String → String
strip_left String.[] = ""
strip_left (String.◌∷◌ c s) = let rest = strip_left s in if is_space c then rest else String.◌∷◌ c s

unfoldable pub strip_right : String → String
strip_right String.[] = ""
strip_right (String.◌∷◌ c s) =
    let rest = strip_right s in if is_space c && rest == "" then "" else String.◌∷◌ c rest

-- `s.strip()`
unfoldable pub strip : String → String
unfolding strip_left strip_right
strip s = strip_right (strip_left s)
