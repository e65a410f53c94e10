-- ===== src/Geoip/Lines.antt =====
-- A line of a map file, as HAProxy reads it. It is left out if it begins with a hash sign or is blank. Blanks
-- and tabs at its beginning, between key and value, and at its end do not count; the key ends at the first
-- blank or tab, the value at the end of the line, and a carriage return ends the line too.
use Prim.Native.Char.{Char, code}
use Prim.Native.String.append
use ffmuc_salt_public.Prelude.{
  String, ◌<>◌, ◌≡◌, refl, ◌∙◌, ap, sym, Bool, true, false, not, ◌&&◌, ◌||◌, Option, none, some,
  ◌∷◌, ◌==◌, if◌then◌else◌, nat_eq, arith, Bool-cases, inl, inr,
}
use mathlib.Core.Path.{subst}
use ffmuc_salt_public.Prelude.Text.{split, partition}
use ffmuc_salt_public.Prelude.Scan.{span}

abbrev pub is_gap : Char → Bool
is_gap c = code c == b' ' || code c == 9

unfoldable pub drop_gap : String → String
drop_gap String.[] = ""
drop_gap (String.◌∷◌ c s) = let rest = drop_gap s in if is_gap c then rest else String.◌∷◌ c s

-- The flag says that nothing is left of the rest.
abbrev then_char : Char → String → String
then_char c String.[] = if is_gap c then "" else String.◌∷◌ c ""
then_char c (String.◌∷◌ d s) = String.◌∷◌ c (String.◌∷◌ d s)

unfoldable pub drop_gap_end : String → String
drop_gap_end String.[] = ""
drop_gap_end (String.◌∷◌ c s) = then_char c (drop_gap_end s)

unfoldable pub trim : String → String
unfolding drop_gap drop_gap_end
trim s = drop_gap_end (drop_gap s)

abbrev pub is_comment : String → Bool
is_comment String.[] = false
is_comment (String.◌∷◌ c s) = code c == b'#'

abbrev key_and_value : String → Option (String × String)
unfolding span trim
key_and_value String.[] = none
key_and_value (String.◌∷◌ c s) =
    let (key, rest) = span (λ d. not (is_gap d)) (String.◌∷◌ c s) in some (key, trim rest)

unfoldable pub entry_of : String → Option (String × String)
unfolding span trim partition drop_gap
entry_of line = if is_comment line then none else key_and_value (drop_gap (partition "\r" line).0)

-- Every character of the text passes the test.
abbrev pub Every : (Char → Bool) → String → Type 0
Every p String.[] = Unit
Every p (String.◌∷◌ c s) = (p c ≡ true) × Every p s

-- The test of it
abbrev pub every : (Char → Bool) → String → Bool
every p String.[] = true
every p (String.◌∷◌ c s) = p c && every p s

pub Every-every : (p : Char → Bool) (s : String) → every p s ≡ true → Every p s
Every-every p String.[] h = tt
Every-every p (String.◌∷◌ c s) h = elim (Bool-cases (p c)) [
  | inl holds ↦ (holds, Every-every p s (ground (arith, holds)))
  | inr fails ↦ absurd (ground (arith, fails))
]

abbrev pub in_line : Char → Bool
in_line c = not (code c == 10) && not (code c == 13)

abbrev pub in_key : Char → Bool
in_key c = not (is_gap c) && (in_line c && not (code c == b'#'))

-- A network is a key, and a value stands on one line, without blanks or tabs at its ends.
abbrev pub IsKey : String → Type 0
IsKey String.[] = ⊥
IsKey (String.◌∷◌ c s) = Every in_key (String.◌∷◌ c s)

abbrev pub Plain : String × String → Type 0
Plain (network, value) = IsKey network × Every in_line value × (trim value ≡ value)

Every-append : (p : Char → Bool) (s t : String) → Every p s → Every p t → Every p (s <> t)
Every-append p String.[] t w w' = subst (Every p) (sym (append.nil t)) w'
Every-append p (String.◌∷◌ d s) t w w' =
    subst (Every p) (sym (append.cons d s t)) (w.0, Every-append p s t w.1 w')

in_key-in_line : (s : String) → Every in_key s → Every in_line s
in_key-in_line String.[] w = tt
in_key-in_line (String.◌∷◌ c s) w = (ground (arith, w.0), in_key-in_line s w.1)

pub append_assoc : (s t u : String) → (s <> (t <> u)) ≡ ((s <> t) <> u)
append_assoc String.[] t u = append.nil (t <> u) ∙ ap (λ x. x <> u) (sym (append.nil t))
append_assoc (String.◌∷◌ c s) t u =
    append.cons c s (t <> u)
    ∙ ap (String.◌∷◌ c) (append_assoc s t u)
    ∙ sym (append.cons c (s <> t) u)
    ∙ ap (λ x. x <> u) (sym (append.cons c s t))

not_feed : (c : Char) → in_line c ≡ true → (code c == 10) ≡ false
not_feed c h = ground (arith, h)

not_return : (c : Char) → in_line c ≡ true → (code c == 13) ≡ false
not_return c h = ground (arith, h)

not_gap : (c : Char) → in_key c ≡ true → is_gap c ≡ false
not_gap c h = ground (arith, h)

not_hash : (c : Char) → in_key c ≡ true → (code c == b'#') ≡ false
not_hash c h = ground (arith, h)

pub split-line :
    (line rest : String)
    → Every in_line line
    → split "\n" (line <> ("\n" <> rest)) ≡ line ∷ split "\n" rest
unfolding split nat_eq
split-line String.[] rest w = rw (append.nil, append.cons, append.nil, split) refl
split-line (String.◌∷◌ c line) rest w =
    rw (append.cons, split, not_feed c w.0, split-line line rest w.1) refl

partition-line : (line : String) → Every in_line line → (partition "\r" line).0 ≡ line
unfolding partition nat_eq
partition-line String.[] w = refl
partition-line (String.◌∷◌ c line) w =
    rw (not_return c w.0) (ap (String.◌∷◌ c) (partition-line line w.1))

span-key :
    (key value : String)
    → Every in_key key
    → span (λ d. not (is_gap d)) (key <> (" " <> value)) ≡ (key, " " <> value)
unfolding span nat_eq
span-key String.[] value w = rw (append.nil, append.cons, append.nil) refl
span-key (String.◌∷◌ c key) value w = rw (append.cons, span-key key value w.1, not_gap c w.0) refl

trim-blank : (value : String) → trim (" " <> value) ≡ trim value
unfolding trim drop_gap nat_eq
trim-blank value = rw (append.cons, append.nil) refl

-- The line of an item
abbrev pub line_of : String → String → String
line_of network value = network <> (" " <> value)

pub line-NoEnd :
    (network value : String) → Plain (network, value) → Every in_line (line_of network value)
unfolding nat_eq
line-NoEnd String.[] value p = absurd p.0
line-NoEnd (String.◌∷◌ c s) value p =
    Every-append in_line (String.◌∷◌ c s) (" " <> value) (in_key-in_line (String.◌∷◌ c s) p.0)
      (Every-append in_line " " value (refl, tt) p.1)

is_comment-line :
    (c : Char) (s value : String)
    → in_key c ≡ true
    → is_comment (line_of (String.◌∷◌ c s) value) ≡ false
is_comment-line c s value h = rw append.cons (not_hash c h)

drop_gap-line :
    (c : Char) (s value : String)
    → in_key c ≡ true
    → drop_gap (line_of (String.◌∷◌ c s) value) ≡ line_of (String.◌∷◌ c s) value
unfolding drop_gap
drop_gap-line c s value h = rw (append.cons, drop_gap, not_gap c h) refl

key_and_value-line :
    (c : Char) (s value : String)
    → Every in_key (String.◌∷◌ c s)
    → trim value ≡ value
    → key_and_value (line_of (String.◌∷◌ c s) value) ≡ some (String.◌∷◌ c s, value)
unfolding key_and_value
key_and_value-line c s value w e =
    let parts = λ (x : String × String). some (x.0, trim x.1) in
    ap key_and_value (append.cons c s (" " <> value))
    ∙ ap parts (
        ap (span (λ d. not (is_gap d))) (sym (append.cons c s (" " <> value)))
        ∙ span-key (String.◌∷◌ c s) value w)
    ∙ ap (λ v. some (String.◌∷◌ c s, v)) (trim-blank value ∙ e)

pub entry_of-line :
    (network value : String)
    → Plain (network, value)
    → entry_of (line_of network value) ≡ some (network, value)
unfolding entry_of
entry_of-line String.[] value p = absurd p.0
entry_of-line (String.◌∷◌ c s) value p =
    let line = line_of (String.◌∷◌ c s) value in
    rw (is_comment-line c s value p.0.0) (
      ap (λ l. key_and_value (drop_gap l))
        (partition-line line (line-NoEnd (String.◌∷◌ c s) value p))
      ∙ ap key_and_value (drop_gap-line c s value p.0.0)
      ∙ key_and_value-line c s value p.0 p.2)
