-- ===== src/Dhcpd/Blocks.antt =====
-- dhcp-server/dhcpd_to_context.py: comments, blocks, and the text outside of them.
use Prim.Native.Char.{Char, code}
use ffmuc_salt_public.Prelude.{
  ℕ, zero, suc, String, ◌<>◌, Bool, true, false, not, ◌&&◌, ◌||◌, List, [], ◌∷◌, if◌then◌else◌,
  ◌==◌, nat_eq, string_eq, ◌≡◌, refl,
}
use ffmuc_salt_public.Prelude.Int.{ℤ, pos, negsuc}
use ffmuc_salt_public.Prelude.Scan.{occurs}
use ffmuc_salt_public.Prelude.Text.{strip, split}

-- `re.sub(r'#.*', '', text)`. The flag says that a comment goes on.
without_comments : Bool → String → String
without_comments inside String.[] = ""
without_comments inside (String.◌∷◌ c s) =
    let hidden = inside && not (code c == 10) in
    let rest = without_comments (hidden || code c == b'#') s in
    if hidden || code c == b'#' then rest else String.◌∷◌ c rest

unfoldable pub uncomment : String → String
unfolding without_comments
uncomment text = without_comments false text

-- `re.sub(r'(?s)\{.*?\}', '', text)`: what stands between a brace and the first closing one behind it
without_braces : Bool → String → String
unfolding occurs
without_braces inside String.[] = ""
without_braces true (String.◌∷◌ c s) = without_braces (not (code c == b'}')) s
without_braces false (String.◌∷◌ c s) =
    let skipped = without_braces true s in
    let kept = String.◌∷◌ c (without_braces false s) in
    if code c == b'{' && occurs "}" s then skipped else kept

unfoldable pub top_level : String → String
unfolding without_braces
top_level text = without_braces false text

abbrev last_of : List String → String
last_of [] = ""
last_of (s ∷ []) = s
last_of (s ∷ t ∷ rest) = last_of (t ∷ rest)

-- `text[head_start:start].strip().split(';')[-1].strip()`
unfoldable pub header : String → String
unfolding strip split
header text = strip (last_of (split ";" (strip text)))

-- `text[…:i + 1]`, from `text[…:i]`
abbrev then_char : String → Char → String
then_char s c = s <> String.◌∷◌ c ""

-- `depth` after a brace; a closing one too many makes it negative.
abbrev up : ℤ → ℤ
up (pos n) = pos (suc n)
up (negsuc zero) = pos 0
up (negsuc (suc n)) = negsuc n

abbrev down : ℤ → ℤ
down (pos zero) = negsuc 0
down (pos (suc n)) = pos n
down (negsuc n) = negsuc (suc n)

-- What a character adds to the text since `head_start`, as long as no block is open, and to the text
-- of the open block
abbrev in_head : ℤ → String → Char → String
in_head (pos zero) s c = then_char s c
in_head (pos (suc n)) s c = s
in_head (negsuc n) s c = then_char s c

abbrev in_body : ℤ → String → Char → String
in_body (pos zero) s c = s
in_body (pos (suc n)) s c = then_char s c
in_body (negsuc n) s c = s

abbrev is_at : ℕ → ℤ → Bool
is_at k (pos n) = k == n
is_at k (negsuc n) = false

-- The rounds of `_blocks`
read_blocks : ℤ → String → String → String → List (String × String)
unfolding header
read_blocks depth head body String.[] = []
read_blocks depth head body (String.◌∷◌ c s) =
    let first = read_blocks (pos 1) head "" s in
    let inner = read_blocks (up depth) (in_head depth head c) (in_body depth body c) s in
    let last = (header head, body) ∷ read_blocks (pos 0) "" "" s in
    let outer = read_blocks (down depth) (in_head depth head c) (in_body depth body c) s in
    let other = read_blocks depth (in_head depth head c) (in_body depth body c) s in
    if code c == b'{'
    then if is_at 0 depth then first else inner
    else if code c == b'}'
    then if is_at 1 depth then last else outer
    else other

-- `_blocks`
unfoldable pub blocks : String → List (String × String)
unfolding read_blocks
blocks text = read_blocks (pos 0) "" "" text

uncomment_runs : uncomment "a # b\nc" ≡ "a \nc"
unfolding uncomment nat_eq
uncomment_runs = refl

top_level_runs : top_level "a { b { c } d } e" ≡ "a  d } e"
unfolding top_level nat_eq
top_level_runs = refl

blocks_run :
    blocks "x 1; host a { p; q { r } }\nhost b { s }"
    ≡ ("host a", " p; q { r } ") ∷ ("host b", " s ") ∷ []
unfolding blocks nat_eq string_eq
blocks_run = refl
