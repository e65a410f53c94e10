-- ===== src/Telegraf/Tables.antt =====
-- telegraf/files/haproxy_peers_stats.py: `TABLE_RE` and `parse_tables`.
use Prim.Native.Char.{code}
use ffmuc_salt_public.Prelude.{ℕ, String, not, Option, none, some, List, [], ◌∷◌, ◌==◌, nat_eq}
use ffmuc_salt_public.Prelude.Scan.{◌>>=◌, is_digit, span1, literal, int_of_digits, splitlines}
use ffmuc_salt_public.Prelude.Result.{Result, ok, ◌>>=◌ as ◌>>=!◌}

pub record Table : Type 0 where
  pub table : String
  pub size : ℕ
  pub used : ℕ

-- The groups of `TABLE_RE.match(line)`
unfoldable pub match_table : String → Option (String × String × String)
unfolding span1 literal
match_table line = do
  named ← literal "# table: " line
  name ← span1 (λ c. not (code c == b',')) named
  typed ← literal ", type: " name.1
  type ← span1 (λ c. not (code c == b',')) typed
  sized ← literal ", size:" type.1
  size ← span1 is_digit sized
  counted ← literal ", used:" size.1
  used ← span1 is_digit counted
  some (name.0, size.0, used.0)

-- The dict of a match
unfoldable pub table_of : String × String × String → Result Table
unfolding int_of_digits
table_of (name, size_text, used_text) = int_of_digits size_text >>=! λ size.
    int_of_digits used_text >>=! λ used. ok (record { table = name; size = size; used = used })

-- `for m in map(TABLE_RE.match, …) if m`
abbrev pub found : Option (String × String × String) → Result (List Table) → Result (List Table)
found none rest = rest
found (some groups) rest = table_of groups >>=! λ t. rest >>=! λ ts. ok (t ∷ ts)

unfoldable pub tables_of : List String → Result (List Table)
unfolding match_table table_of
tables_of [] = ok []
tables_of (line ∷ lines) = found (match_table line) (tables_of lines)

-- `parse_tables`
unfoldable pub parse_tables : String → Result (List Table)
unfolding tables_of splitlines
parse_tables text = tables_of (splitlines text)
