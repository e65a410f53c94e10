-- ===== src/Telegraf/Main/Exit.antt =====
-- The script telegraf/files/haproxy_peers_stats.py: how it ends.
use ffmuc_salt_public.Prelude.{
  ℕ, String, ◌<>◌, ◌≡◌, refl, ◌⊎◌, inl, inr, Option, none, some, List, [], ◌∷◌, All, Bool, true,
  false, Bool-cases, ltb, ◌==◌, if◌then◌else◌, string_eq,
}
use ffmuc_salt_public.Prelude.Dict.{lookup}
use ffmuc_salt_public.Prelude.Result.{
  Error, Result, ok, err, os_error, int_limit, float_limit, ◌>>=◌,
}
use ffmuc_salt_public.Prelude.Scan.{len, decimal, int_of_digits, splitlines}
use ffmuc_salt_public.Telegraf.Duration.{
  Float, TimeUnit, milliseconds, days, hours, minutes, seconds, Part, joined, findall, Num, int_num,
  float_num, converted, plus, times_unit, amount, total, to_float, some_parts, duration_s,
}
use ffmuc_salt_public.Telegraf.Peers.{Peer, parse_peers}
use ffmuc_salt_public.Telegraf.Peers.Headers.{parse_peers-Complete}
use ffmuc_salt_public.Telegraf.Peers.Named.{Complete}
use ffmuc_salt_public.Telegraf.Tables.{Table, match_table, table_of, found, tables_of, parse_tables}
use ffmuc_salt_public.Telegraf.Lines.{get, peer_line, item, fields_of}
use ffmuc_salt_public.Telegraf.Main.{
  Event, chunk, broken, failed, receive, Outcome, caught, peer_lines, query, main, script,
}

-- The exceptions of the sockets, and those of the numbers
abbrev Known : Error → Type 0
Known e = ((text : String) × (e ≡ os_error text)) ⊎ ((e ≡ int_limit) ⊎ (e ≡ float_limit))

-- A block returns, or raises one of these.
abbrev Plain {ℓ} : {A : Type ℓ} → Result A → Type ℓ
Plain {A} r = ((a : A) × (r ≡ ok a)) ⊎ ((e : Error) × Known e × (r ≡ err e))

bind-Plain {ℓ κ} :
    {A : Type ℓ} {B : Type κ} (m : Result A) (f : A → Result B)
    → Plain m
    → ((a : A) → Plain (f a))
    → Plain (m >>= f)
bind-Plain m f (inl (a, h)) k = rw h (k a)
bind-Plain m f (inr (e, known, h)) k = inr (e, known, rw h refl)

receive-Plain : (events : List Event) → Plain (receive events)
unfolding receive
receive-Plain [] = inl ([], refl)
receive-Plain (broken text ∷ rest) = inr (os_error text, inl (text, refl), refl)
receive-Plain (chunk [] ∷ rest) = inl ([], refl)
receive-Plain (chunk (b ∷ bytes) ∷ rest) =
    bind-Plain (receive rest) _ (receive-Plain rest) λ more. inl (_, refl)

item-ok : (key v : String) (p : Peer) → lookup key p ≡ some v → item key p ≡ ok v
item-ok key v p h = rw (h, item)

int_of_digits-Plain : (s : String) → Plain (int_of_digits s)
unfolding int_of_digits
int_of_digits-Plain s = elim (Bool-cases (ltb 4300 (len s))) [
  | inl long ↦ inr (int_limit, inr (inl refl), rw long refl)
  | inr short ↦ inl (decimal 0 s, rw short refl)
]

table_of-Plain : (groups : String × String × String) → Plain (table_of groups)
unfolding table_of
table_of-Plain (name, size, used) =
    bind-Plain (int_of_digits size) _ (int_of_digits-Plain size)
      λ n. bind-Plain (int_of_digits used) _ (int_of_digits-Plain used) λ m. inl (_, refl)

found-Plain :
    (groups : Option (String × String × String)) (rest : Result (List Table))
    → Plain rest
    → Plain (found groups rest)
found-Plain none rest h = h
found-Plain (some groups) rest h =
    bind-Plain (table_of groups) _ (table_of-Plain groups)
      λ t. bind-Plain rest _ h λ ts. inl (t ∷ ts, refl)

tables_of-Plain : (lines : List String) → Plain (tables_of lines)
unfolding tables_of
tables_of-Plain [] = inl ([], refl)
tables_of-Plain (line ∷ lines) =
    found-Plain (match_table line) (tables_of lines) (tables_of-Plain lines)

parse_tables-Plain : (text : String) → Plain (parse_tables text)
unfolding parse_tables
parse_tables-Plain text = tables_of-Plain (splitlines text)

module _ (float : Float) where
  open float use {Value, of_int, thousandths}

  converted-Plain : (o : Option Value) → Plain (converted float o)
  converted-Plain none = inr (float_limit, inr (inr refl), refl)
  converted-Plain (some x) = inl (x, refl)

  times_unit-Plain : (n : ℕ) (u : TimeUnit) → Plain (times_unit float n u)
  unfolding times_unit
  times_unit-Plain n milliseconds =
      bind-Plain (converted float (thousandths n)) _ (converted-Plain (thousandths n))
        λ x. inl (_, refl)
  times_unit-Plain n days = inl (_, refl)
  times_unit-Plain n hours = inl (_, refl)
  times_unit-Plain n minutes = inl (_, refl)
  times_unit-Plain n seconds = inl (_, refl)

  amount-Plain : (p : Part) → Plain (amount float p)
  unfolding amount
  amount-Plain p =
      bind-Plain (int_of_digits p.digits) _ (int_of_digits-Plain p.digits)
        λ n. times_unit-Plain n p.unit

  plus-Plain : (x y : Num float) → Plain (plus float x y)
  unfolding plus
  plus-Plain (int_num a) (int_num b) = inl (_, refl)
  plus-Plain (int_num a) (float_num y) =
      bind-Plain (converted float (of_int a)) _ (converted-Plain (of_int a)) λ x. inl (_, refl)
  plus-Plain (float_num x) (int_num b) =
      bind-Plain (converted float (of_int b)) _ (converted-Plain (of_int b)) λ y. inl (_, refl)
  plus-Plain (float_num x) (float_num y) = inl (_, refl)

  total-Plain : (acc : Num float) (parts : List Part) → Plain (total float acc parts)
  unfolding total
  total-Plain acc [] = inl (acc, refl)
  total-Plain acc (p ∷ parts) =
      bind-Plain (amount float p) _ (amount-Plain p)
        λ n. bind-Plain (plus float acc n) _ (plus-Plain acc n) λ sum. total-Plain sum parts

  to_float-Plain : (n : Num float) → Plain (to_float float n)
  unfolding to_float
  to_float-Plain (int_num n) = converted-Plain (of_int n)
  to_float-Plain (float_num x) = inl (x, refl)

  summed-Plain :
      (whole : Bool) (m : Result (Num float))
      → Plain m
      → Plain (if whole then (m >>= to_float float >>= λ x. ok (some x)) else ok none)
  summed-Plain true m h =
      bind-Plain (m >>= to_float float) _ (bind-Plain m _ h to_float-Plain) λ x. inl (_, refl)
  summed-Plain false m h = inl (none, refl)

  some_parts-Plain : (value : String) (parts : List Part) → Plain (some_parts float value parts)
  some_parts-Plain value [] = inl (none, refl)
  some_parts-Plain value (p ∷ parts) =
      summed-Plain (joined (p ∷ parts) == value) (total float (int_num 0) (p ∷ parts))
        (total-Plain (int_num 0) (p ∷ parts))

  duration_s-Plain : (value : String) → Plain (duration_s float value)
  unfolding duration_s
  duration_s-Plain value = some_parts-Plain value (findall value)

  peer_line-Plain : (p : Peer) → Complete p → Plain (peer_line float p)
  unfolding peer_line fields_of
  peer_line-Plain p (section, name, h, k) =
      bind-Plain (fields_of float p) _
        (bind-Plain (duration_s float (get "last_hdshk" p)) _
          (duration_s-Plain (get "last_hdshk" p)) λ hdshk. inl (_, refl))
        λ fields.
          bind-Plain (item "section" p) _ (inl (section, item-ok "section" section p h)) λ s.
            bind-Plain (item "peer" p) _ (inl (name, item-ok "peer" name p k)) λ n. inl (_, refl)

  peer_lines-Plain : (peers : List Peer) → All Complete peers → Plain (peer_lines float peers)
  unfolding peer_lines
  peer_lines-Plain [] h = inl ([], refl)
  peer_lines-Plain (p ∷ peers) h = bind-Plain (peer_line float p) _ (peer_line-Plain p h.0) λ line.
      bind-Plain (peer_lines float peers) _ (peer_lines-Plain peers h.1) λ lines. inl (_, refl)

  module _ (haproxy : String → List Event) (decode : List ℕ → String) where
    query-Plain : (command : String) → Plain (query float haproxy decode command)
    unfolding query
    query-Plain command =
        bind-Plain (receive (haproxy command)) _ (receive-Plain (haproxy command))
          λ bytes. inl (_, refl)

    main-Plain : Plain (main float haproxy decode)
    unfolding main
    main-Plain =
        bind-Plain (query float haproxy decode "show peers") _ (query-Plain "show peers") λ peers.
          bind-Plain (peer_lines float (parse_peers peers)) _
            (peer_lines-Plain (parse_peers peers) (parse_peers-Complete peers))
            λ lines.
              bind-Plain (query float haproxy decode "show table") _ (query-Plain "show table")
                λ tables.
                  bind-Plain (parse_tables tables) _ (parse_tables-Plain tables)
                    λ found. inl (_, refl)

    caught-Known :
        (e : Error)
        → Known e
        → ((outcome : Outcome) × (caught (err e) ≡ ok outcome))
          ⊎ ((caught (err e) ≡ err int_limit) ⊎ (caught (err e) ≡ err float_limit))
    unfolding caught
    caught-Known e (inl (text, h)) = inl (failed ("haproxy_peers_stats: " <> text) 1, rw h refl)
    caught-Known e (inr (inl h)) = inr (inl (rw h refl))
    caught-Known e (inr (inr h)) = inr (inr (rw h refl))

    -- Whatever HAProxy sends, and however its socket fails, the script returns, unless it raises one of
    -- two exceptions: the ValueError of a text of more than 4300 digits that stands for a number, or the
    -- OverflowError of a number in a duration, or of their sum, that is too large for a float. What
    -- `parse_peers` finds has the two keys that `peer_line` needs, and an OSError is caught. That
    -- printing fails is not modelled.
    pub script-ends :
        ((outcome : Outcome) × (script float haproxy decode ≡ ok outcome))
        ⊎ ((script float haproxy decode ≡ err int_limit)
            ⊎ (script float haproxy decode ≡ err float_limit))
    unfolding script
    script-ends = elim main-Plain [
      | inl (outcome, e) ↦ inl (outcome, rw e refl)
      | inr (e, known, h) ↦ rw h (caught-Known e known)
    ]
