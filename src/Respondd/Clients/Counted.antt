-- ===== src/Respondd/Clients/Counted.antt =====
-- `getClients` of respondd/respondd-tmpl/lib/statistics.py counts each client once.
use ffmuc_salt_public.Prelude.{
  ℕ, ◌+◌, ◌≤◌, String, ◌≡◌, sym, Bool, true, false, not, ◌&&◌, Option, none, some, List, [], ◌∷◌,
  count, one_if, if◌then◌else◌, ◌==◌, nat_eq, string_eq, option_eq, arith,
}
use mathlib.Core.Path.{subst}
use Prim.Native.Char.{Char, code}
use ffmuc_salt_public.Prelude.Result.{Result, ok, err, ◌>>=◌, >>=-eq-ok, ok_inj}
use ffmuc_salt_public.Respondd.Clients.{
  Clients, client_of, char_at, is_multicast, is_shown, count_entry, add_entry, add_clients,
  get_clients,
}

abbrev is_char : Char → Result Char → Bool
is_char c (ok d) = code d == code c
is_char c (err e) = false

-- An entry about a client: neither the bridge itself, nor roaming, nor multicast
abbrev pub is_client : Option String → Option (String × String) → Bool
is_client bridge none = false
is_client bridge (some (mac, flags)) =
    not (bridge == some mac) && not (is_char "R" (char_at 0 flags)) && not (is_multicast mac)

abbrev pub has_wifi : Option (String × String) → Bool
has_wifi none = false
has_wifi (some (mac, flags)) = is_char "W" (char_at 4 flags)

abbrev pub client_line : Option String → String → Bool
client_line bridge line = is_client bridge (client_of line)

abbrev pub wifi_line : Option String → String → Bool
wifi_line bridge line = is_client bridge (client_of line) && has_wifi (client_of line)

abbrev Adds : ℕ → ℕ → Clients → Clients → Type 0
Adds total wifi c d = (d.total ≡ total + c.total) × (d.wifi ≡ wifi + c.wifi)

count_entry-Adds :
    (flags : String) (c d : Clients)
    → count_entry flags c ≡ ok d
    → Adds 1 (one_if (is_char "W" (char_at 4 flags))) c d
unfolding count_entry
count_entry-Adds flags c d h =
    let (w, e, h1) = >>=-eq-ok (char_at 4 flags) _ h in
    subst (Adds 1 (one_if (is_char "W" (char_at 4 flags))) c) (ok_inj h1)
      (omega arith, ground (arith, e))

tests_agree :
    (own : Bool) (r : Result Char) (multicast b : Bool)
    → (if own then ok false else r >>= λ c. ok (not (code c == b'R') && not multicast)) ≡ ok b
    → b ≡ (not own && not (is_char "R" r) && not multicast)
tests_agree true r multicast b h = sym (ok_inj h)
tests_agree false (ok c) multicast b h = sym (ok_inj h)
tests_agree false (err e) multicast b h = absurd (cc h)

is_shown-client :
    (bridge : Option String) (mac flags : String) (b : Bool)
    → is_shown bridge mac flags ≡ ok b
    → b ≡ is_client bridge (some (mac, flags))
unfolding is_shown
is_shown-client bridge mac flags b h =
    tests_agree (bridge == some mac) (char_at 0 flags) (is_multicast mac) b h

add_shown-Adds :
    (shown : Bool) (flags : String) (c d : Clients)
    → (if shown then count_entry flags c else ok c) ≡ ok d
    → Adds (one_if shown) (one_if (shown && is_char "W" (char_at 4 flags))) c d
add_shown-Adds true flags c d h = count_entry-Adds flags c d h
add_shown-Adds false flags c d h = subst (Adds 0 0 c) (ok_inj h) (omega arith, omega arith)

add_entry-Adds :
    (bridge : Option String) (entry : Option (String × String)) (c d : Clients)
    → add_entry bridge entry c ≡ ok d
    → Adds (one_if (is_client bridge entry)) (one_if (is_client bridge entry && has_wifi entry)) c d
unfolding add_entry
add_entry-Adds bridge none c d h = subst (Adds 0 0 c) (ok_inj h) (omega arith, omega arith)
add_entry-Adds bridge (some (mac, flags)) c d h =
    let (shown, e, h1) = >>=-eq-ok (is_shown bridge mac flags) _ h in
    subst (λ b. Adds (one_if b) (one_if (b && has_wifi (some (mac, flags)))) c d)
      (is_shown-client bridge mac flags shown e) (add_shown-Adds shown flags c d h1)

add_clients-Adds :
    (bridge : Option String) (lines : List String) (c d : Clients)
    → add_clients bridge lines c ≡ ok d
    → Adds (count (client_line bridge) lines) (count (wifi_line bridge) lines) c d
unfolding add_clients
add_clients-Adds bridge [] c d h = subst (Adds 0 0 c) (ok_inj h) (omega arith, omega arith)
add_clients-Adds bridge (line ∷ lines) c d h =
    let (c', e, h1) = >>=-eq-ok (add_entry bridge (client_of line) c) _ h in
    let (total, wifi) = add_entry-Adds bridge (client_of line) c c' e in
    let (totals, wifis) = add_clients-Adds bridge lines c' d h1 in
    (omega (arith, total, totals), omega (arith, wifi, wifis))

wifi_le :
    (bridge : Option String) (lines : List String)
    → count (wifi_line bridge) lines ≤ count (client_line bridge) lines
wifi_le bridge [] = omega arith
wifi_le bridge (line ∷ lines) = ground (arith, wifi_le bridge lines)

-- Where `getClients` returns, its total is the number of lines about a client that is not the bridge,
-- not roaming and no multicast address; of these it counts the ones with the WiFi flag, never more than all.
pub get_clients-counts :
    (bridge : Option String) (lines : List String) (c : Clients)
    → get_clients bridge lines ≡ ok c
    → (c.total ≡ count (client_line bridge) lines)
      × (c.wifi ≡ count (wifi_line bridge) lines)
      × (c.wifi ≤ c.total)
unfolding get_clients
get_clients-counts bridge lines c h =
    let (total, wifi) = add_clients-Adds bridge lines (record { total = 0; wifi = 0 }) c h in
    (omega (arith, total), omega (arith, wifi), omega (arith, total, wifi, wifi_le bridge lines))
