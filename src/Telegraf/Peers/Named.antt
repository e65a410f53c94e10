-- ===== src/Telegraf/Peers/Named.antt =====
-- `parse_peers` of telegraf/files/haproxy_peers_stats.py: the tokens of a line leave a peer its name.
use ffmuc_salt_public.Prelude.{
  String, ◌≡◌, refl, Option, some, List, [], ◌∷◌, ◌==◌, string_eq, arith, Bool-cases, inl, inr,
  ◌&&◌, not,
}
use ffmuc_salt_public.Prelude.Dict.{lookup, lookup-insert}
use ffmuc_salt_public.Prelude.Scan.{occurs}
use ffmuc_salt_public.Prelude.Text.{partition}
use ffmuc_salt_public.Telegraf.Peers.{Peer, set_default, add_token, add_tokens}

-- The section and the name that stand in a peer
abbrev pub named : Peer → Option String × Option String
named p = (lookup "section" p, lookup "peer" p)

set_default-lookup :
    (k key value v : String) (p : Peer)
    → lookup k p ≡ some v
    → lookup k (set_default key value p) ≡ some v
unfolding set_default
set_default-lookup k key value v p h = ground (arith, lookup-insert k key value p)

add_token-lookup :
    (k token v : String) (p : Peer) → lookup k p ≡ some v → lookup k (add_token token p) ≡ some v
unfolding add_token
add_token-lookup k token v p h =
    elim (Bool-cases (occurs "=" token && not ((partition "=" token).0 == "id"))) [
      | inl b ↦ rw b (set_default-lookup k (partition "=" token).0 (partition "=" token).1 v p h)
      | inr b ↦ rw b h
    ]

add_tokens-lookup :
    (k : String) (tokens : List String) (v : String) (p : Peer)
    → lookup k p ≡ some v
    → lookup k (add_tokens tokens p) ≡ some v
unfolding add_tokens
add_tokens-lookup k [] v p h = h
add_tokens-lookup k (token ∷ tokens) v p h =
    add_tokens-lookup k tokens v (add_token token p) (add_token-lookup k token v p h)

-- A peer that has its section and its name
abbrev pub Complete : Peer → Type 0
Complete p =
    (section : String) × (name : String) × (lookup "section" p ≡ some section)
    × (lookup "peer" p ≡ some name)

pub add_tokens-Complete :
    (tokens : List String) (p : Peer) → Complete p → Complete (add_tokens tokens p)
add_tokens-Complete tokens p (section, name, h, k) = (
  section,
  name,
  add_tokens-lookup "section" tokens section p h,
  add_tokens-lookup "peer" tokens name p k,
)

pub add_tokens-named :
    (tokens : List String) (p : Peer) → Complete p → named (add_tokens tokens p) ≡ named p
add_tokens-named tokens p (section, name, h, k) =
    rw
      (
        h,
        k,
        add_tokens-lookup "section" tokens section p h,
        add_tokens-lookup "peer" tokens name p k,
      )
      refl
