-- ===== src/Respondd/Client/Replies.antt =====
-- The class `ResponddClient`: what is sent for a message.
use ffmuc_salt_public.Prelude.{
  ℕ, suc, String, ◌<>◌, ◌≡◌, refl, ap, sym, ◌∙◌, Bool, true, false, ◌||◌, Option, none, some, List,
  [], ◌∷◌, ◌++◌, ◌==◌, contains, string_eq, arith,
}
use mathlib.Core.Path.{subst}
use ffmuc_salt_public.Prelude.Dict.{Dict, insert, has, keys}
use ffmuc_salt_public.Prelude.Result.{Result, ok, err}
use ffmuc_salt_public.Prelude.Exec.{Exec, continue, Ensures, bind-Ensures, pure-Ensures, if-Ensures}
use ffmuc_salt_public.Prelude.Text.{split, split-cons}
use ffmuc_salt_public.Respondd.RateLimit.{RateLimit}
use ffmuc_salt_public.Respondd.Struct.{Answer}
use ffmuc_salt_public.Respondd.Client.{
  Config, Kind, statistics, nodeinfo, neighbours, Moment, Reply, single, multi, Sent, Client, admit,
  build_at, build_struct, build_all, send_struct, packet, answer, serve, kind_of, structure,
  by_kind, if_admitted, limited_by, replace,
}

has-insert :
    (j k : String) (v : Option Answer) (d : Dict String (Option Answer))
    → has j (insert k v d) ≡ (j == k || has j d)
unfolding insert keys
has-insert j k v [] = refl
has-insert j k v ((i, w) ∷ d) = ground (arith, has-insert j k v d)

-- A reply to a message of these words: to "GET" a dict with just the requests as its keys, and to all
-- else a single structure or None.
abbrev pub Fits : List String → Reply → Type 0
Fits [] reply = ⊥
Fits (word ∷ requests) (multi d) =
    ((word == "GET") ≡ true) × ((k : String) → has k d ≡ contains requests k)
Fits (word ∷ requests) (single a) = (word == "GET") ≡ false

continue-sent {ℓ κ} :
    {A : Type ℓ} {B : Type κ} (r : Result A) (s : Client) (f : A → Exec Client B) (sent : List Sent)
    → s.sent ≡ sent
    → ((a : A) → (f a s).1.sent ≡ sent)
    → (continue r f s).1.sent ≡ sent
continue-sent (ok a) s f sent h k = k a
continue-sent (err e) s f sent h k = h

limited_by-sent :
    (l : Option RateLimit) (now : ℕ) (s : Client) → (limited_by l now s).1.sent ≡ s.sent
limited_by-sent none now s = refl
limited_by-sent (some r) now s = refl

module _ (moment : ℕ → Moment) (config : Config) where
  structure-sent :
      (m : Moment) (kind : Kind) (s : Client) → (structure moment config m kind s).1.sent ≡ s.sent
  unfolding structure
  structure-sent m statistics s = refl
  structure-sent m nodeinfo s = refl
  structure-sent m neighbours s = refl

  by_kind-sent :
      (m : Moment) (kind : Option Kind) (s : Client)
      → (by_kind moment config m kind s).1.sent ≡ s.sent
  by_kind-sent m none s = refl
  by_kind-sent m (some kind) s =
      let r = structure moment config m kind s in
      continue-sent r.0 r.1 _ s.sent (structure-sent m kind s) (λ a. structure-sent m kind s)

  if_admitted-sent :
      (m : Moment) (response_type : String) (admitted : Bool) (s : Client)
      → (if_admitted moment config m response_type admitted s).1.sent ≡ s.sent
  if_admitted-sent m response_type false s = refl
  if_admitted-sent m response_type true s = by_kind-sent m (kind_of response_type) s

  -- Building a structure sends nothing.
  build_struct-sent :
      (response_type : String) (s : Client)
      → (build_struct moment config response_type s).1.sent ≡ s.sent
  unfolding build_struct build_at admit
  build_struct-sent response_type s =
      let t : Client = record s { calls = suc s.calls } in
      let r = limited_by t.limiter (moment s.calls).limit_time t in
      let same = limited_by-sent t.limiter (moment s.calls).limit_time t in
      continue-sent r.0 r.1 _ s.sent same
        λ a. if_admitted-sent (moment s.calls) response_type a r.1 ∙ same

  -- A dict of replies to the requests, behind those that are there
  abbrev Replied :
      List String
      → Dict String (Option Answer)
      → List Sent
      → Dict String (Option Answer)
      → Client
      → Type 0
  Replied requests before sent d s =
      (s.sent ≡ sent) × ((k : String) → has k d ≡ (contains requests k || has k before))

  build_all-Replied :
      (requests : List String) (before : Dict String (Option Answer)) (s : Client)
      → Ensures (Replied requests before s.sent) (build_all moment config requests before) s
  unfolding build_all
  build_all-Replied [] before s = pure-Ensures (Replied [] before s.sent) before s (refl, λ k. refl)
  build_all-Replied (request ∷ requests) before s =
      bind-Ensures (Replied (request ∷ requests) before s.sent) (build_struct moment config request)
        _ s
        λ a h d e.
          let t = (build_struct moment config request s).1 in
          let (same, found) = build_all-Replied requests (insert request a before) t d e in
          (
            same ∙ build_struct-sent request s,
            λ k.
                found k
                ∙ ap (λ b. contains requests k || b) (has-insert k request a before)
                ∙ swap (contains requests k) (k == request) (has k before),
          )
    where
      swap : (a b c : Bool) → (a || (b || c)) ≡ ((b || a) || c)
      swap a b c = ground arith

  module _ (dumps : Reply → String) (deflate : String → String) (site address : String) where
    -- One packet for a message of these words is sent.
    abbrev pub SentFor : List String → List Sent → Unit {0} → Client → Type 0
    SentFor words sent u s =
        (packet : Sent) × (s.sent ≡ sent ++ packet ∷ [])
        × Fits words packet.reply
        × (packet.address ≡ replace "vrf_external" ("br-" <> site) address)
        × (packet.port ≡ 45124)

    module _ (wet : config.dry_run ≡ false) where
      send_struct-SentFor :
          (words : List String) (sent : List Sent) (reply : Reply) (with_compression : Bool)
          (s : Client)
          → s.sent ≡ sent
          → Fits words reply
          → Ensures
              (SentFor words sent)
              (send_struct moment config dumps deflate site address reply with_compression)
              s
      unfolding send_struct
      send_struct-SentFor words sent reply with_compression s same fits u h =
          let sent_packet =
            packet moment config dumps deflate site address reply with_compression in
          rw wet (sent_packet, ap (λ x. x ++ sent_packet ∷ []) same, fits, refl, refl)

      answer-SentFor :
          (word : String) (requests : List String) (s : Client)
          → Ensures
              (SentFor (word ∷ requests) s.sent)
              (answer moment config dumps deflate site address (word ∷ requests))
              s
      unfolding answer keys
      answer-SentFor word requests s =
          if-Ensures (SentFor (word ∷ requests) s.sent) (word == "GET") _ _ s
            (λ many.
              bind-Ensures (SentFor (word ∷ requests) s.sent) (build_all moment config requests [])
                _ s
                λ d h.
                  let (same, found) = build_all-Replied requests [] s d h in
                  send_struct-SentFor (word ∷ requests) s.sent (multi d) true _ same
                    (many, λ k. found k ∙ no_more (contains requests k)))
            (λ one.
              bind-Ensures (SentFor (word ∷ requests) s.sent) (build_struct moment config word) _ s
                λ a h.
                  send_struct-SentFor (word ∷ requests) s.sent (single a) false _
                    (build_struct-sent word s) one)
        where
          no_more : (b : Bool) → (b || false) ≡ b
          no_more b = ground arith

-- Where a message is served and this is no dry run, one packet is sent and no other, to the port 45124
-- of the sender: for "GET" with a dict that has just the requests as its keys, and for any other
-- message with a single structure or None.
pub serve-SentFor :
    (moment : ℕ → Moment) (config : Config) (dumps : Reply → String) (deflate : String → String)
    (site address msg : String) (s : Client)
    → config.dry_run ≡ false
    → (serve moment config dumps deflate site (address, some msg) s).0 ≡ ok tt
    → (sent_packet : Sent) × ((serve moment config dumps deflate site (address, some msg) s).1.sent
        ≡ s.sent ++ sent_packet ∷ [])
      × Fits (split " " msg) sent_packet.reply
      × (sent_packet.address ≡ replace "vrf_external" ("br-" <> site) address)
      × (sent_packet.port ≡ 45124)
unfolding serve
serve-SentFor moment config dumps deflate site address msg s wet h =
    let (word, requests, e) = split-cons " " msg in
    subst
      (λ words.
        (answer moment config dumps deflate site address words s).0 ≡ ok tt
        → SentFor moment config dumps deflate site address words s.sent tt
            (answer moment config dumps deflate site address words s).1)
      (sym e) (answer-SentFor moment config dumps deflate site address wet word requests s tt) h
