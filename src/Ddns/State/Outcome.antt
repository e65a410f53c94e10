-- ===== src/Ddns/State/Outcome.antt =====
-- `present` and `absent` of _states/ddns.py: what they report and what was sent.
use mathlib.Core.Path.{sym}
use mathlib.Core.List.{append-nil}
use ffmuc_salt_public.Prelude.{
  String, ℕ, ◌≡◌, refl, Bool, true, false, Option, none, some, List, [], ◌∷◌, ◌++◌,
}
use ffmuc_salt_public.Prelude.Result.{ok}
use ffmuc_salt_public.Prelude.Exec.{Ensures, pure-Ensures, bind-Ensures}
use ffmuc_salt_public.Ddns.Message.{
  Question, question, change, UpdateMessage, Message, Server, Dns, World, Kwargs, truthy,
}
use ffmuc_salt_public.Ddns.Update.{update}
use ffmuc_salt_public.Ddns.Update.Messages.{to, Asked, update-Asked}
use ffmuc_salt_public.Ddns.Delete.{or_any, delete}
use ffmuc_salt_public.Ddns.Delete.Messages.{delete-Asked}
use ffmuc_salt_public.Ddns.State.{
  Changes, unchanged, updated, deleted, StateReturn, present_status, absent_status, present, absent,
}

-- One question, and one change of the zone behind it
abbrev pub Changed : String → List Message → Type 0
Changed zone ms =
    (q : Question) × (m : UpdateMessage) × (m.zone ≡ zone) × (ms ≡ question q ∷ change m ∷ [])

-- The messages that go with a result and the changes reported. The flag is that of test mode.
abbrev pub Reported : Bool → String → Option Bool → Changes → List Message → Type 0
Reported true zone result changes ms = (result ≡ none) × (changes ≡ unchanged) × (ms ≡ [])
Reported false zone none changes ms = ⊥
Reported false zone (some true) unchanged ms = (q : Question) × (ms ≡ question q ∷ [])
Reported false zone (some true) (updated n z t r d) ms = Changed zone ms
Reported false zone (some true) (deleted n z) ms = Changed zone ms
Reported false zone (some false) unchanged ms = Changed zone ms
Reported false zone (some false) (updated n z t r d) ms = ⊥
Reported false zone (some false) (deleted n z) ms = ⊥

module _ (dns : Dns) (server : Server) where
  -- The messages sent since the world `w`
  abbrev pub IsHonest : Bool → String → World dns → StateReturn → World dns → Type 0
  IsHonest test zone w ret w' =
      (ms : List Message) × (w'.sent ≡ w.sent ++ to server ms)
      × Reported test zone ret.result ret.changes ms

  present_status-IsHonest :
      (zone name rdtype text : String) (ttl : ℕ) (type : String) (w w' : World dns)
      (status : Option Bool)
      → Asked dns server name zone type w status w'
      → IsHonest false zone w (present_status name zone ttl text rdtype status) w'
  unfolding present_status
  present_status-IsHonest zone name rdtype text ttl type w w' none (q, hq, (ms, e, s)) =
      (ms, s, (q, e))
  present_status-IsHonest zone name rdtype text ttl type w w' (some true)
        (q, hq, (ms, (m, hz, e), s)) =
      (ms, s, (q, m, hz, e))
  present_status-IsHonest zone name rdtype text ttl type w w' (some false)
        (q, hq, (ms, (m, hz, e), s)) =
      (ms, s, (q, m, hz, e))

  absent_status-IsHonest :
      (zone name type : String) (w w' : World dns) (status : Option Bool)
      → Asked dns server name zone type w status w'
      → IsHonest false zone w (absent_status name zone status) w'
  unfolding absent_status
  absent_status-IsHonest zone name type w w' none (q, hq, (ms, e, s)) = (ms, s, (q, e))
  absent_status-IsHonest zone name type w w' (some true) (q, hq, (ms, (m, hz, e), s)) =
      (ms, s, (q, m, hz, e))
  absent_status-IsHonest zone name type w w' (some false) (q, hq, (ms, (m, hz, e), s)) =
      (ms, s, (q, m, hz, e))

  present-Ensures :
      (test : Bool) (zone name : String) (ttl : ℕ) (text rdtype : String)
      (replacing replace_on_change : Bool) (kwargs : Kwargs) (w : World dns)
      → Ensures
          (IsHonest test zone w)
          (present dns test name zone ttl text rdtype server replacing replace_on_change kwargs)
          w
  unfolding present
  present-Ensures true zone name ttl text rdtype replacing roc kwargs w =
      pure-Ensures (IsHonest true zone w) _ w ([], sym (append-nil w.sent), (refl, refl, refl))
  present-Ensures false zone name ttl text rdtype replacing roc kwargs w =
      bind-Ensures (IsHonest false zone w)
        (update dns zone name ttl rdtype text server replacing roc kwargs) _ w
        λ status h.
          pure-Ensures (IsHonest false zone w) (present_status name zone ttl text rdtype status)
            (update dns zone name ttl rdtype text server replacing roc kwargs w).1
            (present_status-IsHonest zone name rdtype text ttl rdtype w
              (update dns zone name ttl rdtype text server replacing roc kwargs w).1 status
              (update-Asked dns server zone name ttl rdtype text replacing roc kwargs w status h))

  absent-Ensures :
      (test : Bool) (zone name : String) (text rdtype : Option String) (kwargs : Kwargs)
      (w : World dns)
      → Ensures (IsHonest test zone w) (absent dns test name zone text rdtype server kwargs) w
  unfolding absent
  absent-Ensures true zone name text rdtype kwargs w =
      pure-Ensures (IsHonest true zone w) _ w ([], sym (append-nil w.sent), (refl, refl, refl))
  absent-Ensures false zone name text rdtype kwargs w =
      bind-Ensures (IsHonest false zone w) (delete dns zone name rdtype text server kwargs) _ w
        λ status h.
          pure-Ensures (IsHonest false zone w) (absent_status name zone status)
            (delete dns zone name rdtype text server kwargs w).1
            (absent_status-IsHonest zone name (or_any (truthy rdtype)) w
              (delete dns zone name rdtype text server kwargs w).1 status
              (delete-Asked dns server zone name rdtype text kwargs w status h))

  -- What `present` reports is what was sent. In test mode it sends nothing, and reports no change and
  -- no result. Else it reports a result: success without a change where one question was sent,
  -- and success with a change, or a failure without one, where one question and one change of the
  -- zone were sent.
  pub present-IsHonest :
      (test : Bool) (zone name : String) (ttl : ℕ) (text rdtype : String)
      (replacing replace_on_change : Bool) (kwargs : Kwargs) (w : World dns) (ret : StateReturn)
      → (present dns test name zone ttl text rdtype server replacing replace_on_change kwargs w).0
        ≡ ok ret
      → IsHonest test zone w ret
          (present dns test name zone ttl text rdtype server replacing replace_on_change kwargs w).1
  present-IsHonest = present-Ensures

  -- What `absent` reports is what was sent. In test mode it sends nothing, and reports no change and
  -- no result. Else it reports a result: success without a change where one question was sent,
  -- and success with a change, or a failure without one, where one question and one change of the
  -- zone were sent.
  pub absent-IsHonest :
      (test : Bool) (zone name : String) (text rdtype : Option String) (kwargs : Kwargs)
      (w : World dns) (ret : StateReturn)
      → (absent dns test name zone text rdtype server kwargs w).0 ≡ ok ret
      → IsHonest test zone w ret (absent dns test name zone text rdtype server kwargs w).1
  absent-IsHonest = absent-Ensures
