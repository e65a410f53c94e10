-- ===== src/Ddns/State.antt =====
-- _states/ddns.py: `present` and `absent`.
pub mod Outcome
use ffmuc_salt_public.Prelude.{
  ℕ, String, ◌<>◌, Bool, true, false, Option, none, some, if◌then◌else◌,
}
use ffmuc_salt_public.Prelude.Numbers.{show_ℕ}
use ffmuc_salt_public.Prelude.Exec.{Exec, pure, ◌>>=◌}
use ffmuc_salt_public.Ddns.Message.{Server, Dns, World, Kwargs}
use ffmuc_salt_public.Ddns.Update.{update}
use ffmuc_salt_public.Ddns.Delete.{delete}

-- The dicts at the key "changes"
pub data Changes : Type 0 where
  unchanged : Changes
  updated : (name zone : String) (ttl : ℕ) (rdtype text : String) → Changes
  deleted : (name zone : String) → Changes

pub record StateReturn : Type 0 where
  pub name : String
  pub changes : Changes
  pub result : Option Bool
  pub comment : String

abbrev about : String → String → String → String → String
about before rdtype between name = before <> (rdtype <> (between <> (" \"" <> (name <> "\""))))

abbrev show_type : Option String → String
show_type none = "None"
show_type (some t) = t

-- The result of `present`, for what `ddns.update` returned
unfoldable pub present_status : String → String → ℕ → String → String → Option Bool → StateReturn
present_status name zone ttl text rdtype none = record {
  name = name;
  changes = unchanged;
  result = some true;
  comment = about "" rdtype " record" name <> (" already present with ttl of " <> show_ℕ ttl);
}
present_status name zone ttl text rdtype (some true) = record {
  name = name;
  changes = updated name zone ttl rdtype text;
  result = some true;
  comment = about "Updated " rdtype " record for" name;
}
present_status name zone ttl text rdtype (some false) = record {
  name = name;
  changes = unchanged;
  result = some false;
  comment = about "Failed to create or update " rdtype " record for" name;
}

-- The result of `absent`, for what `ddns.delete` returned
unfoldable pub absent_status : String → String → Option Bool → StateReturn
absent_status name zone none = record {
  name = name;
  changes = unchanged;
  result = some true;
  comment = "No matching DNS record(s) present";
}
absent_status name zone (some true) = record {
  name = name;
  changes = deleted name zone;
  result = some true;
  comment = "Deleted DNS record(s)";
}
absent_status name zone (some false) = record {
  name = name;
  changes = unchanged;
  result = some false;
  comment = "Failed to delete DNS record(s)";
}

module _ (dns : Dns) where
  -- `present`, with `__opts__["test"]`
  unfoldable pub present :
      Bool
      → String
      → String
      → ℕ
      → String
      → String
      → Server
      → Bool
      → Bool
      → Kwargs
      → Exec (World dns) StateReturn
  present test name zone ttl text rdtype server replacing replace_on_change kwargs =
      if test
      then pure (record {
        name = name;
        changes = unchanged;
        result = none;
        comment = about "" rdtype " record" name <> " will be updated";
      })
      else (do
        status ← update dns zone name ttl rdtype text server replacing replace_on_change kwargs
        pure (present_status name zone ttl text rdtype status))

  -- `absent`
  unfoldable pub absent :
      Bool
      → String
      → String
      → Option String
      → Option String
      → Server
      → Kwargs
      → Exec (World dns) StateReturn
  absent test name zone text rdtype server kwargs =
      if test
      then pure (record {
        name = name;
        changes = unchanged;
        result = none;
        comment = about "" (show_type rdtype) " record" name <> " will be deleted";
      })
      else (do
        status ← delete dns zone name rdtype text server kwargs
        pure (absent_status name zone status))
