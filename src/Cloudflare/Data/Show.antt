-- ===== src/Cloudflare/Data/Show.antt =====
-- `Record.__str__` of _states/cloudflare.py: what the text of a change shows.
use ffmuc_salt_public.Prelude.{ℕ, ◌≡◌, refl, String}
use ffmuc_salt_public.Prelude.Numbers.{format, at}
use ffmuc_salt_public.Prelude.Result.{ok}
use ffmuc_salt_public.Cloudflare.Record.{Record}
use ffmuc_salt_public.Cloudflare.Data.{show_record}

-- The text of a record is always there, and does not depend on its TTL.
pub show_record_hides_ttl :
    (r : Record) (ttl : ℕ)
    → (show_record (record r { ttl = ttl }) ≡ show_record r)
      × ((text : String) × (show_record r ≡ ok text))
unfolding show_record format at
show_record_hides_ttl r ttl = (refl, (_, refl))
