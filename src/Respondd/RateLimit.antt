-- ===== src/Respondd/RateLimit.antt =====
-- respondd/respondd-tmpl/lib/ratelimit.py: the class `rateLimit`. Clock readings are milliseconds, and
-- the bucket counts parts of a token, 60000 to one, so that the quotients of the source are exact. The
-- bucket is `credit` less `debt`, as a clock that is set back lowers it, below 0 too.
pub mod Bound
use ffmuc_salt_public.Prelude.{
  ℕ, ◌+◌, ◌*◌, Bool, true, false, Option, none, some, if◌then◌else◌, ◌==◌, nat_eq, ltb, leb,
}
use ffmuc_salt_public.Prelude.Result.{Result, ok, err, exception}
use ffmuc_salt_public.Prelude.Exec.{Exec, pure, raise}

pub record RateLimit : Type 0 where
  pub rate_limit : ℕ
  pub rate_burst : ℕ
  pub credit : ℕ
  pub debt : ℕ
  pub t_last : Option ℕ

-- `rateLimit(_rate_limit, _rate_burst)`
unfoldable pub init : ℕ → ℕ → RateLimit
init rate_limit rate_burst = record {
  rate_limit = rate_limit;
  rate_burst = rate_burst;
  credit = rate_burst * 60000;
  debt = 0;
  t_last = none;
}

-- `self.bucket += …`, and the cut at the burst
unfoldable pub refill : ℕ → ℕ → RateLimit → RateLimit
refill last now s =
    let credit = s.credit + now * s.rate_limit in
    let debt = s.debt + last * s.rate_limit in
    if ltb (s.rate_burst * 60000 + debt) credit
    then record s { credit = s.rate_burst * 60000; debt = 0; t_last = some now }
    else record s { credit = credit; debt = debt; t_last = some now }

-- The test of the bucket, which takes a token
unfoldable pub take_token : Exec RateLimit Bool
take_token s =
    if leb (s.debt + 60000) s.credit
    then (ok true, record s { debt = s.debt + 60000 })
    else (ok false, s)

unfoldable pub limit_after : Option ℕ → ℕ → Exec RateLimit Bool
limit_after none now s = (ok true, record s { t_last = some now })
limit_after (some last) now s =
    if s.rate_limit == 0
    then (err (exception "division by zero"), record s { t_last = some now })
    else take_token (refill last now s)

-- `limit`, with the clock's reading
unfoldable pub limit : ℕ → Exec RateLimit Bool
unfolding limit_after refill take_token
limit now s = limit_after s.t_last now s
