-- ===== src/Cloudflare/Zone/Desired.antt =====
-- `Zone.desired` of _states/cloudflare.py: which exceptions it raises.
use text.Mathlib.TextEquality.{eq_iff}
use ffmuc_salt_public.Prelude.{String, ◌≡◌, refl, ◌≢◌, true, List, [], ◌∷◌, arith}
use ffmuc_salt_public.Prelude.Result.{Error, ok, is_ok, err, salt_invocation_error}
use ffmuc_salt_public.Cloudflare.Record.{RecordDict, validate_record, record_from_dict}
use ffmuc_salt_public.Cloudflare.Zone.{Zone, validate_all, convert_all, desired}

abbrev pub IsInvocation : Error → Type 0
IsInvocation e = (text : String) × (e ≡ salt_invocation_error text)

validate_record_errors : (r : RecordDict) (e : Error) → validate_record r ≡ err e → IsInvocation e
unfolding validate_record
validate_record_errors r e h = ground arith

a-ne-mx : ◌≢◌ {A = String} "A" "MX"
a-ne-mx = ground (arith, eq_iff "A" "MX")

validated_converts :
    (r : RecordDict) → validate_record r ≡ ok tt → is_ok (record_from_dict r) ≡ true
unfolding validate_record record_from_dict
validated_converts r h = ground (arith, a-ne-mx)

validate_all_errors : (rs : List RecordDict) (e : Error) → validate_all rs ≡ err e → IsInvocation e
unfolding validate_all
validate_all_errors [] e h = cc
validate_all_errors (r ∷ rs) e h =
    ground (arith, validate_record_errors r e, validate_all_errors rs e)

convert_all_of_validated :
    (rs : List RecordDict) → validate_all rs ≡ ok tt → is_ok (convert_all rs) ≡ true
unfolding validate_all convert_all
convert_all_of_validated [] h = refl
convert_all_of_validated (r ∷ rs) h =
    ground (arith, validated_converts r, convert_all_of_validated rs)

-- Whatever `desired` raises is a SaltInvocationError.
pub desired_errors : (z : Zone) (e : Error) → desired z ≡ err e → IsInvocation e
unfolding desired
desired_errors z e h =
    ground (arith, validate_all_errors z.records e, convert_all_of_validated z.records)
