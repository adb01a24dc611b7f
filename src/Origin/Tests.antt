-- ===== src/Origin/Tests.antt =====
-- The origin check on a concrete request.
use calbridge.Common.{◌≡◌, refl, Text, codes, List, [], ◌∷◌, false, ◌==◌, has_prefix, has_suffix}
use calbridge.Origin.{
  is_blank, index, cut_referer, origin_of, is_valid_origin, keep_valid, or_default,
  get_allowed_origins, member, is_read_only, validate_origin,
}
use calbridge.Origin.Safety.{IsAllowed, validate_origin-IsAllowed}

abbrev origins : List Text
origins = codes "https://cal.org" ∷ codes "https://bad.org/" ∷ []

validate_origin-IsAllowed_example :
    (is_blank (origin_of [] (codes "https://cal.org/a")) ≡ false)
    × IsAllowed origins (origin_of [] (codes "https://cal.org/a"))
unfolding validate_origin is_read_only origin_of index cut_referer is_blank member
    get_allowed_origins or_default keep_valid is_valid_origin has_prefix has_suffix ◌==◌
validate_origin-IsAllowed_example =
    validate_origin-IsAllowed origins (codes "POST") [] (codes "https://cal.org/a") refl refl
