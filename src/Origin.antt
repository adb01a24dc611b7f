-- ===== src/Origin.antt =====
-- ValidateOrigin, getAllowedOrigins and IsSafeRedirectURL of internal/web/middleware.go. The cache of
-- the origins is left out: the environment does not change while the program runs.
pub mod Safety
pub mod Tests
use calbridge.Common.{
  ℕ, ◌+◌, Text, codes, List, [], ◌∷◌, ◌++◌, Option, none, some, Bool, true, false, leb, not, ◌&&◌,
  ◌||◌, if◌then◌else◌, ◌==◌, has_prefix, has_suffix, contains, length, take, drop,
}

unfoldable pub is_blank : Text → Bool
is_blank [] = true
is_blank (x ∷ xs) = false

-- strings.Index.
unfoldable pub index : Text → Text → Option ℕ
unfolding has_prefix
index [] p = if has_prefix [] p then some 0 else none
index (x ∷ xs) p =
    let later = index xs p in
    if has_prefix (x ∷ xs) p then some 0 else elim later [ none ↦ none | some i ↦ some (i + 1) ]

-- The part of the referer before the path.
unfoldable pub cut_referer : Text → ℕ → Text
unfolding index
cut_referer referer i = elim (index (drop (i + 3) referer) (codes "/")) [
  | none ↦ referer
  | some n ↦ take (i + 3 + n) referer
]

unfoldable pub origin_of : Text → Text → Text
unfolding index cut_referer is_blank
origin_of origin referer =
    if is_blank origin && not (is_blank referer)
    then elim (index referer (codes "://")) [ none ↦ origin | some i ↦ cut_referer referer i ]
    else origin

unfoldable pub is_valid_origin : Text → Bool
unfolding is_blank
is_valid_origin o =
    if is_blank o
    then false
    else if not (has_prefix o (codes "http://")) && not (has_prefix o (codes "https://"))
    then false
    else if has_suffix o (codes "/")
    then false
    else if has_prefix o (codes "http://") && leb (length o) 7
    then false
    else if has_prefix o (codes "https://") && leb (length o) 8
    then false
    else true

unfoldable pub keep_valid : List Text → List Text
keep_valid [] = []
keep_valid (o ∷ rest) = let r = keep_valid rest in if is_valid_origin o then o ∷ r else r

abbrev pub default_origins : List Text
default_origins =
    codes "http://localhost:8080"
    ∷ codes "http://localhost:5173"
    ∷ codes "http://127.0.0.1:8080"
    ∷ codes "http://127.0.0.1:5173"
    ∷ []

unfoldable pub or_default : List Text → List Text
or_default [] = default_origins
or_default (o ∷ rest) = o ∷ rest

-- `env` is ALLOWED_ORIGINS split at the commas, each part trimmed; it is empty if the variable is.
unfoldable pub get_allowed_origins : List Text → List Text
unfolding keep_valid or_default
get_allowed_origins env = or_default (keep_valid env)

unfoldable pub member : Text → List Text → Bool
member o [] = false
member o (a ∷ rest) = o == a || member o rest

pub data Verdict : Type 0 where
  next missing_origin invalid_origin : Verdict

unfoldable pub is_read_only : Text → Bool
is_read_only method = method == codes "GET" || (method == codes "HEAD" || method == codes "OPTIONS")

unfoldable pub validate_origin : List Text → Text → Text → Text → Verdict
unfolding is_read_only origin_of member get_allowed_origins
validate_origin env method origin referer =
    if is_read_only method
    then next
    else let o = origin_of origin referer in
      if is_blank o
      then missing_origin
      else if member o (get_allowed_origins env)
      then next
      else invalid_origin

unfoldable pub is_safe_redirect_url : (Text → Text) → Text → Bool
unfolding is_blank
is_safe_redirect_url to_lower url =
    if is_blank url
    then false
    else if not (has_prefix url (codes "/"))
    then false
    else if has_prefix url (codes "//")
    then false
    else if contains (to_lower url) (codes "%2f%2f")
    then false
    else if contains url (92 ∷ [])
    then false
    else true
