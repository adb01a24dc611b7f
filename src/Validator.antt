-- ===== src/Validator.antt =====
-- internal/validator/validator.go: the checks of URLs and endpoints, and the client whose count of
-- redirects is a variable that all its requests share.
pub mod Redirects
pub mod Endpoints
pub mod Tests
use calbridge.Common.{
  ℕ, zero, suc, ◌+◌, Text, codes, List, [], ◌∷◌, ◌++◌, Option, none, some, Bool, true, false, ltb,
  eqb, not, ◌&&◌, ◌||◌, if◌then◌else◌, ◌==◌, trim_suffix,
}

pub data Failure : Type 0 where
  invalid_url parse_error missing_host bad_scheme https_required : Failure
  bad_issuer bad_caldav : Failure → Failure
  bad_request connection_failed missing_dav : Failure
  bad_status : ℕ → Failure

-- The scheme and the host of a parsed URL.
pub record Parsed : Type 0 where
  pub scheme : Text
  pub host : Text

pub record Response : Type 0 where
  pub status_code : ℕ
  pub dav : Text

-- What a server does with a request: how often it redirects, and then the response, or `none` if the
-- connection fails, where the dialer refuses a private address included.
pub record Answer : Type 0 where
  pub redirects : ℕ
  pub response : Option Response

pub data Method : Type 0 where
  get_method options_method head_method : Method

-- Package net/url, package net/http and the servers. `can_request` is whether NewRequestWithContext
-- accepts the URL.
pub record Net : Type 0 where
  pub parse : Text → Option Parsed
  pub can_request : Text → Bool
  pub answer : Method → Text → Answer

unfoldable pub is_blank : Text → Bool
is_blank [] = true
is_blank (x ∷ xs) = false

abbrev pub max_redirects : ℕ
max_redirects = 3

-- CheckRedirect before each redirect: the count is of the client, and nothing sets it back.
unfoldable pub follow : ℕ → Option Response → ℕ → ℕ × Option Response
follow zero r count = (count, r)
follow (suc n) r count =
    let rest = follow n r (count + 1) in
    if ltb max_redirects (count + 1) then (count + 1, none) else rest

unfoldable pub check_parsed : Bool → Option Parsed → Option Failure
unfolding is_blank
check_parsed require_https none = some parse_error
check_parsed require_https (some p) =
    if is_blank p.host
    then some missing_host
    else if require_https && not (p.scheme == codes "https")
    then some https_required
    else if not (p.scheme == codes "http") && not (p.scheme == codes "https")
    then some bad_scheme
    else none

unfoldable pub validate_url : Net → Text → Bool → Option Failure
unfolding is_blank check_parsed
validate_url net url require_https =
    if is_blank url then some invalid_url else check_parsed require_https (net.parse url)

-- v.client.Do with the checks before it: what is made of the response is `judge`.
unfoldable pub request :
    Net → Method → Text → Failure → (Response → Option Failure) → ℕ → ℕ × Option Failure
unfolding follow
request net method url refused judge count =
    if not (net.can_request url)
    then (count, some refused)
    else let r = follow (net.answer method url).redirects (net.answer method url).response count in
      (r.0, elim r.1 [ none ↦ some connection_failed | some response ↦ judge response ])

unfoldable pub judge_issuer : Response → Option Failure
judge_issuer r =
    if eqb r.status_code 200 then none else some (bad_issuer (bad_status r.status_code))

unfoldable pub judge_caldav : Response → Option Failure
unfolding is_blank
judge_caldav r =
    if not (eqb r.status_code 200) && not (eqb r.status_code 204)
    then some (bad_caldav (bad_status r.status_code))
    else if is_blank r.dav
    then some (bad_caldav missing_dav)
    else none

abbrev pub judge_any : Response → Option Failure
judge_any r = none

-- After ValidateURL: its error in the caller's words, or the request.
unfoldable pub checked :
    Option Failure → (Failure → Failure) → (ℕ → ℕ × Option Failure) → ℕ → ℕ × Option Failure
checked none wrap next count = next count
checked (some e) wrap next count = (count, some (wrap e))

pub discovery_url : Text → Text
discovery_url issuer = trim_suffix issuer (codes "/") ++ codes "/.well-known/openid-configuration"

-- The count of redirects after the call, and its error.
pub validate_oidc_issuer : Net → Text → ℕ → ℕ × Option Failure
unfolding validate_url checked request judge_issuer discovery_url
validate_oidc_issuer net issuer count =
    checked (validate_url net issuer true) bad_issuer
      (request net get_method (discovery_url issuer) (bad_issuer bad_request) judge_issuer) count

unfoldable pub validate_caldav_endpoint : Net → Text → ℕ → ℕ × Option Failure
unfolding validate_url checked request judge_caldav
validate_caldav_endpoint net url count =
    checked (validate_url net url true) bad_caldav
      (request net options_method url (bad_caldav bad_request) judge_caldav) count

pub test_connection : Net → Text → ℕ → ℕ × Option Failure
unfolding validate_url checked request
test_connection net url count =
    checked (validate_url net url false) (λ e. e)
      (request net head_method url connection_failed judge_any) count
