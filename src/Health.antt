-- ===== src/Health.antt =====
-- internal/health/health.go: the checks of the parts of the system, and the status they give together.
-- The latency of a check is not modelled.
pub mod Worst
pub mod Tests
use calbridge.Common.{
  ℕ, Text, codes, List, [], ◌∷◌, ◌++◌, Option, none, some, Bool, true, false, eqb, not, ◌&&◌,
  if◌then◌else◌, ◌==◌,
}
use calbridge.Common.Dict.{Dict, get, put}

pub data Status : Type 0 where
  healthy unhealthy degraded : Status

-- The message of a check, with the error or the status code that it prints.
pub data Message : Type 0 where
  ping_failed query_failed database_is_responsive issuer_not_configured : Message
  request_not_created request_failed is_reachable service_is_running : Message
  unexpected_status : ℕ → Message

pub record Check : Type 0 where
  pub name : Text
  pub status : Status
  pub message : Message

pub record Report : Type 0 where
  pub status : Status
  pub timestamp : ℕ
  pub checks : Dict Check

-- An HTTP request: it is not created, it fails, or it is answered with a status code.
pub data Reply : Type 0 where
  not_created failed : Reply
  answered : ℕ → Reply

-- The state of the system when the checks run.
pub record World : Type 0 where
  pub ping_ok : Bool
  pub query_ok : Bool
  pub discovery : Text → Reply
  pub options : Text → Reply
  pub now : ℕ

pub record Checker : Type 0 where
  pub oidc_issuer : Text
  pub caldav_url : Text
  pub last_report : Option Report

pub is_blank : Text → Bool
is_blank [] = true
is_blank (x ∷ xs) = false

pub new_checker : Text → Text → Checker
new_checker oidc_issuer caldav_url = record {
  oidc_issuer = oidc_issuer;
  caldav_url = caldav_url;
  last_report = none;
}

pub result : Text → Status → Message → Check
result name status message = record { name = name; status = status; message = message }

pub check_database : World → Check
unfolding result
check_database w =
    if not w.ping_ok
    then result (codes "database") unhealthy ping_failed
    else if not w.query_ok
    then result (codes "database") unhealthy query_failed
    else result (codes "database") healthy database_is_responsive

oidc_reply : Reply → Check
unfolding result
oidc_reply not_created = result (codes "oidc") unhealthy request_not_created
oidc_reply failed = result (codes "oidc") unhealthy request_failed
oidc_reply (answered n) =
    if eqb n 200
    then result (codes "oidc") healthy is_reachable
    else result (codes "oidc") unhealthy (unexpected_status n)

pub check_oidc : World → Text → Check
unfolding result oidc_reply is_blank
check_oidc w issuer =
    if is_blank issuer
    then result (codes "oidc") degraded issuer_not_configured
    else oidc_reply (w.discovery (issuer ++ codes "/.well-known/openid-configuration"))

pub caldav_reply : Reply → Check
unfolding result
caldav_reply not_created = result (codes "caldav") degraded request_not_created
caldav_reply failed = result (codes "caldav") degraded request_failed
caldav_reply (answered n) =
    if not (eqb n 200) && (not (eqb n 204) && not (eqb n 401))
    then result (codes "caldav") degraded (unexpected_status n)
    else result (codes "caldav") healthy is_reachable

pub check_caldav : World → Text → Check
unfolding caldav_reply
check_caldav w url = caldav_reply (w.options url)

unfoldable pub is_unhealthy : Status → Bool
is_unhealthy unhealthy = true
is_unhealthy healthy = false
is_unhealthy degraded = false

unfoldable pub is_degraded : Status → Bool
is_degraded degraded = true
is_degraded healthy = false
is_degraded unhealthy = false

-- The two flags of the loop over the checks.
pub has_status : (Status → Bool) → Dict Check → Bool
has_status test [] = false
has_status test ((name, c) ∷ rest) =
    let later = has_status test rest in if test c.status then true else later

unfoldable pub is_down_check : Option Check → Bool
unfolding is_unhealthy
is_down_check none = false
is_down_check (some c) = is_unhealthy c.status

-- Whether the check of this name is there and unhealthy.
pub is_down : Text → Dict Check → Bool
unfolding is_down_check
is_down name checks = is_down_check (get name checks)

pub determine_overall_status : Dict Check → Status
unfolding is_down has_status
determine_overall_status checks =
    if is_down (codes "database") checks
    then unhealthy
    else if is_down (codes "oidc") checks
    then unhealthy
    else if has_status is_unhealthy checks
    then unhealthy
    else if has_status is_degraded checks
    then degraded
    else healthy

-- The checks of one report; the order in which the goroutines end does not matter to the map.
pub all_checks : World → Checker → Dict Check
unfolding check_database check_oidc check_caldav is_blank
all_checks w c =
    let two =
      put (codes "oidc") (check_oidc w c.oidc_issuer)
        (put (codes "database") (check_database w) []) in
    if not (is_blank c.caldav_url)
    then put (codes "caldav") (check_caldav w c.caldav_url) two
    else two

pub check_all : World → Checker → Checker × Report
unfolding all_checks determine_overall_status
check_all w c =
    let checks = all_checks w c in
    let report : Report = record {
      status = determine_overall_status checks;
      timestamp = w.now;
      checks = checks;
    } in
    (record c { last_report = some report }, report)

pub liveness : World → Report
unfolding result
liveness w = record {
  status = healthy;
  timestamp = w.now;
  checks = (codes "alive", result (codes "alive") healthy service_is_running) ∷ [];
}

pub get_last_report : Checker → Option Report
get_last_report c = c.last_report
