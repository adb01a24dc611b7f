-- ===== src/Notify.antt =====
-- internal/notify/notify.go: which alerts are sent, to whom, and when. Times and durations are
-- nanoseconds, a duration that is not positive is 0, and one call reads the clock once.
pub mod Urls
pub mod Email
pub mod Delivery
pub mod Alerts
pub mod Tests
use calbridge.Common.{
  ℕ, ◌*◌, ◌+◌, Text, codes, List, [], ◌∷◌, ◌++◌, Option, none, some, Bool, true, false, ltb, ◌&&◌,
  ◌||◌, not, if◌then◌else◌, ◌==◌,
}
use calbridge.Common.Dict.{Dict}

pub data AlertType : Type 0 where
  alert_stale alert_recovery alert_error : AlertType

-- The text of an alert's details: two durations that are printed, or a fixed text.
pub data Details : Type 0 where
  last_sync_was : ℕ → ℕ → Details
  syncing_normally : Details

pub record Alert : Type 0 where
  pub alert_type : AlertType
  pub source_id : Text
  pub source_name : Text
  pub user_email : Text
  pub message : Text
  pub details : Details
  pub timestamp : ℕ

pub record Config : Type 0 where
  pub webhook_enabled : Bool
  pub webhook_url : Text
  pub email_enabled : Bool
  pub smtp_host : Text
  pub smtp_port : ℕ
  pub smtp_from : Text
  pub smtp_to : List Text
  pub cooldown_period : ℕ

-- `none` is Go's nil: the default is meant.
pub record UserPreferences : Type 0 where
  pub email_enabled : Option Bool
  pub webhook_enabled : Option Bool
  pub webhook_url : Text
  pub cooldown_minutes : Option ℕ

-- What package net/url, package regexp and package strings give: the scheme and the hostname of a
-- URL, whether a text matches the expression for emails, and ToLower.
pub record Library : Type 0 where
  pub parse : Text → Option (Text × Text)
  pub matches_email : Text → Bool
  pub to_lower : Text → Text

abbrev pub minute : ℕ
minute = 60_000_000_000

unfoldable pub is_blank : Text → Bool
is_blank [] = true
is_blank (x ∷ xs) = false

pub is_enabled : Config → Bool
is_enabled cfg = cfg.webhook_enabled || cfg.email_enabled
