-- ===== src/Web/Alerts.antt =====
-- The handlers of the alert preferences, and the test of a webhook. `is_sent` is whether the test message
-- is delivered.
use calbridge.Common.{Text, codes, [], ◌∷◌, Option, none, some, Bool, true, false, if◌then◌else◌}
use calbridge.Store.{UserAlertPreferences}
use calbridge.Store.Preferences.{get_user_alert_preferences, upsert_user_alert_preferences}
use calbridge.Notify.Urls.{UrlError, validate_webhook_url}
use calbridge.Notify
use calbridge.Web.{World, Session, Outside, Reply, reply, or_reply, with_session, with_body}
use calbridge.Web.Views.{error, message, invalid_url, preferences, ApiAlertPreferences}

abbrev pub no_preferences : ApiAlertPreferences
no_preferences = record {
  email_enabled = none;
  webhook_enabled = none;
  webhook_url = [];
  cooldown_minutes = none;
}

unfoldable pub preferences_to_api : Option UserAlertPreferences → ApiAlertPreferences
preferences_to_api none = no_preferences
preferences_to_api (some p) = record {
  email_enabled = p.email_enabled;
  webhook_enabled = p.webhook_enabled;
  webhook_url = p.webhook_url;
  cooldown_minutes = p.cooldown_minutes;
}

unfoldable pub api_get_alert_preferences : Option Session → World → Reply
unfolding preferences_to_api
api_get_alert_preferences session w = with_session session w (λ u.
    or_reply 500 (codes "Failed to load preferences") (get_user_alert_preferences u.user_id) w
      (λ p w'. reply 200 (preferences (preferences_to_api p)) w'))

unfoldable pub check_url : Notify.Library → Text → Option UrlError
check_url lib [] = none
check_url lib (c ∷ cs) = validate_webhook_url lib (c ∷ cs)

unfoldable pub unless_url : Option UrlError → World → Reply → Reply
unless_url none w k = k
unless_url (some e) w k = reply 400 (invalid_url e) w

-- A request as it is decoded: the minutes of the cooldown may be negative.
pub record PreferencesRequest : Type 0 where
  pub asked : ApiAlertPreferences
  pub is_negative : Bool

unfoldable pub stored_preferences : Text → ApiAlertPreferences → UserAlertPreferences
stored_preferences user_id p = record {
  id = [];
  user_id = user_id;
  email_enabled = p.email_enabled;
  webhook_enabled = p.webhook_enabled;
  webhook_url = p.webhook_url;
  cooldown_minutes = p.cooldown_minutes;
  created_at = 0;
  updated_at = 0;
}

unfoldable pub save_preferences : Outside → Text → PreferencesRequest → World → Reply
unfolding stored_preferences
save_preferences out user_id r w =
    if r.is_negative
    then reply 400 (error (codes "Cooldown minutes must be non-negative")) w
    else or_reply 500 (codes "Failed to save preferences")
        (upsert_user_alert_preferences (stored_preferences user_id r.asked)) w
        (λ t w'. reply 200 (preferences r.asked) w')

unfoldable pub api_update_alert_preferences :
    Outside → Option Session → Option PreferencesRequest → World → Reply
unfolding check_url unless_url save_preferences
api_update_alert_preferences out session request w = with_session session w (λ u.
    with_body request w (λ r.
      unless_url (check_url out.notify r.asked.webhook_url) w (save_preferences out u.user_id r w)))

unfoldable pub send_test_webhook : Bool → World → Reply
send_test_webhook true w = reply 200 (message (codes "Test webhook sent successfully")) w
send_test_webhook false w = reply 400 (error (codes "Failed to send test webhook")) w

unfoldable pub send_test : Notify.Library → Bool → Text → World → Reply
unfolding unless_url send_test_webhook
send_test lib is_sent [] w = reply 400 (error (codes "Webhook URL is required")) w
send_test lib is_sent (c ∷ cs) w =
    unless_url (validate_webhook_url lib (c ∷ cs)) w (send_test_webhook is_sent w)

unfoldable pub api_test_webhook : Outside → Option Session → Bool → Option Text → World → Reply
unfolding send_test
api_test_webhook out session is_sent request w =
    with_session session w (λ u. with_body request w (λ url. send_test out.notify is_sent url w))
