-- ===== src/Notify/Tests.antt =====
-- The notifier on concrete calls.
use calbridge.Common.{
  ◌≤◌, ◌≡◌, refl, inr, codes, List, [], ◌∷◌, none, some, true, false, length, ◌==◌, arith, All, In,
}
use calbridge.Notify.{
  Alert, alert_stale, Config, UserPreferences, Library, syncing_normally, minute, is_blank,
}
use calbridge.Notify.Urls.{
  validate_config, validate_webhook, validate_email, validate_cooldown, validate_recipients,
}
use calbridge.Notify.Email.{
  IsOneLine, build_email, sanitize_for_email, build_email-IsOneLine, is_printable,
  is_printable-IsOneLine,
}
use calbridge.Notify.Delivery.{
  post, send_with_prefs, send_with_prefs-unchecked, get_cooldown_period,
}
use calbridge.Notify.Alerts.{new_notifier, is_stale, run, Call, stale, stale_with, recovery}
use calbridge.Notify.Alerts.Staleness.{stale_after, is_stale-run}
use calbridge.Notify.Alerts.Cooldown.{alert_times, Spaced, due, alert_times-Spaced}

abbrev pub library : Library
library = record {
  parse = λ url. some (codes "https", codes "example.com");
  matches_email = λ t. true;
  to_lower = λ t. t;
}

abbrev config : Config
config = record {
  webhook_enabled = false;
  webhook_url = [];
  email_enabled = true;
  smtp_host = codes "mail";
  smtp_port = 25;
  smtp_from = codes "a@b.org";
  smtp_to = codes "c@d.org" ∷ [];
  cooldown_period = 60_000_000_000;
}

abbrev preferences : UserPreferences
preferences = record {
  email_enabled = none;
  webhook_enabled = some true;
  webhook_url = codes "https://example.com/h";
  cooldown_minutes = some 5;
}

abbrev alert : Alert
alert = record {
  alert_type = alert_stale;
  source_id = codes "s";
  source_name = codes "Work";
  user_email = codes "u@v.org";
  message = 13 ∷ 10 ∷ codes "Bcc: x";
  details = syncing_normally;
  timestamp = 1;
}

build_email-IsOneLine_example :
    All IsOneLine
      (build_email (λ d. codes "ok") (λ t. codes "now") config alert (codes "c@d.org" ∷ [])).headers
    × (length (sanitize_for_email alert.message) ≤ 200)
unfolding is_printable
build_email-IsOneLine_example =
    build_email-IsOneLine (λ d. codes "ok") (λ t. codes "now") config alert (codes "c@d.org" ∷ [])
      (is_printable-IsOneLine config.smtp_from refl)
      (is_printable-IsOneLine (codes "c@d.org") refl, tt)

send_with_prefs-unchecked_example :
    (validate_config library (record config { webhook_url = codes "http://10.0.0.1" }) ≡ none)
    × In (post (codes "http://10.0.0.1") alert) (
        send_with_prefs library
          (record config { webhook_url = codes "http://10.0.0.1" })
          alert
          (some preferences))
unfolding validate_config validate_webhook validate_email validate_cooldown validate_recipients
    is_blank
send_with_prefs-unchecked_example =
    send_with_prefs-unchecked library config alert (codes "http://10.0.0.1") preferences refl refl
      refl refl

abbrev morning : List Call
morning =
    stale (codes "s") (codes "Work") [] 9 8 100
    ∷ stale_with (codes "s") (codes "Work") [] 9 8 (some preferences) 200
    ∷ recovery (codes "t") (codes "Home") [] 300
    ∷ []

is_stale-run_example :
    is_stale (codes "s") (run config morning new_notifier)
    ≡ stale_after (codes "s") morning (is_stale (codes "s") new_notifier)
is_stale-run_example = is_stale-run config (codes "s") morning new_notifier

alert_times-Spaced_example :
    Spaced minute
      (due (codes "s") new_notifier)
      (alert_times config (codes "s") morning new_notifier)
unfolding get_cooldown_period ◌==◌
alert_times-Spaced_example =
    alert_times-Spaced config (codes "s") minute morning new_notifier
      (inr (omega arith), (inr (omega arith), (refl, tt)))
