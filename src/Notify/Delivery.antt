-- ===== src/Notify/Delivery.antt =====
-- send, sendWithPrefs, sendWebhookToURL and SendTestWebhook of internal/notify/notify.go. A failing
-- request or email is only logged, so the outcome is the list of what is posted and mailed.
use calbridge.Common.{
  Duration, plus, wrapped, ◌*◌, ◌≡◌, refl, ◌∙◌, inl, ◌⊎◌, Text, List, [], ◌∷◌, ◌++◌, Option, none,
  some, Bool, true, false, ◌&&◌, not, if◌then◌else◌, ◌==◌, All, In,
}
use calbridge.Notify.{Alert, Config, UserPreferences, Library, minute, is_blank}
use calbridge.Notify.Urls.{
  PassesHostChecks, validate_webhook_url, validate_config, validate_config-disabled,
}

-- A POST to a URL, or one email to a list of recipients.
pub data Sent : Type 0 where
  post : Text → Alert → Sent
  mail : List Text → Alert → Sent

-- The keys of recipientSet; Go's order of them is not specified, here it is the order of insertion.
unfoldable pub insert : Text → List Text → List Text
insert r [] = r ∷ []
insert r (x ∷ xs) = let rest = insert r xs in if x == r then x ∷ xs else x ∷ rest

add_user : Library → Alert → List Text → List Text
add_user lib a rs =
    if not (is_blank a.user_email) && lib.matches_email a.user_email
    then insert (lib.to_lower a.user_email) rs
    else rs

add_admins : Library → List Text → List Text → List Text
unfolding insert
add_admins lib [] rs = rs
add_admins lib (to ∷ rest) rs = add_admins lib rest (insert (lib.to_lower to) rs)

pub recipients : Library → Config → Alert → List Text
unfolding add_user add_admins
recipients lib cfg a = add_admins lib cfg.smtp_to (add_user lib a [])

mail_to : List Text → Alert → List Sent
mail_to [] a = []
mail_to (r ∷ rs) a = mail (r ∷ rs) a ∷ []

-- The user's preference, or the default of the configuration.
unfoldable pub prefer : Option Bool → Bool → Bool
prefer none b = b
prefer (some p) b = p

send_emails : Library → Config → Bool → Alert → List Sent
unfolding mail_to
send_emails lib cfg enabled a = if enabled then mail_to (recipients lib cfg a) a else []

global_webhook : Config → Bool → Alert → List Sent
unfolding is_blank
global_webhook cfg enabled a =
    if enabled && not (is_blank cfg.webhook_url) then post cfg.webhook_url a ∷ [] else []

pub send : Library → Config → Alert → List Sent
unfolding global_webhook send_emails
send lib cfg a = global_webhook cfg cfg.webhook_enabled a ++ send_emails lib cfg cfg.email_enabled a

-- The URL is checked before the request.
pub send_webhook_to_url : Library → Text → Alert → List Sent
send_webhook_to_url lib url a = elim (validate_webhook_url lib url) [
  | none ↦ post url a ∷ []
  | some e ↦ []
]

user_webhook : Library → UserPreferences → Alert → List Sent
unfolding is_blank prefer
user_webhook lib prefs a =
    if not (is_blank prefs.webhook_url) && prefer prefs.webhook_enabled true
    then send_webhook_to_url lib prefs.webhook_url a
    else []

pub send_with_prefs : Library → Config → Alert → Option UserPreferences → List Sent
unfolding global_webhook user_webhook send_emails prefer
send_with_prefs lib cfg a none =
    global_webhook cfg cfg.webhook_enabled a ++ send_emails lib cfg cfg.email_enabled a
send_with_prefs lib cfg a (some prefs) =
    global_webhook cfg (prefer prefs.webhook_enabled cfg.webhook_enabled) a
    ++ (user_webhook lib prefs a
        ++ send_emails lib cfg (prefer prefs.email_enabled cfg.email_enabled) a)

-- The minutes of the preferences become nanoseconds on 64 bits with a sign.
unfoldable pub get_cooldown_period : Config → Option UserPreferences → Duration
unfolding wrapped
get_cooldown_period cfg none = plus cfg.cooldown_period
get_cooldown_period cfg (some prefs) = elim prefs.cooldown_minutes [
  | none ↦ plus cfg.cooldown_period
  | some m ↦ wrapped (m * minute)
]

-- A post goes to the URL of the configuration or to one that is https and whose host passes the string
-- tests of the validation; an email, to the given recipients.
abbrev pub IsAllowed : Library → Config → List Text → Sent → Type 0
IsAllowed lib cfg rs (post url a) = (url ≡ cfg.webhook_url) ⊎ PassesHostChecks lib url
IsAllowed lib cfg rs (mail to a) = to ≡ rs

module _ (lib : Library) (cfg : Config) (a : Alert) where
  abbrev Ok : List Sent → Type 0
  Ok = All (IsAllowed lib cfg (recipients lib cfg a))

  -- ValidateConfig reads the webhook's URL only where webhooks are enabled. So a configuration that it
  -- accepts and that has them disabled is accepted with every URL, and a user whose preferences enable
  -- webhooks has the alerts posted to that URL, which nothing has checked.
  pub send_with_prefs-unchecked :
      (url : Text) (prefs : UserPreferences)
      → cfg.webhook_enabled ≡ false
      → validate_config lib cfg ≡ none
      → is_blank url ≡ false
      → prefs.webhook_enabled ≡ some true
      → (validate_config lib (record cfg { webhook_url = url }) ≡ none)
        × In (post url a) (send_with_prefs lib (record cfg { webhook_url = url }) a (some prefs))
  unfolding send_with_prefs global_webhook
  send_with_prefs-unchecked url prefs d v b p =
      (validate_config-disabled lib cfg url d ∙ v, rw (p, b) (inl refl))
