-- ===== src/Store/Preferences.antt =====
-- The alert preferences of a user in internal/db/queries.go. What is not set is NULL, an empty URL too.
use calbridge.Common.{
  ℕ, zero, suc, Text, ◌∷◌, Option, none, some, Bool, not, ◌&&◌, ◌||◌, ◌==◌, if◌then◌else◌,
}
use calbridge.Store.{
  UserAlertPreferences, M, ◌>>=◌, return, Statement, exec, query, read_clock, id_or_new,
}
use calbridge.Store.Rows.{update, count, exists, first}

unfoldable pub preferences_of : Text → UserAlertPreferences → Bool
preferences_of user_id p = p.user_id == user_id

-- No preferences are no error.
unfoldable pub get_user_alert_preferences : Text → M (Option UserAlertPreferences)
unfolding first preferences_of
get_user_alert_preferences user_id = query (λ t. first (preferences_of user_id) t.preferences)

unfoldable pub write_preferences :
    UserAlertPreferences → ℕ → UserAlertPreferences → UserAlertPreferences
write_preferences p now r = record r {
  email_enabled = p.email_enabled;
  webhook_enabled = p.webhook_enabled;
  webhook_url = p.webhook_url;
  cooldown_minutes = p.cooldown_minutes;
  updated_at = now;
}

unfoldable pub update_preferences : UserAlertPreferences → ℕ → Statement
unfolding update count write_preferences preferences_of
update_preferences p now keys t =
    let fits = preferences_of p.user_id in
    some (
      count fits t.preferences,
      record t { preferences = update fits (write_preferences p now) t.preferences },
    )

unfoldable pub insert_preferences : UserAlertPreferences → Statement
unfolding exists preferences_of
insert_preferences p keys t =
    if exists (λ r. r.id == p.id || preferences_of p.user_id r) t.preferences
    then none
    else if keys && not (exists (λ u. u.id == p.user_id) t.users)
    then none
    else some (1, record t { preferences = p ∷ t.preferences })

abbrev pub insert_preferences_if_none : UserAlertPreferences → ℕ → ℕ → M (Unit {0})
insert_preferences_if_none p now zero = do
  id ← id_or_new p.id
  n ← exec (insert_preferences (record p { id = id; created_at = now; updated_at = now }))
  return tt
insert_preferences_if_none p now (suc n) = return tt

unfoldable pub upsert_user_alert_preferences : UserAlertPreferences → M (Unit {0})
unfolding update_preferences insert_preferences
upsert_user_alert_preferences p = do
  now ← read_clock
  n ← exec (update_preferences p now)
  insert_preferences_if_none p now n
