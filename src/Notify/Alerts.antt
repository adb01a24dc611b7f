-- ===== src/Notify/Alerts.antt =====
-- The state of the notifier, and the calls that change it: the stale and the recovery alerts.
pub mod Staleness
pub mod Cooldown
use calbridge.Common.{
  Duration, plus, minus, is_within, ℕ, ◌+◌, ◌≡◌, Text, codes, List, [], ◌∷◌, ◌++◌, Option, none,
  some, Bool, true, false, ltb, if◌then◌else◌,
}
use calbridge.Common.Dict.{Dict, get, put, delete}
use calbridge.Notify.{
  Alert, alert_stale, alert_recovery, Config, UserPreferences, last_sync_was, syncing_normally,
}
use calbridge.Notify.Delivery.{get_cooldown_period}

-- The goroutine that a call starts: `send`, or `sendWithPrefs` with the preferences.
pub data Started : Type 0 where
  plain : Alert → Started
  with_prefs : Alert → Option UserPreferences → Started

pub record Notifier : Type 0 where
  pub last_alert_times : Dict ℕ
  pub stale_state : Dict Bool
  pub started : List Started

pub new_notifier : Notifier
new_notifier = record { last_alert_times = []; stale_state = []; started = [] }

-- n.staleState[id], with Go's default for a missing key.
abbrev pub or_false : Option Bool → Bool
or_false none = false
or_false (some b) = b

pub is_stale : Text → Notifier → Bool
is_stale id n = or_false (get id n.stale_state)

-- time.Since(lastAlert) < cooldown, for an alert that there is.
pub is_recent_alert : Duration → ℕ → Option ℕ → Bool
unfolding is_within
is_recent_alert cooldown now none = false
is_recent_alert cooldown now (some t) = is_within now t cooldown

pub in_cooldown : Text → Duration → ℕ → Notifier → Bool
unfolding is_stale is_recent_alert
in_cooldown id cooldown now n =
    if is_stale id n then is_recent_alert cooldown now (get id n.last_alert_times) else false

stale_alert : Text → Text → Text → ℕ → ℕ → ℕ → Alert
stale_alert id name email since threshold now = record {
  alert_type = alert_stale;
  source_id = id;
  source_name = name;
  user_email = email;
  message = codes "Source '" ++ name ++ codes "' is stale";
  details = last_sync_was since threshold;
  timestamp = now;
}

recovery_alert : Text → Text → Text → ℕ → Alert
recovery_alert id name email now = record {
  alert_type = alert_recovery;
  source_id = id;
  source_name = name;
  user_email = email;
  message = codes "Source '" ++ name ++ codes "' has recovered";
  details = syncing_normally;
  timestamp = now;
}

-- Mark the source as stale, and start the goroutine.
pub mark_stale : Text → ℕ → Started → Notifier → Notifier
mark_stale id now g n = record {
  last_alert_times = put id now n.last_alert_times;
  stale_state = put id true n.stale_state;
  started = g ∷ n.started;
}

pub clear_state : Text → Notifier → Notifier
clear_state id n = record n {
  last_alert_times = delete id n.last_alert_times;
  stale_state = delete id n.stale_state;
}

-- The calls, with the time at which they read the clock.
pub data Call : Type 0 where
  stale : Text → Text → Text → ℕ → ℕ → ℕ → Call
  stale_with : Text → Text → Text → ℕ → ℕ → Option UserPreferences → ℕ → Call
  recovery : Text → Text → Text → ℕ → Call
  recovery_with : Text → Text → Text → Option UserPreferences → ℕ → Call
  clear : Text → Call

-- The state after a call and the Boolean that it returns; ClearStaleState returns nothing, here false.
pub send_stale_alert : Config → Text → Text → Text → ℕ → ℕ → ℕ → Notifier → Notifier × Bool
unfolding in_cooldown stale_alert mark_stale
send_stale_alert cfg id name email since threshold now n =
    if in_cooldown id (plus cfg.cooldown_period) now n
    then (n, false)
    else (mark_stale id now (plain (stale_alert id name email since threshold now)) n, true)

pub send_stale_alert_with_prefs :
    Config → Text → Text → Text → ℕ → ℕ → Option UserPreferences → ℕ → Notifier → Notifier × Bool
unfolding in_cooldown stale_alert mark_stale
send_stale_alert_with_prefs cfg id name email since threshold prefs now n =
    if in_cooldown id (get_cooldown_period cfg prefs) now n then (n, false) else (
      mark_stale id now (with_prefs (stale_alert id name email since threshold now) prefs) n,
      true,
    )

-- Clear the state of a stale source, and start the goroutine.
pub mark_recovered : Text → Started → Notifier → Notifier
unfolding clear_state
mark_recovered id g n = let m = clear_state id n in record m { started = g ∷ m.started }

pub send_recovery_alert : Text → Text → Text → ℕ → Notifier → Notifier × Bool
unfolding recovery_alert mark_recovered
send_recovery_alert id name email now n =
    if is_stale id n
    then (mark_recovered id (plain (recovery_alert id name email now)) n, true)
    else (n, false)

pub send_recovery_alert_with_prefs :
    Text → Text → Text → Option UserPreferences → ℕ → Notifier → Notifier × Bool
unfolding recovery_alert mark_recovered
send_recovery_alert_with_prefs id name email prefs now n =
    if is_stale id n
    then (mark_recovered id (with_prefs (recovery_alert id name email now) prefs) n, true)
    else (n, false)

pub clear_stale_state : Text → Notifier → Notifier
unfolding clear_state
clear_stale_state id n = clear_state id n

-- The ids with the value true.
pub get_stale_source_ids : Dict Bool → List Text
get_stale_source_ids [] = []
get_stale_source_ids ((id, b) ∷ rest) =
    let ids = get_stale_source_ids rest in if b then id ∷ ids else ids

abbrev pub returned : Notifier × Bool → Bool
returned (n, b) = b

abbrev pub state_of : Notifier × Bool → Notifier
state_of (n, b) = n

pub step : Config → Call → Notifier → Notifier × Bool
step cfg (stale id name email since threshold now) n =
    send_stale_alert cfg id name email since threshold now n
step cfg (stale_with id name email since threshold prefs now) n =
    send_stale_alert_with_prefs cfg id name email since threshold prefs now n
step cfg (recovery id name email now) n = send_recovery_alert id name email now n
step cfg (recovery_with id name email prefs now) n =
    send_recovery_alert_with_prefs id name email prefs now n
step cfg (clear id) n = (clear_stale_state id n, false)

pub run : Config → List Call → Notifier → Notifier
unfolding step
run cfg [] n = n
run cfg (c ∷ cs) n = run cfg cs (state_of (step cfg c n))
