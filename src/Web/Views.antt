-- ===== src/Web/Views.antt =====
-- What the handlers of internal/web/api_handlers.go answer with. Times and durations are nanoseconds, where
-- the code formats them.
use calbridge.Common.{ℕ, Text, List, [], ◌∷◌, Option, none, some, Bool, false, ltb, if◌then◌else◌}
use calbridge.Store.{Source, CalendarConfig, SyncLog, MalformedEvent}
use calbridge.Activity.{SyncActivity}
use calbridge.Notify.Urls.{UrlError}
use calbridge.Scheduler.{Scheduler, get_next_sync_at}
use calbridge.Scheduler.Stale.{is_source_stale}

pub record ApiSource : Type 0 where
  pub id : Text
  pub name : Text
  pub source_type : Text
  pub source_url : Text
  pub source_username : Text
  pub dest_url : Text
  pub dest_username : Text
  pub sync_interval : ℕ
  pub sync_days_past : ℕ
  pub sync_direction : Text
  pub conflict_strategy : Text
  pub selected_calendars : List CalendarConfig
  pub enabled : Bool
  pub sync_status : Text
  pub last_sync_at : Option ℕ
  pub next_sync_at : Option ℕ
  pub is_stale : Bool
  pub created_at : ℕ
  pub updated_at : ℕ

pub record ApiSyncLog : Type 0 where
  pub id : Text
  pub source_id : Text
  pub status : Text
  pub message : Text
  pub details : Option Text
  pub events_created : ℕ
  pub events_updated : ℕ
  pub events_deleted : ℕ
  pub events_skipped : ℕ
  pub calendars_synced : ℕ
  pub events_processed : ℕ
  pub duration : Option ℕ
  pub created_at : ℕ

pub record ApiDashboardStats : Type 0 where
  pub total_sources : ℕ
  pub active_sources : ℕ
  pub syncs_today : ℕ
  pub failed_syncs : ℕ

pub record ApiAlertPreferences : Type 0 where
  pub email_enabled : Option Bool
  pub webhook_enabled : Option Bool
  pub webhook_url : Text
  pub cooldown_minutes : Option ℕ

pub record ApiUser : Type 0 where
  pub id : Text
  pub email : Text
  pub name : Text
  pub avatar : Text

pub data Body : Type 0 where
  error message : Text → Body
  invalid_url : UrlError → Body
  one_source : ApiSource → Body
  many_sources : List ApiSource → Body
  logs_page : List ApiSyncLog → ℕ → ℕ → Body
  malformed : List MalformedEvent → Body
  deleted : ℕ → Body
  preferences : ApiAlertPreferences → Body
  stats : ApiDashboardStats → Body
  activity : List SyncActivity → List SyncActivity → Body
  not_authenticated : Body
  authenticated : ApiUser → Body

-- The conversion without the scheduler.
unfoldable pub source_to_api : Source → ApiSource
source_to_api s = record {
  id = s.id;
  name = s.name;
  source_type = s.source_type;
  source_url = s.source_url;
  source_username = s.source_username;
  dest_url = s.dest_url;
  dest_username = s.dest_username;
  sync_interval = s.sync_interval;
  sync_days_past = s.sync_days_past;
  sync_direction = s.sync_direction;
  conflict_strategy = s.conflict_strategy;
  selected_calendars = s.selected_calendars;
  enabled = s.enabled;
  sync_status = s.last_sync_status;
  last_sync_at = s.last_sync_at;
  next_sync_at = none;
  is_stale = false;
  created_at = s.created_at;
  updated_at = s.updated_at;
}

-- Whether the source is stale at the time.
unfoldable pub is_stale_at : ℕ → Source → Bool
is_stale_at now s = is_source_stale now (record {
  enabled = s.enabled;
  sync_interval = s.sync_interval;
  last_sync_at = s.last_sync_at;
  created_at = s.created_at;
})

unfoldable pub source_to_api_with_scheduler : ℕ → Scheduler → Source → ApiSource
unfolding source_to_api is_stale_at
source_to_api_with_scheduler now scheduler s = record (source_to_api s) {
  next_sync_at = if s.enabled then get_next_sync_at s.id scheduler else none;
  is_stale = is_stale_at now s;
}

unfoldable pub set_text : Text → Option Text
set_text [] = none
set_text (c ∷ cs) = some (c ∷ cs)

unfoldable pub sync_log_to_api : SyncLog → ApiSyncLog
unfolding set_text
sync_log_to_api l = record {
  id = l.id;
  source_id = l.source_id;
  status = l.status;
  message = l.message;
  details = set_text l.details;
  events_created = l.events_created;
  events_updated = l.events_updated;
  events_deleted = l.events_deleted;
  events_skipped = l.events_skipped;
  calendars_synced = l.calendars_synced;
  events_processed = l.events_processed;
  duration = if ltb 0 l.duration then some l.duration else none;
  created_at = l.created_at;
}
