-- ===== src/Store/Consistency/Calls.antt =====
-- The calls of internal/db/queries.go that change the tables, and their histories.
use calbridge.Common.{ℕ, ◌≡◌, Text, List, [], ◌∷◌, true, All}
use calbridge.Store.{Source, SyncState, SyncLog, SyncedEvent, UserAlertPreferences, Db}
use calbridge.Store.Calendars.{Json}
use calbridge.Store.Users.{get_or_create_user}
use calbridge.Store.Sources.{
  create_source, update_source, update_source_sync_status, reset_running_sync_statuses,
  delete_source,
}
use calbridge.Store.Syncs.{
  upsert_sync_state, create_sync_log, clean_old_sync_logs, upsert_synced_event, delete_synced_event,
  delete_synced_events_for_calendar,
}
use calbridge.Store.Malformed.{
  save_malformed_event, delete_malformed_event, clear_malformed_events_for_source,
  delete_all_malformed_events_for_user,
}
use calbridge.Store.Preferences.{upsert_user_alert_preferences}
use calbridge.Store.Consistency.Statements.{IsConsistent}

pub data Call : Type 0 where
  log_in : Text → Text → Call
  add_source change_source : Source → Call
  set_status : Text → Text → Text → Call
  reset_running : Call
  drop_source : Text → Call
  save_state : SyncState → Call
  save_log : SyncLog → Call
  clean_logs : ℕ → Call
  save_event : SyncedEvent → Call
  drop_event : Text → Text → Text → Call
  drop_calendar : Text → Text → Call
  save_malformed : Text → Text → Text → Call
  drop_malformed clear_malformed drop_all_malformed : Text → Call
  save_preferences : UserAlertPreferences → Call

-- The database after a call, whatever it returns.
unfoldable pub run : Json → Call → Db → Db
unfolding get_or_create_user create_source update_source update_source_sync_status
    reset_running_sync_statuses delete_source upsert_sync_state create_sync_log clean_old_sync_logs
    upsert_synced_event delete_synced_event delete_synced_events_for_calendar save_malformed_event
    delete_malformed_event clear_malformed_events_for_source delete_all_malformed_events_for_user
    upsert_user_alert_preferences
run json (log_in email name) db = (get_or_create_user email name db).1
run json (add_source s) db = (create_source json s db).1
run json (change_source s) db = (update_source json s db).1
run json (set_status id status message) db = (update_source_sync_status id status message db).1
run json reset_running db = (reset_running_sync_statuses db).1
run json (drop_source id) db = (delete_source id db).1
run json (save_state s) db = (upsert_sync_state s db).1
run json (save_log l) db = (create_sync_log l db).1
run json (clean_logs older_than) db = (clean_old_sync_logs older_than db).1
run json (save_event e) db = (upsert_synced_event e db).1
run json (drop_event source_id href uid) db = (delete_synced_event source_id href uid db).1
run json (drop_calendar source_id href) db = (delete_synced_events_for_calendar source_id href db).1
run json (save_malformed source_id path message) db =
    (save_malformed_event source_id path message db).1
run json (drop_malformed id) db = (delete_malformed_event id db).1
run json (clear_malformed source_id) db = (clear_malformed_events_for_source source_id db).1
run json (drop_all_malformed user_id) db = (delete_all_malformed_events_for_user user_id db).1
run json (save_preferences p) db = (upsert_user_alert_preferences p db).1

unfoldable pub run_all : Json → List Call → Db → Db
unfolding run
run_all json [] db = db
run_all json (c ∷ cs) db = run_all json cs (run json c db)

-- Every connection enforces the foreign keys, and the tables are consistent.
unfoldable pub IsSound : Db → Type 0
unfolding IsConsistent
IsSound db = All (λ c. c.foreign_keys ≡ true) db.conns × IsConsistent db.tables
