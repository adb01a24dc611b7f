-- ===== src/Web/Requests.antt =====
-- The requests of the JSON API, and how each is served.
use calbridge.Common.{ℕ, Text, Option, Bool}
use calbridge.Activity.{Tracker}
use calbridge.Web.{World, Session, Config, Outside, Reply}
use calbridge.Web.Sources.{
  SourceRequest, api_list_sources, api_get_source, api_create_source, api_update_source,
  api_delete_source, api_toggle_source, api_trigger_sync,
}
use calbridge.Web.Logs.{api_get_source_logs, api_dashboard_stats, api_get_activity, api_auth_status}
use calbridge.Web.Malformed.{
  api_get_malformed_events, api_delete_malformed_event, api_delete_all_malformed_events,
}
use calbridge.Web.Alerts.{
  PreferencesRequest, api_get_alert_preferences, api_update_alert_preferences, api_test_webhook,
}

pub data Request : Type 0 where
  list_sources : Request
  get_source delete_source toggle_source trigger_sync : Text → Request
  create_source : Option SourceRequest → Request
  update_source : Text → Option SourceRequest → Request
  get_logs : Text → Option ℕ → Request
  dashboard_stats : Request
  get_activity : Option Tracker → Request
  auth_status : Request
  get_malformed : Request
  delete_malformed : Text → Request
  delete_all_malformed : Request
  get_preferences : Request
  update_preferences : Option PreferencesRequest → Request
  test_webhook : Bool → Option Text → Request

unfoldable pub serve : Outside → Config → Option Session → Request → World → Reply
unfolding api_list_sources api_get_source api_create_source api_update_source api_delete_source
    api_toggle_source api_trigger_sync api_get_source_logs api_dashboard_stats api_get_activity
    api_get_malformed_events api_delete_malformed_event api_delete_all_malformed_events
    api_get_alert_preferences api_update_alert_preferences api_test_webhook
serve out cfg session list_sources w = api_list_sources out session w
serve out cfg session (get_source id) w = api_get_source out session id w
serve out cfg session (delete_source id) w = api_delete_source out session id w
serve out cfg session (toggle_source id) w = api_toggle_source out session id w
serve out cfg session (trigger_sync id) w = api_trigger_sync out session id w
serve out cfg session (create_source r) w = api_create_source out cfg session r w
serve out cfg session (update_source id r) w = api_update_source out session id r w
serve out cfg session (get_logs id page) w = api_get_source_logs out session id page w
serve out cfg session dashboard_stats w = api_dashboard_stats out session w
serve out cfg session (get_activity tracker) w = api_get_activity out tracker session w
serve out cfg session auth_status w = api_auth_status session w
serve out cfg session get_malformed w = api_get_malformed_events session w
serve out cfg session (delete_malformed id) w = api_delete_malformed_event out session id w
serve out cfg session delete_all_malformed w = api_delete_all_malformed_events session w
serve out cfg session get_preferences w = api_get_alert_preferences session w
serve out cfg session (update_preferences r) w = api_update_alert_preferences out session r w
serve out cfg session (test_webhook is_sent url) w = api_test_webhook out session is_sent url w
