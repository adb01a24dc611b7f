-- ===== src/Web/Isolation/Handlers.antt =====
-- Every request of one user leaves the rows of another.
use calbridge.Common.{
  ℕ, ◌-◌, ◌%◌, ◌≡◌, refl, inl, inr, Text, codes, List, [], ◌∷◌, Option, none, some, Bool, true,
  false, ◌==◌, Bool-cases,
}
use calbridge.Store.{SyncLog, query, found, exec, affected, SourceRow, UserAlertPreferences, Tables}
use calbridge.Store.Rules.{Keeps-bind, Keeps-query, Keeps-found, Keeps-affected}
use calbridge.Store.Sources.{get_source_by_id_for_user, get_sources_by_user_id}
use calbridge.Store.Syncs.{get_sync_logs}
use calbridge.Store.Malformed.{
  get_malformed_events, get_malformed_event_by_id_for_user, delete_malformed_event,
  delete_all_malformed_events_for_user,
}
use calbridge.Store.Preferences.{get_user_alert_preferences, upsert_user_alert_preferences}
use calbridge.Store.Consistency.Tables.{Distinct}
use calbridge.Store.Consistency.Statements.{source_clash}
use calbridge.Web.{World, Session, Config, Outside, Reply, with_session}
use calbridge.Web.Views.{Body}
use calbridge.Web.Rules.{Ends, Ends-with_body}
use calbridge.Web.Sources.{api_list_sources, api_get_source, api_trigger_sync}
use calbridge.Web.Logs.{
  logs_reply, paginate, page_number, day, api_get_source_logs, api_dashboard_stats,
  api_get_activity, api_auth_status,
}
use calbridge.Web.Malformed.{
  api_get_malformed_events, api_delete_malformed_event, api_delete_all_malformed_events,
}
use calbridge.Web.Alerts.{
  PreferencesRequest, save_preferences, send_test, send_test_webhook, stored_preferences,
  api_get_alert_preferences, api_update_alert_preferences, api_test_webhook,
}
use calbridge.Notify.Urls.{validate_webhook_url}
use calbridge.Activity.{Tracker}
use calbridge.Web.Requests.{
  Request, list_sources, get_source, delete_source, toggle_source, trigger_sync, create_source,
  update_source, get_logs, dashboard_stats, get_activity, auth_status, get_malformed,
  delete_malformed, delete_all_malformed, get_preferences, update_preferences, test_webhook, serve,
}
use calbridge.Web.Isolation.Rows.{rows_of}
use calbridge.Web.Isolation.Calls.{upsert_preferences-Stay}
use calbridge.Web.Isolation.Answers.{
  Left, get_source-Keeps, get_sources-Keeps, get_sync_logs-Keeps, remove_malformed-Keeps,
  show_source-E, answers-E, syncs_after-Q, unless_url-E, list-E,
}
use calbridge.Web.Isolation.Writes.{with_source-E, delete-E, toggle-E, update-E, create-E}

module _ (out : Outside) (session : Session) (other : Text)
    (apart : (session.user_id == other) ≡ false)
    (v : List SourceRow × List UserAlertPreferences) where
  abbrev Q : Tables → Type 0
  Q t = rows_of other t ≡ v

  abbrev P : Body → World → Type 0
  P body w = Q w.db.tables

  abbrev N : World → Type 0
  N w = Q w.db.tables

  abbrev E : Reply → Type 0
  E = Left other v

  logs_reply-E :
      (page pages : ℕ) (o : Option (List SyncLog)) (w : World)
      → Q w.db.tables
      → E (logs_reply page pages o w)
  unfolding logs_reply
  logs_reply-E page pages none w q = q
  logs_reply-E page pages (some logs) w q = q

  module _ (w : World) (q : Q w.db.tables)
      (distinct : Distinct source_clash w.db.tables.sources) where
    logs-E : (id : Text) (page : Option ℕ) → E (api_get_source_logs out (some session) id page w)
    unfolding api_get_source_logs
    logs-E id page = with_source-E out session other apart v w q distinct id _ (λ s db same own q'.
        answers-E other v (record w { db = db }) q' 500 (codes "Failed to load logs")
          (get_sync_logs id 1000) _ (get_sync_logs-Keeps Q id 1000)
          (λ logs w' q''.
            logs_reply-E (page_number page) _ (paginate (page_number page) logs) w' q''))

    stats-E : E (api_dashboard_stats out (some session) w)
    unfolding api_dashboard_stats with_session
    stats-E =
        answers-E other v w q 500 (codes "Failed to load sources")
          (get_sources_by_user_id out.json session.user_id) _
          (get_sources-Keeps Q out session.user_id)
          (λ ss w' q'. syncs_after-Q other v (w'.db.clock - w'.db.clock % day) ss w'.db q')

    activity-E : (tracker : Option Tracker) → E (api_get_activity out tracker (some session) w)
    unfolding api_get_activity with_session
    activity-E none = q
    activity-E (some tracker) =
        answers-E other v w q 500 (codes "Failed to load sources")
          (get_sources_by_user_id out.json session.user_id) _
          (get_sources-Keeps Q out session.user_id) (λ ss w' q'. q')

    malformed-E : (id : Text) → E (api_delete_malformed_event out (some session) id w)
    unfolding api_delete_malformed_event with_session get_malformed_event_by_id_for_user
        delete_malformed_event
    malformed-E id =
        answers-E other v w q 404 (codes "Malformed event not found")
          (get_malformed_event_by_id_for_user id session.user_id) _
          (Keeps-bind Q (query _) found (Keeps-query Q _) (Keeps-found Q))
          (λ event w₁ q₁.
            answers-E other v w₁ q₁ 404 (codes "Source not found")
              (get_source_by_id_for_user out.json event.source_id session.user_id) _
              (get_source-Keeps Q out event.source_id session.user_id)
              (λ s w₂ q₂.
                answers-E other v w₂ q₂ 500 (codes "Failed to delete malformed event")
                  (delete_malformed_event id) _
                  (Keeps-bind Q (exec _) affected (remove_malformed-Keeps other v _)
                    (Keeps-affected Q))
                  (λ t w₃ q₃. q₃)))

    negative-E : (r : PreferencesRequest) → E (save_preferences out session.user_id r w)
    unfolding save_preferences stored_preferences
    negative-E r = elim (Bool-cases r.is_negative) [
      | inl e ↦ rw e q
      | inr e ↦ rw e (
          answers-E other v w q 500 (codes "Failed to save preferences")
            (upsert_user_alert_preferences (stored_preferences session.user_id r.asked)) _
            (upsert_preferences-Stay session.user_id other apart v
              (stored_preferences session.user_id r.asked) refl)
            (λ t w' q'. q'))
    ]

    preferences-E :
        (r : Option PreferencesRequest) → E (api_update_alert_preferences out (some session) r w)
    unfolding api_update_alert_preferences with_session
    preferences-E request =
        Ends-with_body P N Unit w (λ why. q) request _
          (λ r. unless_url-E other v _ w _ q (negative-E r))

    sent-E : (is_sent : Bool) → E (send_test_webhook is_sent w)
    unfolding send_test_webhook
    sent-E true = q
    sent-E false = q

    send_test-E : (is_sent : Bool) (url : Text) → E (send_test out.notify is_sent url w)
    unfolding send_test
    send_test-E is_sent [] = q
    send_test-E is_sent (c ∷ cs) =
        unless_url-E other v (validate_webhook_url out.notify (c ∷ cs)) w
          (send_test_webhook is_sent w) q (sent-E is_sent)

    serve-E : (cfg : Config) (request : Request) → E (serve out cfg (some session) request w)
    unfolding serve with_session api_list_sources api_get_source api_trigger_sync
        api_get_malformed_events api_delete_all_malformed_events api_get_alert_preferences
        api_test_webhook get_malformed_events delete_all_malformed_events_for_user
        get_user_alert_preferences api_auth_status
    serve-E cfg list_sources =
        answers-E other v w q 500 (codes "Failed to load sources")
          (get_sources_by_user_id out.json session.user_id) _
          (get_sources-Keeps Q out session.user_id) (list-E other v)
    serve-E cfg (get_source id) =
        with_source-E out session other apart v w q distinct id _
          (λ s db same own q'. show_source-E other v 200 s _ q')
    serve-E cfg (delete_source id) = delete-E out session other apart v w q distinct id
    serve-E cfg (toggle_source id) = toggle-E out session other apart v w q distinct id
    serve-E cfg (trigger_sync id) =
        with_source-E out session other apart v w q distinct id _ (λ s db same own q'. q')
    serve-E cfg (create_source r) = create-E out session other apart v w q distinct cfg r
    serve-E cfg (update_source id r) = update-E out session other apart v w q distinct id r
    serve-E cfg (get_logs id page) = logs-E id page
    serve-E cfg dashboard_stats = stats-E
    serve-E cfg (get_activity tracker) = activity-E tracker
    serve-E cfg auth_status = q
    serve-E cfg get_malformed =
        answers-E other v w q 500 (codes "Failed to get malformed events")
          (get_malformed_events session.user_id) _ (Keeps-query Q _) (λ events w' q'. q')
    serve-E cfg (delete_malformed id) = malformed-E id
    serve-E cfg delete_all_malformed =
        answers-E other v w q 500 (codes "Failed to delete malformed events")
          (delete_all_malformed_events_for_user session.user_id) _
          (remove_malformed-Keeps other v _) (λ n w' q'. q')
    serve-E cfg get_preferences =
        answers-E other v w q 500 (codes "Failed to load preferences")
          (get_user_alert_preferences session.user_id) _ (Keeps-query Q _) (λ p w' q'. q')
    serve-E cfg (update_preferences r) = preferences-E r
    serve-E cfg (test_webhook is_sent url) =
        Ends-with_body P N Unit w (λ why. q) url _ (λ u. send_test-E is_sent u)

-- The reply leaves the rows of the user as they were.
unfoldable pub IsLeft : Text → World → Reply → Type 0
unfolding rows_of
IsLeft other w =
    Ends (λ body w'. rows_of other w'.db.tables ≡ rows_of other w.db.tables)
      (λ w'. rows_of other w'.db.tables ≡ rows_of other w.db.tables) Unit

-- A request of one user, whatever it asks for and however it ends, leaves the sources and the alert
-- preferences of every other user as they are, where no two sources have the same identifier.
pub serve-IsLeft :
    (out : Outside) (cfg : Config) (session : Session) (other : Text) (request : Request)
    (w : World)
    → (session.user_id == other) ≡ false
    → Distinct source_clash w.db.tables.sources
    → IsLeft other w (serve out cfg (some session) request w)
unfolding IsLeft
serve-IsLeft out cfg session other request w apart distinct =
    serve-E out session other apart (rows_of other w.db.tables) w refl distinct cfg request
