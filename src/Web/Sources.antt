-- ===== src/Web/Sources.antt =====
-- The handlers of the sources.
use calbridge.Common.{
  ℕ, Text, codes, List, [], ◌∷◌, ◌++◌, map, Option, none, some, Bool, true, false, not, ◌||◌, ◌&&◌,
  if◌then◌else◌,
}
use calbridge.Store.{Source, CalendarConfig}
use calbridge.Store.Sources.{
  get_source_by_id_for_user, get_sources_by_user_id, create_source, update_source, delete_source,
}
use calbridge.Scheduler.{to_duration, Outcome, add_job, remove_job, update_job_interval}
use calbridge.Crypto.{encrypt, done, refused}
use calbridge.Crypto
use calbridge.Web.{
  World, Session, Config, Outside, Reply, reply, waits, or_reply, after, with_session, with_body,
  unless,
}
use calbridge.Web.Views.{error, message, one_source, many_sources, source_to_api_with_scheduler}
use calbridge.Web.Inputs.{
  is_empty, Fields, validate_source_input, check_passwords, categorize_connection_error,
  clamp_interval, default_days, or_kept,
}

-- Both requests, to create a source and to update it.
pub record SourceRequest : Type 0 where
  pub name : Text
  pub source_type : Text
  pub source_url : Text
  pub source_username : Text
  pub source_password : Text
  pub dest_url : Text
  pub dest_username : Text
  pub dest_password : Text
  pub sync_interval : ℕ
  pub sync_days_past : ℕ
  pub sync_direction : Text
  pub conflict_strategy : Text
  pub selected_calendars : List CalendarConfig

-- GetNextSyncAt waits for the mutex.
unfoldable pub show_source : ℕ → Source → World → Reply
unfolding source_to_api_with_scheduler
show_source status s w =
    if s.enabled && w.scheduler.mu
    then waits
    else reply status (one_source (source_to_api_with_scheduler w.db.clock w.scheduler s)) w

unfoldable pub any_enabled : List Source → Bool
any_enabled [] = false
any_enabled (s ∷ ss) = s.enabled || any_enabled ss

unfoldable pub show_sources : List Source → World → Reply
unfolding any_enabled source_to_api_with_scheduler
show_sources ss w =
    if any_enabled ss && w.scheduler.mu
    then waits
    else reply 200 (many_sources (map (source_to_api_with_scheduler w.db.clock w.scheduler) ss)) w

unfoldable pub api_list_sources : Outside → Option Session → World → Reply
unfolding show_sources
api_list_sources out session w = with_session session w (λ u.
    or_reply 500 (codes "Failed to load sources") (get_sources_by_user_id out.json u.user_id) w
      show_sources)

-- The source of the user, or the answer that it is not found.
unfoldable pub with_source :
    Outside → Option Session → Text → World → (Source → World → Reply) → Reply
with_source out session id w k = with_session session w (λ u.
    or_reply 404 (codes "Source not found") (get_source_by_id_for_user out.json id u.user_id) w k)

unfoldable pub api_get_source : Outside → Option Session → Text → World → Reply
unfolding with_source show_source
api_get_source out session id w = with_source out session id w (show_source 200)

unfoldable pub fields : SourceRequest → Fields
fields r = record {
  name = r.name;
  source_type = r.source_type;
  sync_direction = r.sync_direction;
  conflict_strategy = r.conflict_strategy;
  source_url = r.source_url;
  dest_url = r.dest_url;
  source_username = r.source_username;
  dest_username = r.dest_username;
}

unfoldable pub missing_fields : SourceRequest → Option Text
unfolding is_empty
missing_fields r =
    if is_empty r.name
      || is_empty r.source_url
      || is_empty r.source_username
      || is_empty r.source_password
    then some (codes "Missing required fields")
    else none

unfoldable pub connection_error : Outside → Text → Option Text → Option Text
unfolding categorize_connection_error
connection_error out prefix none = none
connection_error out prefix (some e) = some (prefix ++ categorize_connection_error (out.to_lower e))

unfoldable pub test_source : Outside → SourceRequest → Option Text
unfolding connection_error
test_source out r =
    connection_error out (codes "Failed to connect to source: ")
      (out.test_connection r.source_url r.source_username r.source_password)

-- The destination is tested where all of it is given.
unfoldable pub test_destination : Outside → SourceRequest → Option Text
unfolding connection_error is_empty
test_destination out r =
    if is_empty r.dest_url || is_empty r.dest_username || is_empty r.dest_password
    then none
    else connection_error out (codes "Failed to connect to destination: ")
        (out.test_connection r.dest_url r.dest_username r.dest_password)

-- An encrypted password.
unfoldable pub with_encrypted : Crypto.Result → World → (Text → Reply) → Reply
with_encrypted (done t) w k = k t
with_encrypted (refused e) w k = reply 500 (error (codes "Failed to encrypt credentials")) w

unfoldable pub new_source : Config → Text → SourceRequest → Text → Text → Source
unfolding clamp_interval default_days
new_source cfg user_id r source_password dest_password = record {
  id = [];
  user_id = user_id;
  name = r.name;
  source_type = r.source_type;
  source_url = r.source_url;
  source_username = r.source_username;
  source_password = source_password;
  dest_url = r.dest_url;
  dest_username = r.dest_username;
  dest_password = dest_password;
  sync_interval = clamp_interval cfg.min_interval cfg.max_interval r.sync_interval;
  sync_days_past = default_days r.sync_days_past;
  sync_direction = r.sync_direction;
  conflict_strategy = r.conflict_strategy;
  selected_calendars = r.selected_calendars;
  enabled = true;
  last_sync_at = none;
  last_sync_status = [];
  last_sync_message = [];
  created_at = 0;
  updated_at = 0;
}

-- What follows the checks and the encryption.
unfoldable pub store_new_source : Outside → Source → World → Reply
unfolding to_duration show_source
store_new_source out source w =
    or_reply 500 (codes "Failed to create source") (create_source out.json source) w (λ s w'.
      after (add_job s.id (to_duration s.sync_interval) w'.db.clock w'.scheduler) w'
        (show_source 201 s))

unfoldable pub api_create_source :
    Outside → Config → Option Session → Option SourceRequest → World → Reply
unfolding missing_fields fields validate_source_input check_passwords test_source test_destination
    new_source store_new_source
api_create_source out cfg session request w = with_session session w (λ u. with_body request w (λ r.
    unless (missing_fields r) w (
      unless (validate_source_input (fields r)) w (
        unless (check_passwords r.source_password r.dest_password) w (
          unless (test_source out r) w (
            unless (test_destination out r) w (
              with_encrypted (encrypt out.crypto out.gcm out.random r.source_password) w
                (λ source_password.
                  with_encrypted (encrypt out.crypto out.gcm out.later_random r.dest_password) w
                    (λ dest_password.
                      store_new_source out
                        (new_source cfg u.user_id r source_password dest_password) w)))))))))

-- A password that is given replaces the one that is stored.
unfoldable pub with_new_password :
    Outside → Option Text → Text → Text → World → (Text → Reply) → Reply
unfolding with_encrypted
with_new_password out random [] stored w k = k stored
with_new_password out random (c ∷ cs) stored w k =
    with_encrypted (encrypt out.crypto out.gcm random (c ∷ cs)) w k

unfoldable pub changed_source : SourceRequest → Source → Text → Text → Source
unfolding or_kept
changed_source r s source_password dest_password = record s {
  name = r.name;
  source_type = r.source_type;
  source_url = r.source_url;
  source_username = r.source_username;
  source_password = source_password;
  dest_url = r.dest_url;
  dest_username = r.dest_username;
  dest_password = dest_password;
  sync_direction = r.sync_direction;
  conflict_strategy = r.conflict_strategy;
  selected_calendars = r.selected_calendars;
  sync_interval = or_kept s.sync_interval r.sync_interval;
  sync_days_past = or_kept s.sync_days_past r.sync_days_past;
}

unfoldable pub update_job : Outside → Source → World → Reply
unfolding to_duration show_source
update_job out s w =
    after (update_job_interval s.id (to_duration s.sync_interval) w.db.clock w.scheduler) w
      (show_source 200 s)

unfoldable pub store_changed_source : Outside → Source → World → Reply
unfolding update_job
store_changed_source out source w =
    or_reply 500 (codes "Failed to update source") (update_source out.json source) w
      (update_job out)

unfoldable pub api_update_source :
    Outside → Option Session → Text → Option SourceRequest → World → Reply
unfolding with_source fields validate_source_input check_passwords changed_source
    store_changed_source
api_update_source out session id request w = with_source out session id w (λ s w'.
    with_body request w' (λ r. unless (validate_source_input (fields r)) w' (
      unless (check_passwords r.source_password r.dest_password) w' (
        with_new_password out out.random r.source_password s.source_password w' (λ source_password.
          with_new_password out out.later_random r.dest_password s.dest_password w'
            (λ dest_password.
              store_changed_source out (changed_source r s source_password dest_password) w'))))))

unfoldable pub api_delete_source : Outside → Option Session → Text → World → Reply
unfolding with_source
api_delete_source out session id w = with_source out session id w (λ s w'.
    after (remove_job id w'.scheduler) w' (λ w''.
      or_reply 500 (codes "Failed to delete source") (delete_source id) w''
        (λ u w₃. reply 200 (message (codes "Source deleted")) w₃)))

-- The job of a source that is now enabled, or no longer.
unfoldable pub follow_enabled : Source → World → Outcome
unfolding to_duration
follow_enabled s w =
    if s.enabled
    then add_job s.id (to_duration s.sync_interval) w.db.clock w.scheduler
    else remove_job s.id w.scheduler

unfoldable pub api_toggle_source : Outside → Option Session → Text → World → Reply
unfolding with_source follow_enabled show_source
api_toggle_source out session id w = with_source out session id w (λ s w'.
    or_reply 500 (codes "Failed to update source")
      (update_source out.json (record s { enabled = not s.enabled })) w'
      (λ s' w''. after (follow_enabled s' w'') w'' (show_source 200 s')))

-- The goroutine of TriggerSync runs the sync later.
unfoldable pub api_trigger_sync : Outside → Option Session → Text → World → Reply
unfolding with_source
api_trigger_sync out session id w = with_source out session id w (λ s w'.
    reply 200 (message (codes "Sync triggered")) (record w' { triggered = id ∷ w'.triggered }))
