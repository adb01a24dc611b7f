-- ===== src/Store/Consistency/Histories.antt =====
-- Every history of calls keeps the tables consistent, where the connections enforce the foreign keys.
use calbridge.Common.{
  ◌==◌, ℕ, zero, suc, ◌≡◌, refl, inl, inr, Text, List, [], ◌∷◌, Option, none, some, true, ◌==◌, All,
  Bool-cases,
}
use calbridge.Store.{
  User, SyncState, SyncedEvent, UserAlertPreferences, Conn, Tables, Db, not_found, failed, Result,
  ok, err, M, ◌>>=◌, ◌>>◌, go_on, return, Statement, settle, first_conn, rest_conns, exec, query,
  found, affected, read_clock, new_uuid, id_or_new,
}
use calbridge.Store.Calendars.{Json}
use calbridge.Store.Users.{get_user_by_email, create_user, or_create, get_or_create_user}
use calbridge.Store.Sources.{
  as_created, create_source, update_source, update_source_sync_status, reset_running_sync_statuses,
  delete_source, write_columns, to_row,
}
use calbridge.Store.Syncs.{
  upsert_sync_state, insert_state_if_none, create_sync_log, clean_old_sync_logs,
  upsert_synced_event, insert_event_if_none, delete_synced_event, delete_synced_events_for_calendar,
}
use calbridge.Store.Malformed.{
  save_malformed_event, delete_malformed_event, clear_malformed_events_for_source,
  delete_all_malformed_events_for_user,
}
use calbridge.Store.Preferences.{upsert_user_alert_preferences, insert_preferences_if_none}
use calbridge.Store.Sources.{delete_source_rows}
use calbridge.Store.Malformed.{remove_malformed}
use calbridge.Store.Consistency.Statements.{
  After, Keeps, insert_user-Keeps, insert_source-Keeps, update_sources-Keeps,
  delete_source_rows-Keeps, update_state-Keeps, insert_state-Keeps, insert_log-Keeps,
  remove_logs-Keeps, update_event-Keeps, insert_event-Keeps, remove_events-Keeps,
  replace_event-Keeps, remove_malformed-Keeps, update_preferences-Keeps, insert_preferences-Keeps,
}
use calbridge.Store.Consistency.Calls.{
  Call, log_in, add_source, change_source, set_status, reset_running, drop_source, save_state,
  save_log, clean_logs, save_event, drop_event, drop_calendar, save_malformed, drop_malformed,
  clear_malformed, drop_all_malformed, save_preferences, run, run_all, IsSound,
}

-- A computation that keeps the database sound.
Safe : {A : Type 0} → M A → Type 0
unfolding IsSound
Safe m = (db : Db) → IsSound db → IsSound (m db).1

Safe-go_on :
    {A B : Type 0} (r : Result A × Db) (f : A → M B)
    → IsSound r.1
    → ((a : A) → Safe (f a))
    → IsSound (go_on r f).1
unfolding Safe
Safe-go_on (ok a, db) f h k = k a db h
Safe-go_on (err e, db) f h k = h

Safe-bind :
    {A B : Type 0} (m : M A) (f : A → M B) → Safe m → ((a : A) → Safe (f a)) → Safe (m >>= f)
unfolding Safe
Safe-bind m f h k db sound = Safe-go_on (m db) f (h db sound) k

Safe-return : {A : Type 0} (a : A) → Safe (return a)
unfolding Safe
Safe-return a db h = h

All-rest_conns :
    (cs : List Conn)
    → All (λ c. c.foreign_keys ≡ true) cs
    → All (λ c. c.foreign_keys ≡ true) (rest_conns cs)
unfolding rest_conns
All-rest_conns [] h = tt
All-rest_conns (c ∷ cs) h = h.1

first_conn-foreign_keys :
    (cs : List Conn) → All (λ c. c.foreign_keys ≡ true) cs → (first_conn cs).foreign_keys ≡ true
unfolding first_conn
first_conn-foreign_keys [] h = refl
first_conn-foreign_keys (c ∷ cs) h = h.0

Safe-settle : (o : Option (ℕ × Tables)) (db : Db) → IsSound db → After o → IsSound (settle o db).1
unfolding IsSound After
Safe-settle none db h k = h
Safe-settle (some (n, t)) db h k = (h.0, k)

Safe-exec : (s : Statement) → Keeps s → Safe (exec s)
unfolding Safe IsSound Keeps exec
Safe-exec s k db h =
    let rest = All-rest_conns db.conns h.0 in
    elim (Bool-cases (first_conn db.conns).answers) [
      | inl e ↦
          rw (e, first_conn-foreign_keys db.conns h.0)
            (Safe-settle _ _ (rest, h.1) (k db.tables h.1))
      | inr e ↦ rw e (rest, h.1)
    ]

Safe-query : {A : Type 0} (read : Tables → A) → Safe (query read)
unfolding Safe IsSound query
Safe-query read db h =
    let rest = All-rest_conns db.conns h.0 in
    elim (Bool-cases (first_conn db.conns).answers) [
      | inl e ↦ rw e (rest, h.1)
      | inr e ↦ rw e (rest, h.1)
    ]

Safe-found : {A : Type 0} (o : Option A) → Safe (found o)
unfolding Safe found
Safe-found none db h = h
Safe-found (some a) db h = h

Safe-affected : (n : ℕ) → Safe (affected n)
unfolding Safe affected
Safe-affected zero db h = h
Safe-affected (suc n) db h = h

Safe-read_clock : Safe read_clock
unfolding Safe read_clock
Safe-read_clock db h = h

Safe-new_uuid : Safe new_uuid
unfolding Safe IsSound new_uuid
Safe-new_uuid db h = h

Safe-id_or_new : (id : Text) → Safe (id_or_new id)
unfolding Safe IsSound id_or_new new_uuid
Safe-id_or_new [] db h = h
Safe-id_or_new (c ∷ cs) db h = h

-- A statement, then a pure result.
Safe-exec-return : {B : Type 0} (s : Statement) (b : B) → Keeps s → Safe (exec s >>= λ n. return b)
Safe-exec-return s b k = Safe-bind (exec s) (λ n. return b) (Safe-exec s k) (λ n. Safe-return b)

-- A statement that must affect a row.
Safe-exec-affected :
    {B : Type 0} (s : Statement) (b : B) → Keeps s → Safe (exec s >>= λ n. affected n >> return b)
Safe-exec-affected s b k =
    Safe-bind (exec s) _ (Safe-exec s k)
      (λ n. Safe-bind (affected n) _ (Safe-affected n) (λ u. Safe-return b))

Safe-affecting : (s : Statement) → Keeps s → Safe (exec s >>= affected)
Safe-affecting s k = Safe-bind (exec s) affected (Safe-exec s k) Safe-affected

-- The clock is read first.
Safe-now : {B : Type 0} (f : ℕ → M B) → ((now : ℕ) → Safe (f now)) → Safe (read_clock >>= f)
Safe-now f k = Safe-bind read_clock f Safe-read_clock k

Safe-create_user : (email name : Text) → Safe (create_user email name)
unfolding create_user
Safe-create_user email name =
    Safe-bind new_uuid _ Safe-new_uuid
      (λ id. Safe-now _ (λ now. Safe-exec-return _ _ (insert_user-Keeps _)))

Safe-or_create :
    (email name : Text) (r : Result User × Db) → IsSound r.1 → IsSound (or_create email name r).1
unfolding Safe
Safe-or_create email name (ok u, db) h = h
Safe-or_create email name (err not_found, db) h = Safe-create_user email name db h
Safe-or_create email name (err failed, db) h = h

Safe-get_user_by_email : (email : Text) → Safe (get_user_by_email email)
unfolding get_user_by_email
Safe-get_user_by_email email = Safe-bind _ found (Safe-query _) Safe-found

Safe-insert_state_if_none : (s : SyncState) (now n : ℕ) → Safe (insert_state_if_none s now n)
Safe-insert_state_if_none s now zero =
    Safe-bind (id_or_new s.id) _ (Safe-id_or_new s.id)
      (λ id. Safe-exec-return _ tt (insert_state-Keeps _))
Safe-insert_state_if_none s now (suc n) = Safe-return tt

Safe-insert_event_if_none : (e : SyncedEvent) (now n : ℕ) → Safe (insert_event_if_none e now n)
Safe-insert_event_if_none e now zero =
    Safe-bind (id_or_new e.id) _ (Safe-id_or_new e.id)
      (λ id. Safe-exec-return _ tt (insert_event-Keeps _))
Safe-insert_event_if_none e now (suc n) = Safe-return tt

Safe-insert_preferences_if_none :
    (p : UserAlertPreferences) (now n : ℕ) → Safe (insert_preferences_if_none p now n)
Safe-insert_preferences_if_none p now zero =
    Safe-bind (id_or_new p.id) _ (Safe-id_or_new p.id)
      (λ id. Safe-exec-return _ tt (insert_preferences-Keeps _))
Safe-insert_preferences_if_none p now (suc n) = Safe-return tt

run-IsSound : (json : Json) (c : Call) (db : Db) → IsSound db → IsSound (run json c db)
unfolding run Safe get_or_create_user create_source update_source update_source_sync_status
    reset_running_sync_statuses delete_source upsert_sync_state create_sync_log clean_old_sync_logs
    upsert_synced_event delete_synced_event delete_synced_events_for_calendar save_malformed_event
    delete_malformed_event clear_malformed_events_for_source delete_all_malformed_events_for_user
    upsert_user_alert_preferences write_columns to_row as_created
run-IsSound json (log_in email name) db h =
    Safe-or_create email name (get_user_by_email email db) (Safe-get_user_by_email email db h)
run-IsSound json (add_source s) db h =
    Safe-bind (id_or_new s.id) _ (Safe-id_or_new s.id)
      (λ id.
        Safe-now _
          (λ now. Safe-exec-return _ _ (insert_source-Keeps (to_row json (as_created s id now)))))
      db h
run-IsSound json (change_source s) db h =
    Safe-now _ (λ now. Safe-exec-affected _ _ (update_sources-Keeps _ _ (λ r. (refl, refl)))) db h
run-IsSound json (set_status id status message) db h =
    Safe-now _ (λ now. Safe-affecting _ (update_sources-Keeps _ _ (λ r. (refl, refl)))) db h
run-IsSound json reset_running db h =
    Safe-now _ (λ now. Safe-exec _ (update_sources-Keeps _ _ (λ r. (refl, refl)))) db h
run-IsSound json (drop_source id) db h =
    Safe-affecting (delete_source_rows id) (delete_source_rows-Keeps id) db h
run-IsSound json (save_state s) db h =
    Safe-now _
      (λ now.
        Safe-bind _ _ (Safe-exec _ (update_state-Keeps s now)) (Safe-insert_state_if_none s now))
      db h
run-IsSound json (save_log l) db h =
    Safe-bind (id_or_new l.id) _ (Safe-id_or_new l.id)
      (λ id. Safe-now _ (λ now. Safe-exec-return _ tt (insert_log-Keeps _))) db h
run-IsSound json (clean_logs older_than) db h = Safe-exec _ (remove_logs-Keeps _) db h
run-IsSound json (save_event e) db h =
    Safe-now _
      (λ now.
        Safe-bind _ _ (Safe-exec _ (update_event-Keeps e now)) (Safe-insert_event_if_none e now))
      db h
run-IsSound json (drop_event source_id href uid) db h =
    Safe-exec-return _ tt (remove_events-Keeps _) db h
run-IsSound json (drop_calendar source_id href) db h =
    Safe-exec-return _ tt (remove_events-Keeps _) db h
run-IsSound json (save_malformed source_id path message) db h =
    Safe-bind new_uuid _ Safe-new_uuid
      (λ id. Safe-now _ (λ now. Safe-exec-return _ tt (replace_event-Keeps _))) db h
run-IsSound json (drop_malformed id) db h =
    Safe-affecting (remove_malformed (λ t m. m.id == id)) (remove_malformed-Keeps _) db h
run-IsSound json (clear_malformed source_id) db h =
    Safe-exec-return _ tt (remove_malformed-Keeps _) db h
run-IsSound json (drop_all_malformed user_id) db h = Safe-exec _ (remove_malformed-Keeps _) db h
run-IsSound json (save_preferences p) db h =
    Safe-now _
      (λ now.
        Safe-bind _ _ (Safe-exec _ (update_preferences-Keeps p now))
          (Safe-insert_preferences_if_none p now))
      db h

-- Where every connection enforces the foreign keys and the tables are consistent, they are consistent
-- after any history of calls, whichever of the calls fail: no two rows of a table share an identifier or
-- a unique key, every source and every preference belongs to a user that exists, and every sync state,
-- sync log, synced event and malformed event to a source that exists.
pub run_all-IsSound :
    (json : Json) (calls : List Call) (db : Db) → IsSound db → IsSound (run_all json calls db)
unfolding run_all
run_all-IsSound json [] db h = h
run_all-IsSound json (c ∷ cs) db h =
    run_all-IsSound json cs (run json c db) (run-IsSound json c db h)
