-- ===== src/Web/Isolation/Answers.antt =====
-- What a reply leaves of the rows of a user, by the way a handler is put together.
use calbridge.Common.{
  ℕ, ◌≡◌, inl, inr, Text, List, [], ◌∷◌, map, Option, none, some, Bool, ◌&&◌, Bool-cases,
}
use calbridge.Store.{
  query, found, exec, Source, SyncLog, SourceRow, MalformedEvent, UserAlertPreferences, Tables, Db,
  Result, ok, err, M,
}
use calbridge.Store.Rules.{Keeps, Keeps-bind, Keeps-return, Keeps-exec, Keeps-query, Keeps-found}
use calbridge.Store.Sources.{get_source_by_id_for_user, get_sources_by_user_id, scan_source}
use calbridge.Store.Syncs.{get_sync_logs, read_log}
use calbridge.Store.Malformed.{remove_malformed}
use calbridge.Scheduler.{Scheduler, Outcome, panic, blocked}
use calbridge.Scheduler
use calbridge.Web.{World, Outside, Reply, or_reply, after}
use calbridge.Web.Views.{Body}
use calbridge.Web.Rules.{Ends, Ends-or_reply}
use calbridge.Web.Sources.{show_source, any_enabled, show_sources}
use calbridge.Web.Logs.{logs_after, syncs_after}
use calbridge.Web.Alerts.{unless_url}
use calbridge.Notify.Urls.{UrlError}
use calbridge.Web.Isolation.Rows.{rows_of}

-- The queries change no table.
module _ (Q : Tables → Type 0) where
  pub get_source-Keeps :
      (out : Outside) (id u : Text) → Keeps Q (get_source_by_id_for_user out.json id u)
  unfolding get_source_by_id_for_user
  get_source-Keeps out id u = Keeps-bind Q (query _) _ (Keeps-query Q _) (λ o.
      Keeps-bind Q (found o) _ (Keeps-found Q o) (λ r. Keeps-return Q (scan_source out.json r)))

  pub get_sources-Keeps : (out : Outside) (u : Text) → Keeps Q (get_sources_by_user_id out.json u)
  unfolding get_sources_by_user_id
  get_sources-Keeps out u =
      Keeps-bind Q (query _) _ (Keeps-query Q _)
        (λ rs. Keeps-return Q (map (scan_source out.json) rs))

  pub get_sync_logs-Keeps : (id : Text) (limit : ℕ) → Keeps Q (get_sync_logs id limit)
  unfolding get_sync_logs
  get_sync_logs-Keeps id limit =
      Keeps-bind Q (query _) _ (Keeps-query Q _) (λ rs. Keeps-return Q (map read_log rs))

-- No deletion of malformed events changes the rows of sources and preferences.
pub remove_malformed-Keeps :
    (other : Text) (v : List SourceRow × List UserAlertPreferences)
    (p : Tables → MalformedEvent → Bool)
    → Keeps (λ t. rows_of other t ≡ v) (exec (remove_malformed p))
unfolding remove_malformed rows_of
remove_malformed-Keeps other v p =
    Keeps-exec (λ t. rows_of other t ≡ v) (remove_malformed p) (λ keys t q. q)

module _ (other : Text) (v : List SourceRow × List UserAlertPreferences) where
  abbrev Q : Tables → Type 0
  Q t = rows_of other t ≡ v

  abbrev P : Body → World → Type 0
  P body w = Q w.db.tables

  abbrev N : World → Type 0
  N w = Q w.db.tables

  -- The rows of the user stay.
  abbrev pub Left : Reply → Type 0
  Left = Ends P N Unit

  abbrev E : Reply → Type 0
  E = Left

  pub after-E :
      (o : Outcome) (w : World) (k : World → Reply)
      → Q w.db.tables
      → ((s : Scheduler) → E (k (record w { scheduler = s })))
      → E (after o w k)
  unfolding after
  after-E (calbridge.Scheduler.ok s) w k q h = h s
  after-E (panic s) w k q h = q
  after-E blocked w k q h = tt

  pub show_source-E :
      (status : ℕ) (s : Source) (w : World) → Q w.db.tables → E (show_source status s w)
  unfolding show_source
  show_source-E status s w q = elim (Bool-cases (s.enabled && w.scheduler.mu)) [
    | inl e ↦ rw e tt
    | inr e ↦ rw e q
  ]

  -- A call that keeps the rows, and an answer.
  pub answers-E :
      {A : Type 0} (w : World)
      → Q w.db.tables
      → (status : ℕ) (why : Text) (call : M A) (k : A → World → Reply) → Keeps Q call
      → ((a : A) (w' : World) → Q w'.db.tables → E (k a w'))
      → E (or_reply status why call w k)
  answers-E w q status why call k keeps h =
      Ends-or_reply P N Unit status why call w k (keeps w.db q)
        (λ a e. h a (record w { db = (call w.db).1 }) (keeps w.db q))

  logs_after-Q :
      (today : ℕ) (r : Result (List SyncLog) × Db) → Q r.1.tables → Q (logs_after today r).1.tables
  unfolding logs_after
  logs_after-Q today (ok logs, db) q = q
  logs_after-Q today (err e, db) q = q

  pub syncs_after-Q :
      (today : ℕ) (ss : List Source) (db : Db) → Q db.tables → Q (syncs_after today ss db).1.tables
  unfolding syncs_after
  syncs_after-Q today [] db q = q
  syncs_after-Q today (s ∷ ss) db q =
      syncs_after-Q today ss _
        (logs_after-Q today (get_sync_logs s.id 100 db) (get_sync_logs-Keeps Q s.id 100 db q))

  pub unless_url-E :
      (o : Option UrlError) (w : World) (k : Reply) → Q w.db.tables → E k → E (unless_url o w k)
  unfolding unless_url
  unless_url-E none w k q h = h
  unless_url-E (some e) w k q h = q

  pub list-E : (ss : List Source) (w : World) → Q w.db.tables → E (show_sources ss w)
  unfolding show_sources
  list-E ss w q = elim (Bool-cases (any_enabled ss && w.scheduler.mu)) [
    | inl e ↦ rw e tt
    | inr e ↦ rw e q
  ]
