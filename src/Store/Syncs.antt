-- ===== src/Store/Syncs.antt =====
-- The sync states, sync logs and synced events of internal/db/queries.go.
use calbridge.Common.{
  ℕ, zero, suc, ◌*◌, ◌/◌, Text, List, ◌∷◌, map, take, none, some, Bool, not, ◌&&◌, ◌||◌, ◌==◌, leb,
  ltb, if◌then◌else◌,
}
use calbridge.Store.{
  SyncState, SyncLog, SyncedEvent, Tables, M, ◌>>=◌, return, Statement, exec, query, found,
  read_clock, id_or_new,
}
use calbridge.Store.Rows.{select, remove, update, count, exists, first, order_by}

-- A row may refer to a source where the connection does not enforce the keys, or the source exists.
unfoldable pub may_refer : Bool → Text → Tables → Bool
unfolding exists
may_refer keys source_id t = not keys || exists (λ s. s.id == source_id) t.sources

unfoldable pub state_of : Text → Text → SyncState → Bool
state_of source_id href s = s.source_id == source_id && s.calendar_href == href

pub get_sync_state : Text → Text → M SyncState
unfolding first state_of
get_sync_state source_id href = do
  o ← query (λ t. first (state_of source_id href) t.sync_states)
  found o

unfoldable pub update_state : SyncState → ℕ → Statement
unfolding update count state_of
update_state s now keys t =
    let fits = state_of s.source_id s.calendar_href in
    some (
      count fits t.sync_states,
      record t {
        sync_states =
            update fits
              (λ r. record r { sync_token = s.sync_token; ctag = s.ctag; updated_at = now })
              t.sync_states;
      },
    )

unfoldable pub insert_state : SyncState → Statement
unfolding exists may_refer state_of
insert_state s keys t =
    if exists (λ r. r.id == s.id || state_of s.source_id s.calendar_href r) t.sync_states
    then none
    else if may_refer keys s.source_id t
    then some (1, record t { sync_states = s ∷ t.sync_states })
    else none

-- An insert of a new row, where the update has met none.
abbrev pub insert_state_if_none : SyncState → ℕ → ℕ → M (Unit {0})
insert_state_if_none s now zero = do
  id ← id_or_new s.id
  n ← exec (insert_state (record s { id = id; updated_at = now }))
  return tt
insert_state_if_none s now (suc n) = return tt

unfoldable pub upsert_sync_state : SyncState → M (Unit {0})
unfolding update_state insert_state
upsert_sync_state s = do
  now ← read_clock
  n ← exec (update_state s now)
  insert_state_if_none s now n

unfoldable pub insert_log : SyncLog → Statement
unfolding exists may_refer
insert_log l keys t =
    if exists (λ r. r.id == l.id) t.sync_logs
    then none
    else if may_refer keys l.source_id t
    then some (1, record t { sync_logs = l ∷ t.sync_logs })
    else none

-- A duration has nanoseconds, and its column milliseconds.
abbrev millisecond : ℕ
millisecond = 1000000

unfoldable pub create_sync_log : SyncLog → M (Unit {0})
unfolding insert_log
create_sync_log l = do
  id ← id_or_new l.id
  now ← read_clock
  n ←
      exec
        (insert_log (record l { id = id; created_at = now; duration = l.duration / millisecond }))
  return tt

abbrev newer_log : SyncLog → SyncLog → Bool
newer_log a b = leb b.created_at a.created_at

abbrev pub read_log : SyncLog → SyncLog
read_log l = record l { duration = l.duration * millisecond }

-- `take`: LIMIT.
unfoldable pub get_sync_logs : Text → ℕ → M (List SyncLog)
unfolding select
get_sync_logs source_id limit = do
  ls ←
      query
        (λ t. take limit (order_by newer_log (select (λ l. l.source_id == source_id) t.sync_logs)))
  return (map read_log ls)

unfoldable pub remove_logs : (SyncLog → Bool) → Statement
unfolding remove count
remove_logs p keys t = some (count p t.sync_logs, record t { sync_logs = remove p t.sync_logs })

unfoldable pub clean_old_sync_logs : ℕ → M ℕ
unfolding remove_logs
clean_old_sync_logs older_than = exec (remove_logs (λ l. ltb l.created_at older_than))

unfoldable pub event_in : Text → Text → SyncedEvent → Bool
event_in source_id href e = e.source_id == source_id && e.calendar_href == href

unfoldable pub event_of : Text → Text → Text → SyncedEvent → Bool
unfolding event_in
event_of source_id href uid e = event_in source_id href e && e.event_uid == uid

unfoldable pub get_synced_events : Text → Text → M (List SyncedEvent)
unfolding select event_in
get_synced_events source_id href = query (λ t. select (event_in source_id href) t.synced_events)

unfoldable pub write_etags : SyncedEvent → ℕ → SyncedEvent → SyncedEvent
write_etags e now r = record r {
  source_etag = e.source_etag;
  dest_etag = e.dest_etag;
  updated_at = now;
}

unfoldable pub update_event : SyncedEvent → ℕ → Statement
unfolding update count event_of write_etags
update_event e now keys t =
    let fits = event_of e.source_id e.calendar_href e.event_uid in
    some (
      count fits t.synced_events,
      record t { synced_events = update fits (write_etags e now) t.synced_events },
    )

unfoldable pub insert_event : SyncedEvent → Statement
unfolding exists may_refer event_of
insert_event e keys t =
    if exists (λ r. r.id == e.id || event_of e.source_id e.calendar_href e.event_uid r)
      t.synced_events
    then none
    else if may_refer keys e.source_id t
    then some (1, record t { synced_events = e ∷ t.synced_events })
    else none

abbrev pub insert_event_if_none : SyncedEvent → ℕ → ℕ → M (Unit {0})
insert_event_if_none e now zero = do
  id ← id_or_new e.id
  n ← exec (insert_event (record e { id = id; created_at = now; updated_at = now }))
  return tt
insert_event_if_none e now (suc n) = return tt

unfoldable pub upsert_synced_event : SyncedEvent → M (Unit {0})
unfolding update_event insert_event
upsert_synced_event e = do
  now ← read_clock
  n ← exec (update_event e now)
  insert_event_if_none e now n

unfoldable pub remove_events : (SyncedEvent → Bool) → Statement
unfolding remove count
remove_events p keys t =
    some (count p t.synced_events, record t { synced_events = remove p t.synced_events })

unfoldable pub delete_synced_event : Text → Text → Text → M (Unit {0})
unfolding remove_events event_of
delete_synced_event source_id href uid = do
  n ← exec (remove_events (event_of source_id href uid))
  return tt

unfoldable pub delete_synced_events_for_calendar : Text → Text → M (Unit {0})
unfolding remove_events event_in
delete_synced_events_for_calendar source_id href = do
  n ← exec (remove_events (event_in source_id href))
  return tt
