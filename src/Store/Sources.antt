-- ===== src/Store/Sources.antt =====
-- The sources of internal/db/queries.go. The statements name the columns that they write.
use calbridge.Common.{
  ◌≡◌, refl, ℕ, Text, codes, List, [], ◌∷◌, map, none, some, Bool, true, false, not, ◌&&◌, ◌==◌,
  if◌then◌else◌,
}
use calbridge.Store.{
  Source, SourceRow, Tables, M, ◌>>=◌, ◌>>◌, return, Statement, exec, query, found, affected,
  read_clock, id_or_new,
}
use calbridge.Store.Rows.{select, remove, update, count, exists, first, order_by, text_le}
use calbridge.Store.Calendars.{Json, calendars_column, read_calendars}

abbrev pub pending : Text
pending = codes "pending"

abbrev pub running : Text
running = codes "running"

abbrev pub one_way : Text
one_way = codes "one_way"

unfoldable pub or_one_way : Text → Text
or_one_way [] = one_way
or_one_way (c ∷ cs) = c ∷ cs

pub or_one_way-twice : (d : Text) → or_one_way (or_one_way d) ≡ or_one_way d
unfolding or_one_way
or_one_way-twice [] = refl
or_one_way-twice (c ∷ cs) = refl

unfoldable pub to_row : Json → Source → SourceRow
unfolding calendars_column
to_row json s = record {
  id = s.id;
  user_id = s.user_id;
  name = s.name;
  source_type = s.source_type;
  source_url = s.source_url;
  source_username = s.source_username;
  source_password = s.source_password;
  dest_url = s.dest_url;
  dest_username = s.dest_username;
  dest_password = s.dest_password;
  sync_interval = s.sync_interval;
  sync_days_past = s.sync_days_past;
  sync_direction = s.sync_direction;
  conflict_strategy = s.conflict_strategy;
  selected_calendars = calendars_column json s.selected_calendars;
  enabled = s.enabled;
  last_sync_at = s.last_sync_at;
  last_sync_status = s.last_sync_status;
  last_sync_message = s.last_sync_message;
  created_at = s.created_at;
  updated_at = s.updated_at;
}

-- scanSource and scanSourceFromRows.
unfoldable pub scan_source : Json → SourceRow → Source
unfolding or_one_way read_calendars
scan_source json r = record {
  id = r.id;
  user_id = r.user_id;
  name = r.name;
  source_type = r.source_type;
  source_url = r.source_url;
  source_username = r.source_username;
  source_password = r.source_password;
  dest_url = r.dest_url;
  dest_username = r.dest_username;
  dest_password = r.dest_password;
  sync_interval = r.sync_interval;
  sync_days_past = r.sync_days_past;
  sync_direction = or_one_way r.sync_direction;
  conflict_strategy = r.conflict_strategy;
  selected_calendars = read_calendars json r.selected_calendars;
  enabled = r.enabled;
  last_sync_at = r.last_sync_at;
  last_sync_status = r.last_sync_status;
  last_sync_message = r.last_sync_message;
  created_at = r.created_at;
  updated_at = r.updated_at;
}

-- The columns that the INSERT does not name are NULL: no last sync and no message.
unfoldable pub as_inserted : SourceRow → SourceRow
as_inserted r = record r { last_sync_at = none; last_sync_message = [] }

unfoldable pub insert_source : SourceRow → Statement
unfolding exists as_inserted
insert_source r keys t =
    if exists (λ s. s.id == r.id) t.sources
    then none
    else if keys && not (exists (λ u. u.id == r.user_id) t.users)
    then none
    else some (1, record t { sources = as_inserted r ∷ t.sources })

-- The source with what CreateSource sets in it.
unfoldable pub as_created : Source → Text → ℕ → Source
unfolding or_one_way
as_created s id now = record s {
  id = id;
  created_at = now;
  updated_at = now;
  last_sync_status = pending;
  sync_direction = or_one_way s.sync_direction;
}

unfoldable pub create_source : Json → Source → M Source
unfolding as_created to_row insert_source
create_source json s = do
  id ← id_or_new s.id
  now ← read_clock
  n ← exec (insert_source (to_row json (as_created s id now)))
  return (as_created s id now)

unfoldable pub get_source_by_id : Json → Text → M Source
unfolding first scan_source
get_source_by_id json id = do
  o ← query (λ t. first (λ s. s.id == id) t.sources)
  r ← found o
  return (scan_source json r)

unfoldable pub get_source_by_id_for_user : Json → Text → Text → M Source
unfolding first scan_source
get_source_by_id_for_user json id user_id = do
  o ← query (λ t. first (λ s. s.id == id && s.user_id == user_id) t.sources)
  r ← found o
  return (scan_source json r)

abbrev by_name : SourceRow → SourceRow → Bool
by_name r s = text_le r.name s.name

unfoldable pub get_sources_by_user_id : Json → Text → M (List Source)
unfolding select scan_source
get_sources_by_user_id json user_id = do
  rs ← query (λ t. order_by by_name (select (λ s. s.user_id == user_id) t.sources))
  return (map (scan_source json) rs)

unfoldable pub get_enabled_sources : Json → M (List Source)
unfolding select scan_source
get_enabled_sources json = do
  rs ← query (λ t. select (λ s. s.enabled) t.sources)
  return (map (scan_source json) rs)

-- UPDATE sources: the fifteen columns; the user, the status and the creation stay.
unfoldable pub write_columns : SourceRow → SourceRow → SourceRow
write_columns s r = record r {
  name = s.name;
  source_type = s.source_type;
  source_url = s.source_url;
  source_username = s.source_username;
  source_password = s.source_password;
  dest_url = s.dest_url;
  dest_username = s.dest_username;
  dest_password = s.dest_password;
  sync_interval = s.sync_interval;
  sync_days_past = s.sync_days_past;
  sync_direction = s.sync_direction;
  conflict_strategy = s.conflict_strategy;
  selected_calendars = s.selected_calendars;
  enabled = s.enabled;
  updated_at = s.updated_at;
}

-- An update of the sources that fit.
unfoldable pub update_sources : (SourceRow → Bool) → (SourceRow → SourceRow) → Statement
unfolding update count
update_sources p f keys t = some (count p t.sources, record t { sources = update p f t.sources })

unfoldable pub as_updated : Source → ℕ → Source
unfolding or_one_way
as_updated s now = record s { updated_at = now; sync_direction = or_one_way s.sync_direction }

unfoldable pub update_source : Json → Source → M Source
unfolding as_updated to_row write_columns update_sources
update_source json s = do
  now ← read_clock
  n ← exec (update_sources (λ r. r.id == s.id) (write_columns (to_row json (as_updated s now))))
  affected n
  return (as_updated s now)

unfoldable pub update_source_sync_status : Text → Text → Text → M (Unit {0})
unfolding update_sources
update_source_sync_status id status message = do
  now ← read_clock
  n ← exec (
      update_sources (λ r. r.id == id)
        (λ r. record r {
          last_sync_at = some now;
          last_sync_status = status;
          last_sync_message = message;
          updated_at = now;
        }))
  affected n

unfoldable pub reset_running_sync_statuses : M ℕ
unfolding update_sources
reset_running_sync_statuses = do
  now ← read_clock
  exec (
      update_sources (λ r. r.last_sync_status == running)
        (λ r. record r {
          last_sync_status = pending;
          last_sync_message = codes "Reset on startup";
          updated_at = now;
        }))

-- DELETE FROM sources; ON DELETE CASCADE, on a connection that enforces the foreign keys.
unfoldable pub without_source : Text → Bool → Tables → Tables
unfolding remove
without_source id false t = record t { sources = remove (λ s. s.id == id) t.sources }
without_source id true t = record t {
  sources = remove (λ s. s.id == id) t.sources;
  sync_states = remove (λ r. r.source_id == id) t.sync_states;
  sync_logs = remove (λ r. r.source_id == id) t.sync_logs;
  synced_events = remove (λ r. r.source_id == id) t.synced_events;
  malformed_events = remove (λ r. r.source_id == id) t.malformed_events;
}

unfoldable pub delete_source_rows : Text → Statement
unfolding count without_source
delete_source_rows id keys t = some (count (λ s. s.id == id) t.sources, without_source id keys t)

unfoldable pub delete_source : Text → M (Unit {0})
unfolding delete_source_rows
delete_source id = do n ← exec (delete_source_rows id); affected n
