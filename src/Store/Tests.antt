-- ===== src/Store/Tests.antt =====
-- A database with two users, of whom each has a source, and the theorems about it.
use calbridge.Common.{
  if◌then◌else◌, ◌+◌, ◌≡◌, refl, Text, codes, [], ◌∷◌, none, some, true, false, ◌==◌,
}
use calbridge.Store.{User, SourceRow, Source, SyncedEvent, Tables, Db, ok, first_conn, rest_conns}
use calbridge.Store.Rows.{exists}
use calbridge.Store.Calendars.{Json, is_set}
use calbridge.Store.Sources.{
  delete_source, get_source_by_id, get_source_by_id_for_user, create_source,
}
use calbridge.Store.Syncs.{upsert_synced_event, may_refer}
use calbridge.Store.Consistency.Tables.{Distinct, IsTable}
use calbridge.Store.Consistency.Statements.{
  IsConsistent, UsersRows, SourcesRows, user_in, source_in,
}
use calbridge.Store.Consistency.Calls.{log_in, drop_source, save_event, IsSound, run_all}
use calbridge.Store.Consistency.Histories.{run_all-IsSound}
use calbridge.Store.Deletion.{without, delete_source-without}
use calbridge.Store.Etags.{IsWritten, upsert_synced_event-IsWritten}
use calbridge.Store.Ownership.{
  IsAnswer, get_source_by_id_for_user-IsAnswer, AreKept, create_source-get_source_by_id,
}

-- JSON of which only the lists that are written here are read.
abbrev pub json : Json
json = record {
  encode = λ cs. codes "json";
  decode_configs = λ t. some (record { path = codes "/work"; sync_direction = [] } ∷ []);
  decode_paths = λ t. none;
}

abbrev pub user : Text → User
user id = record { id = id; email = id; name = id; created_at = 0; updated_at = 0 }

abbrev pub source_of : Text → Text → Source
source_of id user_id = record {
  id = id;
  user_id = user_id;
  name = codes "home";
  source_type = codes "custom";
  source_url = codes "https://a";
  source_username = codes "a";
  source_password = codes "x";
  dest_url = codes "https://b";
  dest_username = codes "b";
  dest_password = codes "y";
  sync_interval = 300;
  sync_days_past = 30;
  sync_direction = codes "one_way";
  conflict_strategy = codes "source_wins";
  selected_calendars = [];
  enabled = true;
  last_sync_at = none;
  last_sync_status = codes "pending";
  last_sync_message = [];
  created_at = 0;
  updated_at = 0;
}

abbrev pub row_of : Text → Text → SourceRow
row_of id user_id = record {
  id = id;
  user_id = user_id;
  name = codes "home";
  source_type = codes "custom";
  source_url = codes "https://a";
  source_username = codes "a";
  source_password = codes "x";
  dest_url = codes "https://b";
  dest_username = codes "b";
  dest_password = codes "y";
  sync_interval = 300;
  sync_days_past = 30;
  sync_direction = codes "one_way";
  conflict_strategy = codes "source_wins";
  selected_calendars = none;
  enabled = true;
  last_sync_at = none;
  last_sync_status = codes "pending";
  last_sync_message = [];
  created_at = 0;
  updated_at = 0;
}

abbrev event : SyncedEvent
event = record {
  id = codes "e";
  source_id = codes "s";
  calendar_href = codes "/work";
  event_uid = codes "1";
  source_etag = codes "a";
  dest_etag = codes "b";
  created_at = 0;
  updated_at = 0;
}

abbrev pub tables : Tables
tables = record {
  users = user (codes "ann") ∷ user (codes "bob") ∷ [];
  sources = row_of (codes "s") (codes "ann") ∷ row_of (codes "t") (codes "bob") ∷ [];
  sync_states = [];
  sync_logs = [];
  synced_events = event ∷ [];
  malformed_events = [];
  preferences = [];
}

abbrev pub database : Db
database = record { tables = tables; conns = []; clock = 5; uuids = λ n. (1000 + n) ∷ []; made = 0 }

-- A connection on which the pragma was not run.
abbrev unpragmed : Db
unpragmed = record database { conns = record { answers = true; foreign_keys = false } ∷ [] }

database-IsSound : IsSound database
unfolding ◌==◌ source_in IsSound IsConsistent UsersRows SourcesRows IsTable Distinct user_in exists
database-IsSound = (
  tt,
  (
    (refl, (refl, tt)),
    (((refl, (refl, tt)), (refl, (refl, tt))), (tt, tt)),
    ((tt, tt), (tt, tt), ((refl, tt), (refl, tt)), (tt, tt)),
  ),
)

run_all-IsSound_example : IsSound (
    run_all json
      (log_in (codes "cy") (codes "cy") ∷ drop_source (codes "s") ∷ save_event event ∷ [])
      database)
run_all-IsSound_example =
    run_all-IsSound json
      (log_in (codes "cy") (codes "cy") ∷ drop_source (codes "s") ∷ save_event event ∷ []) database
      database-IsSound

-- The event of the deleted source is left.
delete_source-without_example :
    ((delete_source (codes "s") unpragmed).0 ≡ ok tt)
    × ((delete_source (codes "s") unpragmed).1.tables ≡ without (codes "s") false unpragmed.tables)
unfolding exists ◌==◌ first_conn
delete_source-without_example = delete_source-without (codes "s") unpragmed refl refl

upsert_synced_event-IsWritten_example :
    IsWritten
      (record event { id = []; source_etag = codes "c" })
      database
      (upsert_synced_event (record event { id = []; source_etag = codes "c" }) database)
unfolding first_conn rest_conns may_refer exists ◌==◌
upsert_synced_event-IsWritten_example =
    upsert_synced_event-IsWritten (record event { id = []; source_etag = codes "c" }) database refl
      refl refl refl refl

get_source_by_id_for_user-IsAnswer_example :
    IsAnswer false
      (codes "s")
      (codes "bob")
      (get_source_by_id_for_user json (codes "s") (codes "bob") database).0
unfolding first_conn exists ◌==◌
get_source_by_id_for_user-IsAnswer_example =
    get_source_by_id_for_user-IsAnswer json (codes "s") (codes "bob") database refl

abbrev working : Source
working = record (source_of [] (codes "ann")) {
  sync_direction = [];
  selected_calendars = record { path = codes "/work"; sync_direction = [] } ∷ [];
}

create_source-get_source_by_id_example :
    (get_source_by_id json (1000 ∷ []) (create_source json working database).1).0
    ≡ ok (record working {
      id = 1000 ∷ [];
      created_at = 5;
      updated_at = 5;
      sync_direction =
          if working.sync_direction == [] then codes "one_way" else working.sync_direction;
      last_sync_at = none;
      last_sync_status = codes "pending";
      last_sync_message = [];
    })
unfolding first_conn rest_conns exists ◌==◌ AreKept is_set
create_source-get_source_by_id_example =
    create_source-get_source_by_id json working database refl refl refl refl refl (refl, refl, refl)
