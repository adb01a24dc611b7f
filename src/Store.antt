-- ===== src/Store.antt =====
-- internal/db: the tables of internal/db/db.go, and the statements that internal/db/queries.go runs on
-- them. A statement is served by one connection of the pool, which may fail, and which enforces the
-- foreign keys or not, since `PRAGMA foreign_keys` holds for one connection. A call reads the clock and
-- makes UUIDs. A NULL text is read as the empty one, as the code does.
pub mod Rows
pub mod Users
pub mod Calendars
pub mod Sources
pub mod Syncs
pub mod Malformed
pub mod Preferences
pub mod Consistency
pub mod Rules
pub mod Served
pub mod Deletion
pub mod Etags
pub mod Ownership
pub mod Tests
use calbridge.Common.{
  ℕ, zero, suc, ◌+◌, Text, List, [], ◌∷◌, Option, none, some, Bool, true, false, if◌then◌else◌,
}

pub record User : Type 0 where
  pub id : Text
  pub email : Text
  pub name : Text
  pub created_at : ℕ
  pub updated_at : ℕ

-- A row of `sources`, or db.Source: `C` is what is known of the selected calendars.
pub record SourceOf (C : Type 0) : Type 0 where
  pub id : Text
  pub user_id : Text
  pub name : Text
  pub source_type : Text
  pub source_url : Text
  pub source_username : Text
  pub source_password : Text
  pub dest_url : Text
  pub dest_username : Text
  pub dest_password : Text
  pub sync_interval : ℕ
  pub sync_days_past : ℕ
  pub sync_direction : Text
  pub conflict_strategy : Text
  pub selected_calendars : C
  pub enabled : Bool
  pub last_sync_at : Option ℕ
  pub last_sync_status : Text
  pub last_sync_message : Text
  pub created_at : ℕ
  pub updated_at : ℕ

pub record CalendarConfig : Type 0 where
  pub path : Text
  pub sync_direction : Text

abbrev pub Source : Type 0
Source = SourceOf (List CalendarConfig)

-- The column has JSON or NULL.
abbrev pub SourceRow : Type 0
SourceRow = SourceOf (Option Text)

pub record SyncState : Type 0 where
  pub id : Text
  pub source_id : Text
  pub calendar_href : Text
  pub sync_token : Text
  pub ctag : Text
  pub updated_at : ℕ

pub record SyncLog : Type 0 where
  pub id : Text
  pub source_id : Text
  pub status : Text
  pub message : Text
  pub details : Text
  pub duration : ℕ
  pub events_created : ℕ
  pub events_updated : ℕ
  pub events_deleted : ℕ
  pub events_skipped : ℕ
  pub calendars_synced : ℕ
  pub events_processed : ℕ
  pub created_at : ℕ

pub record SyncedEvent : Type 0 where
  pub id : Text
  pub source_id : Text
  pub calendar_href : Text
  pub event_uid : Text
  pub source_etag : Text
  pub dest_etag : Text
  pub created_at : ℕ
  pub updated_at : ℕ

-- `source_name` comes from the join, and is empty in the table.
pub record MalformedEvent : Type 0 where
  pub id : Text
  pub source_id : Text
  pub source_name : Text
  pub event_path : Text
  pub error_message : Text
  pub discovered_at : ℕ

pub record UserAlertPreferences : Type 0 where
  pub id : Text
  pub user_id : Text
  pub email_enabled : Option Bool
  pub webhook_enabled : Option Bool
  pub webhook_url : Text
  pub cooldown_minutes : Option ℕ
  pub created_at : ℕ
  pub updated_at : ℕ

pub record Tables : Type 0 where
  pub users : List User
  pub sources : List SourceRow
  pub sync_states : List SyncState
  pub sync_logs : List SyncLog
  pub synced_events : List SyncedEvent
  pub malformed_events : List MalformedEvent
  pub preferences : List UserAlertPreferences

-- How the connection that serves a statement behaves.
pub record Conn : Type 0 where
  pub answers : Bool
  pub foreign_keys : Bool

-- `conns` are the connections of the statements to come; where the list ends, the statements are
-- served, and the foreign keys enforced.
pub record Db : Type 0 where
  pub tables : Tables
  pub conns : List Conn
  pub clock : ℕ
  pub uuids : ℕ → Text
  pub made : ℕ

pub data DbError : Type 0 where
  not_found failed : DbError

pub data Result (A : Type 0) : Type 0 where
  ok : A → Result A
  err : DbError → Result A

abbrev pub M : Type 0 → Type 0
M A = Db → Result A × Db

abbrev pub go_on : {A B : Type 0} → Result A × Db → (A → M B) → Result B × Db
go_on (ok a, db) f = f a db
go_on (err e, db) f = (err e, db)

infixl 5 ◌>>=◌ ◌>>◌
abbrev pub ◌>>=◌ : {A B : Type 0} → M A → (A → M B) → M B
◌>>=◌ m f db = go_on (m db) f

abbrev pub ◌>>◌ : {B : Type 0} → M (Unit {0}) → M B → M B
m >> k = m >>= λ _. k

abbrev pub return : {A : Type 0} → A → M A
return a db = (ok a, db)

abbrev pub fail : {A : Type 0} → DbError → M A
fail e db = (err e, db)

unfoldable pub first_conn : List Conn → Conn
first_conn [] = record { answers = true; foreign_keys = true }
first_conn (c ∷ cs) = c

unfoldable pub rest_conns : List Conn → List Conn
rest_conns [] = []
rest_conns (c ∷ cs) = cs

-- A statement that changes the tables: `none` where it breaks a constraint, and otherwise the number
-- of rows affected.
abbrev pub Statement : Type 0
Statement = Bool → Tables → Option (ℕ × Tables)

abbrev pub settle : Option (ℕ × Tables) → Db → Result ℕ × Db
settle none db = (err failed, db)
settle (some (n, t)) db = (ok n, record db { tables = t })

-- db.conn.Exec with the rows affected.
unfoldable pub exec : Statement → M ℕ
unfolding first_conn rest_conns
exec statement db =
    let c = first_conn db.conns in
    let db' = record db { conns = rest_conns db.conns } in
    if c.answers then settle (statement c.foreign_keys db.tables) db' else (err failed, db')

-- db.conn.Query.
unfoldable pub query : {A : Type 0} → (Tables → A) → M A
unfolding first_conn rest_conns
query read db =
    let db' = record db { conns = rest_conns db.conns } in
    if (first_conn db.conns).answers then (ok (read db.tables), db') else (err failed, db')

-- sql.ErrNoRows becomes ErrNotFound.
unfoldable pub found : {A : Type 0} → Option A → M A
found none = fail not_found
found (some a) = return a

-- affected == 0
unfoldable pub affected : ℕ → M (Unit {0})
affected zero = fail not_found
affected (suc n) = return tt

unfoldable pub read_clock : M ℕ
read_clock db = (ok db.clock, db)

-- uuid.New().String()
unfoldable pub new_uuid : M Text
new_uuid db = (ok (db.uuids db.made), record db { made = db.made + 1 })

-- The identifier that a record has, or a new one.
unfoldable pub id_or_new : Text → M Text
unfolding new_uuid
id_or_new [] = new_uuid
id_or_new (c ∷ cs) = return (c ∷ cs)
