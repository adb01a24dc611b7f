-- ===== src/Caldav.antt =====
-- The data of internal/caldav and of internal/db/models.go that the synchronisation works on, with
-- the small functions over it. Go strings are lists of bytes. An instant is a number of nanoseconds.
pub mod Put
pub mod World
pub mod FullSync
pub mod Retry
pub mod Webdav
pub mod Tests
use calbridge.Common.{
  ℕ, ◌*◌, Text, List, [], ◌∷◌, ◌++◌, Bool, true, false, ◌||◌, codes, ◌==◌, contains, if◌then◌else◌,
}

-- `unset` is the empty string, which a calendar's own configuration may hold.
pub data SyncDirection : Type 0 where
  unset one_way two_way : SyncDirection

pub data ConflictStrategy : Type 0 where
  source_wins dest_wins latest_wins : ConflictStrategy

abbrev pub is_one_way : SyncDirection → Bool
is_one_way one_way = true
is_one_way unset = false
is_one_way two_way = false

abbrev pub is_two_way : SyncDirection → Bool
is_two_way two_way = true
is_two_way unset = false
is_two_way one_way = false

abbrev pub is_source_wins : ConflictStrategy → Bool
is_source_wins source_wins = true
is_source_wins dest_wins = false
is_source_wins latest_wins = false

abbrev pub is_dest_wins : ConflictStrategy → Bool
is_dest_wins dest_wins = true
is_dest_wins source_wins = false
is_dest_wins latest_wins = false

-- `ical` is the field Data.
pub record Event : Type 0 where
  pub path : Text
  pub etag : Text
  pub ical : Text
  pub uid : Text
  pub summary : Text
  pub start_time : Text

unfoldable pub dedupe_key : Event → Text
dedupe_key e = e.summary ++ codes "|" ++ e.start_time

-- The key of an event with neither summary nor start time.
abbrev pub empty_key : Text
empty_key = codes "|"

pub record Calendar : Type 0 where
  pub path : Text
  pub name : Text

pub record CalendarConfig : Type 0 where
  pub path : Text
  pub direction : SyncDirection

-- The fields of db.Source that a sync reads.
pub record Source : Type 0 where
  pub id : Text
  pub name : Text
  pub sync_interval : ℕ
  pub sync_days_past : ℕ
  pub sync_direction : SyncDirection
  pub conflict_strategy : ConflictStrategy
  pub selected_calendars : List CalendarConfig

pub record SyncedEvent : Type 0 where
  pub event_uid : Text
  pub updated_at : ℕ

unfoldable pub get_sync_direction : CalendarConfig → SyncDirection → SyncDirection
get_sync_direction c source_default = elim c.direction [
  | unset ↦ source_default
  | one_way ↦ one_way
  | two_way ↦ two_way
]

unfoldable pub find_direction : List CalendarConfig → Text → SyncDirection → SyncDirection
unfolding get_sync_direction
find_direction [] path source_default = source_default
find_direction (c ∷ cs) path source_default =
    if c.path == path
    then get_sync_direction c source_default
    else find_direction cs path source_default

unfoldable pub sync_direction_for_calendar : Source → Text → SyncDirection
unfolding find_direction
sync_direction_for_calendar s path = find_direction s.selected_calendars path s.sync_direction

unfoldable pub is_already_exists_error : Text → Bool
is_already_exists_error e = contains e (codes "412") || contains e (codes "Precondition Failed")

unfoldable pub is_forbidden_error : Text → Bool
is_forbidden_error e = contains e (codes "403") || contains e (codes "Forbidden")

-- time.Second, in nanoseconds.
abbrev pub second : ℕ
second = 1_000_000_000
