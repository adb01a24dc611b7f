-- ===== src/Caldav/World.antt =====
-- What a full sync of internal/caldav/sync.go reads and changes outside itself. The CalDAV servers,
-- the database's replies and the clock are parameters: a reply may depend on all that was done so
-- far, which is the list of acts, the latest first.
use calbridge.Common.{ℕ, Text, List, [], ◌∷◌, Option, Bool}
use calbridge.Common.Dict.{Dict}
use calbridge.Caldav.{Event, SyncedEvent}
use calbridge.Activity.{Counts}

-- The status texts that the activity tracker is given.
pub data Phase : Type 0 where
  fetching_source fetching_dest : Phase
  loaded : ℕ → Phase
  filtered comparing : ℕ → ℕ → Phase
  processing : ℕ → Phase

-- A call that changes something outside: on the two servers, in the database, in the tracker.
pub data Act : Type 0 where
  clear_malformed : Act
  save_malformed : Text → Text → Act
  status : Phase → Act
  progress : Counts → Act
  delete_dest delete_source : Text → Act
  put_dest put_source : Text → Event → Act
  forget remember : Text → Act

-- A warning with the error text that it quotes.
pub data Warning : Type 0 where
  dest_delete_failed source_delete_failed create_failed update_failed : Text → Warning
  source_update_failed orphan_delete_failed : Text → Warning

pub data SyncError : Type 0 where
  source_events_failed sync_state_failed : Text → SyncError

pub record Malformed : Type 0 where
  pub path : Text
  pub error_message : Text

-- A list that a server gives, or its error.
pub data Reply {ℓ} (A : Type ℓ) : Type ℓ where
  ok : A → Reply A
  err : Text → Reply A

pub record Env : Type 0 where
  -- The error of a call, if it fails.
  pub outcome : List Act → Act → Option Text
  -- Client.GetEvents on the source, with the malformed events that it collects.
  pub source_events : List Act → Text → Reply (List Event) × List Malformed
  -- Client.GetEvents on the destination.
  pub dest_events : List Act → Text → Reply (List Event)
  -- Client.FindCalendars on the destination: the paths.
  pub dest_calendars : List Act → Reply (List Text)
  -- Client.GetCalendarPath of the destination.
  pub dest_url_path : Text
  -- DB.GetSyncedEvents.
  pub synced_events : List Act → Reply (List SyncedEvent)
  -- The iCalendar decoder, and the error text of one that fails.
  pub parse_ical : Text → Option (List (Option Text))
  pub parse_error : Text → Text
  -- time.Now, time.AddDate by a number of days back, and time.Parse by a layout.
  pub now : List Act → ℕ
  pub days_before : ℕ → ℕ → ℕ
  pub parse_time : Text → Text → Option ℕ
  -- The order in which `range` visits a map.
  pub visit_synced : Dict SyncedEvent → Dict SyncedEvent
  pub visit_events : Dict Event → Dict Event
  pub visit_groups : Dict (List Event) → Dict (List Event)
  pub visit_uids : Dict Bool → Dict Bool

pub record State : Type 0 where
  pub acts : List Act
  pub created : ℕ
  pub updated : ℕ
  pub deleted : ℕ
  pub skipped : ℕ
  pub events_processed : ℕ
  pub duplicates_removed : ℕ
  pub errors : List SyncError
  pub warnings : List Warning
  pub source_map : Dict Event
  pub dest_map : Dict Event
  pub dedupe_map : Dict Bool
  pub current_uids : Dict Bool

abbrev pub initial : State
initial = record {
  acts = [];
  created = 0;
  updated = 0;
  deleted = 0;
  skipped = 0;
  events_processed = 0;
  duplicates_removed = 0;
  errors = [];
  warnings = [];
  source_map = [];
  dest_map = [];
  dedupe_map = [];
  current_uids = [];
}

-- The state after a call, and the call's error.
abbrev pub after : Act → State → State
after a s = record s { acts = a ∷ s.acts }

abbrev pub failure : Env → Act → State → Option Text
failure env a s = env.outcome s.acts a

-- The closure updateProgress.
abbrev pub update_progress : State → State
update_progress s =
    after
      (progress (record {
        created = s.created;
        updated = s.updated;
        deleted = s.deleted;
        skipped = s.skipped;
        processed = s.events_processed;
      }))
      s

abbrev pub warn : Warning → State → State
warn w s = record s { warnings = w ∷ s.warnings }
