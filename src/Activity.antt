-- ===== src/Activity.antt =====
-- internal/activity/activity.go: the tracker of running and finished syncs. The mutex makes each
-- method one step. Times are numbers; `duration` is the elapsed time that the code prints as text.
pub mod Invariant
pub mod History
pub mod Recent
pub mod Tests
use calbridge.Common.{
  ℕ, ◌+◌, ◌-◌, Text, List, [], ◌∷◌, ◌++◌, map, Option, none, some, Bool, true, false, length, take,
  ltb, if◌then◌else◌,
}
use calbridge.Common.Dict.{Dict, get, put, delete}

pub data Status : Type 0 where
  running completed partial failed : Status

pub record SyncActivity : Type 0 where
  pub source_id : Text
  pub source_name : Text
  pub status : Status
  pub current_calendar : Text
  pub total_calendars : ℕ
  pub calendars_synced : ℕ
  pub events_processed : ℕ
  pub events_created : ℕ
  pub events_updated : ℕ
  pub events_deleted : ℕ
  pub events_skipped : ℕ
  pub started_at : ℕ
  pub completed_at : Option ℕ
  pub duration : Option ℕ
  pub message : Text
  pub errors : List Text

pub record Tracker : Type 0 where
  pub active : Dict SyncActivity
  pub recent : List SyncActivity
  pub max_recent_syncs : ℕ

pub new_tracker : Tracker
new_tracker = record { active = []; recent = []; max_recent_syncs = 20 }

fresh : Text → Text → ℕ → ℕ → SyncActivity
fresh source_id source_name total now = record {
  source_id = source_id;
  source_name = source_name;
  status = running;
  current_calendar = [];
  total_calendars = total;
  calendars_synced = 0;
  events_processed = 0;
  events_created = 0;
  events_updated = 0;
  events_deleted = 0;
  events_skipped = 0;
  started_at = now;
  completed_at = none;
  duration = none;
  message = [];
  errors = [];
}

pub start_sync : Text → Text → ℕ → ℕ → Tracker → Tracker
unfolding fresh
start_sync source_id source_name total now t = record t {
  active = put source_id (fresh source_id source_name total now) t.active;
}

-- The write through the pointer that the map holds, where there is one.
update_active : Text → (SyncActivity → SyncActivity) → Tracker → Tracker
update_active source_id f t = elim (get source_id t.active) [
  | none ↦ t
  | some a ↦ record t { active = put source_id (f a) t.active }
]

pub update_calendar : Text → Text → ℕ → Tracker → Tracker
unfolding update_active
update_calendar source_id name index =
    update_active source_id (λ a. record a { current_calendar = name; calendars_synced = index })

-- The five counters, in the order of the methods' arguments.
pub record Counts : Type 0 where
  pub created : ℕ
  pub updated : ℕ
  pub deleted : ℕ
  pub skipped : ℕ
  pub processed : ℕ

pub update_progress : Text → Counts → Tracker → Tracker
unfolding update_active
update_progress source_id n = update_active source_id λ a. record a {
  events_created = n.created;
  events_updated = n.updated;
  events_deleted = n.deleted;
  events_skipped = n.skipped;
  events_processed = n.processed;
}

pub increment_progress : Text → Counts → Tracker → Tracker
unfolding update_active
increment_progress source_id n = update_active source_id λ a. record a {
  events_created = a.events_created + n.created;
  events_updated = a.events_updated + n.updated;
  events_deleted = a.events_deleted + n.deleted;
  events_skipped = a.events_skipped + n.skipped;
  events_processed = a.events_processed + n.processed;
}

final_status : Bool → List Text → Status
final_status true [] = completed
final_status true (e ∷ es) = partial
final_status false es = failed

finished : Bool → Text → List Text → ℕ → SyncActivity → SyncActivity
unfolding final_status
finished success message errors now a = record a {
  completed_at = some now;
  duration = some (now - a.started_at);
  message = message;
  errors = errors;
  current_calendar = [];
  status = final_status success errors;
}

pub finish_sync : Text → Bool → Text → List Text → ℕ → Tracker → Tracker
finish_sync source_id success message errors now t = elim (get source_id t.active) [
  | none ↦ t
  | some a ↦
      let recent = finished success message errors now a ∷ t.recent in
      record t {
        recent =
            if ltb t.max_recent_syncs (length recent)
            then take t.max_recent_syncs recent
            else recent;
        active = delete source_id t.active;
      }
]

pub get_active : ℕ → Tracker → List SyncActivity
get_active now t = map (λ e. record (e.1) { duration = some (now - (e.1).started_at) }) t.active

pub get_recent : Tracker → List SyncActivity
get_recent t = t.recent

pub get_all : ℕ → Tracker → List SyncActivity × List SyncActivity
unfolding get_active get_recent
get_all now t = (get_active now t, get_recent t)

pub is_source_syncing : Text → Tracker → Bool
is_source_syncing source_id t = elim (get source_id t.active) [ none ↦ false | some _ ↦ true ]

-- One call of a method that changes the tracker, with the time at which it is made.
pub data Call : Type 0 where
  start : Text → Text → ℕ → ℕ → Call
  calendar : Text → Text → ℕ → Call
  progress increment : Text → Counts → Call
  finish : Text → Bool → Text → List Text → ℕ → Call

pub step : Tracker → Call → Tracker
step t (start id name total now) = start_sync id name total now t
step t (calendar id name index) = update_calendar id name index t
step t (progress id n) = update_progress id n t
step t (increment id n) = increment_progress id n t
step t (finish id success message errors now) = finish_sync id success message errors now t

pub run : Tracker → List Call → Tracker
run t [] = t
run t (c ∷ cs) = run (step t c) cs
