-- ===== src/Caldav/FullSync/Tests.antt =====
-- A full sync on concrete calendars.
use Prim.Native.String.{String}
use calbridge.Common.{
  ◌-◌, ◌*◌, refl, List, [], ◌∷◌, none, some, codes, arith, All, In, Before, inl, ◌==◌, has_prefix,
  trim_suffix,
}
use calbridge.Common.Dict.{get, put}
use calbridge.Caldav.{
  Event, Calendar, Source, SyncedEvent, two_way, one_way, dest_wins, source_wins, second,
  dedupe_key, sync_direction_for_calendar,
}
use calbridge.Caldav.World.{Env, ok, initial, delete_dest, delete_source, put_dest, put_source}
use calbridge.Caldav.Put.{plan_put}
use calbridge.Caldav.FullSync.Push.{is_dupe}
use calbridge.Caldav.FullSync.Conflicts.{synchronise_exchanges, synchronise_recreates}
use calbridge.Caldav.FullSync.Orphans.{NotSent, synchronise_loses_duplicate}
use calbridge.Caldav.FullSync.{Inputs, index_by_uid, index_synced, dedupe_keys, synchronise}

abbrev event : String → String → String → Event
event uid etag summary = record {
  path = codes "/src/x.ics";
  etag = codes etag;
  ical = codes "BEGIN:VCALENDAR";
  uid = codes uid;
  summary = codes summary;
  start_time = codes "20260112T170000Z";
}

-- Every call succeeds, at a fixed time, and maps are visited in the order of their entries.
abbrev quiet : List Event → List Event → List SyncedEvent → Env
quiet source dest records = record {
  outcome = λ acts a. none;
  source_events = λ acts path. (ok source, []);
  dest_events = λ acts path. ok dest;
  dest_calendars = λ acts. ok (codes "/dest/" ∷ []);
  dest_url_path = codes "/";
  synced_events = λ acts. ok records;
  parse_ical = λ text. some [];
  parse_error = λ text. codes "malformed";
  now = λ acts. 1000 * second;
  days_before = λ t days. t - days * 86400 * second;
  parse_time = λ layout value. none;
  visit_synced = λ d. d;
  visit_events = λ d. d;
  visit_groups = λ d. d;
  visit_uids = λ d. d;
}

abbrev home : Source
home = record {
  id = codes "s1";
  name = codes "Home";
  sync_interval = 300;
  sync_days_past = 30;
  sync_direction = two_way;
  conflict_strategy = dest_wins;
  selected_calendars = [];
}

abbrev work : Calendar
work = record { path = codes "/src/"; name = codes "Work" }

abbrev env : Env
env =
    quiet (event "a" "1" "Lunch" ∷ event "b" "1" "Tea" ∷ []) (event "b" "2" "Tea" ∷ [])
      (record { event_uid = codes "a"; updated_at = 0 } ∷ [])

abbrev dest_event : Event
dest_event = record (event "b" "2" "Tea") { path = codes "/dest/b.ics" }

abbrev inputs : List Event → List Event → List SyncedEvent → Inputs
inputs source dest records = record {
  dest_path = codes "/dest/";
  source_events = source;
  dest_events = dest;
  previously = index_synced records [];
  so_far = initial;
}

-- One event on both sides, changed since.
synchronise_exchanges_example :
    let acts =
      (synchronise env home work (inputs (event "b" "1" "Tea" ∷ []) (dest_event ∷ []) [])).acts in
    Before
      (put_dest (codes "/dest/b.ics") (record (event "b" "1" "Tea") { path = codes "/dest/b.ics" }))
      (put_source (codes "/src/x.ics") (record dest_event { path = codes "/src/x.ics" }))
      acts
unfolding index_by_uid put get plan_put has_prefix sync_direction_for_calendar ◌==◌
synchronise_exchanges_example =
    synchronise_exchanges env home work (inputs (event "b" "1" "Tea" ∷ []) (dest_event ∷ []) [])
      (event "b" "1" "Tea") dest_event [] (codes "/dest/b.ics") (codes "/src/x.ics") refl refl refl
      (inl refl) refl refl refl refl refl refl refl

abbrev old_record : SyncedEvent
old_record = record { event_uid = codes "a"; updated_at = 0 }

-- "a" was deleted on the destination; "b" is still there.
synchronise_recreates_example :
    let acts =
      (synchronise env home work
        (inputs (event "a" "1" "Lunch" ∷ []) (dest_event ∷ []) (old_record ∷ []))).acts in
    Before
      (delete_source (codes "/src/x.ics"))
      (put_dest (codes "/dest/a.ics") (event "a" "1" "Lunch"))
      acts
unfolding index_by_uid index_synced dedupe_keys is_dupe dedupe_key put get plan_put has_prefix
    trim_suffix sync_direction_for_calendar ◌==◌
synchronise_recreates_example =
    synchronise_recreates env home work
      (inputs (event "a" "1" "Lunch" ∷ []) (dest_event ∷ []) (old_record ∷ []))
      (event "a" "1" "Lunch") [] old_record [] (codes "/dest/a.ics") refl refl refl refl refl refl
      refl refl (omega arith) (omega arith) refl

abbrev mirror : Source
mirror = record home { sync_direction = one_way; conflict_strategy = source_wins }

-- The same event under two UIDs.
synchronise_loses_duplicate_example :
    let acts =
      (synchronise env mirror work (inputs (event "a" "1" "Tea" ∷ []) (dest_event ∷ []) [])).acts in
    In (delete_dest (codes "/dest/b.ics")) acts × All NotSent acts
unfolding dedupe_key sync_direction_for_calendar ◌==◌
synchronise_loses_duplicate_example =
    synchronise_loses_duplicate env mirror work
      (inputs (event "a" "1" "Tea" ∷ []) (dest_event ∷ []) []) (event "a" "1" "Tea") dest_event refl
      refl refl refl refl refl refl refl refl refl refl tt
