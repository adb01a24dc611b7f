-- ===== src/Caldav/FullSync.antt =====
-- SyncEngine.fullSync of internal/caldav/sync.go, phase by phase. Log lines are left out.
pub mod Deletions
pub mod Push
pub mod Duplicates
pub mod DeletionSafety
pub mod PushActs
pub mod CleanActs
pub mod BackActs
pub mod DeletionFrame
pub mod Sends
pub mod Conflicts
pub mod Orphans
pub mod SourceWrites
pub mod Tests
use calbridge.Common.{
  ℕ, ◌+◌, ◌-◌, Text, List, [], ◌∷◌, Option, none, some, Bool, true, false, ◌||◌, codes, ltb, ◌==◌,
  length, if◌then◌else◌,
}
use calbridge.Common.Dict.{Dict, get, put, delete}
use calbridge.Caldav.{
  Event, Calendar, Source, SyncedEvent, SyncDirection, dedupe_key, empty_key,
  sync_direction_for_calendar,
}
use calbridge.Caldav.World.{
  Env, State, Act, clear_malformed, save_malformed, status, remember, Phase, fetching_source,
  fetching_dest, loaded, filtered, comparing, processing, Malformed, Reply, ok, err, initial, after,
  source_events_failed,
}
use Deletions.{handle_deletions}
use Push.{push_events, two_way_back, one_way_orphans}
use Duplicates.{cleanup_duplicates}

-- The layouts that a start time is tried with, in this order.
abbrev pub formats : List Text
formats =
    codes "20060102T150405Z"
    ∷ codes "20060102T150405"
    ∷ codes "20060102"
    ∷ codes "2006-01-02T15:04:05Z"
    ∷ codes "2006-01-02"
    ∷ []

unfoldable pub parse_first : (Text → Text → Option ℕ) → List Text → Text → Option ℕ
parse_first parse [] value = none
parse_first parse (f ∷ fs) value =
    let rest = parse_first parse fs value in elim (parse f value) [ none ↦ rest | some t ↦ some t ]

-- Whether an event is kept: it has no start time that can be read, or starts after the cutoff, or in
-- the future.
unfoldable pub is_recent : (Text → Text → Option ℕ) → ℕ → ℕ → Event → Bool
unfolding parse_first
is_recent parse cutoff now e =
    if e.start_time == [] then true else elim (parse_first parse formats e.start_time) [
      | none ↦ true
      | some t ↦ ltb cutoff t || ltb now t
    ]

unfoldable pub filter_events_by_date : (Text → Text → Option ℕ) → ℕ → ℕ → List Event → List Event
unfolding is_recent
filter_events_by_date parse cutoff now [] = []
filter_events_by_date parse cutoff now (e ∷ es) =
    let rest = filter_events_by_date parse cutoff now es in
    if is_recent parse cutoff now e then e ∷ rest else rest

-- Both lists of events go through the filter when a window is configured.
unfoldable pub in_window : Env → Source → List Act → List Event → List Event
unfolding filter_events_by_date
in_window env source acts es =
    if ltb 0 source.sync_days_past
    then filter_events_by_date env.parse_time (env.days_before (env.now acts) source.sync_days_past)
        (env.now acts) es
    else es

-- The events of a list by their UIDs; of two with one UID the later one stays.
unfoldable pub index_by_uid : List Event → Dict Event → Dict Event
index_by_uid [] d = d
index_by_uid (e ∷ es) d = index_by_uid es (if e.uid == [] then d else put e.uid e d)

unfoldable pub index_synced : List SyncedEvent → Dict SyncedEvent → Dict SyncedEvent
index_synced [] d = d
index_synced (r ∷ rs) d = index_synced rs (put r.event_uid r d)

unfoldable pub dedupe_keys : List Event → Dict Bool → Dict Bool
dedupe_keys [] d = d
dedupe_keys (e ∷ es) d =
    dedupe_keys es (if dedupe_key e == empty_key then d else put (dedupe_key e) true d)

-- An error of the database or of the destination counts as an empty list.
unfoldable pub or_empty {ℓ} : {A : Type ℓ} → Reply (List A) → List A
or_empty (ok xs) = xs
or_empty (err m) = []

unfoldable pub save_all : List Malformed → State → State
save_all [] s = s
save_all (m ∷ ms) s = save_all ms (after (save_malformed m.path m.error_message) s)

unfoldable pub first_or : Text → List Text → Text
first_or url_path [] = url_path
first_or url_path (p ∷ ps) = p

-- The path of the destination calendar: the first that is found, else the path of the URL.
unfoldable pub dest_calendar_path : Env → List Act → Text
unfolding or_empty first_or
dest_calendar_path env acts = first_or env.dest_url_path (or_empty (env.dest_calendars acts))

-- for uid := range currentUIDs
unfoldable pub remember_uids : Dict Bool → State → State
remember_uids [] s = s
remember_uids ((uid, b) ∷ rest) s = remember_uids rest (after (remember uid) s)

-- What the comparison works on: both lists of events, the earlier records, and the state so far.
pub record Inputs : Type 0 where
  pub dest_path : Text
  pub source_events : List Event
  pub dest_events : List Event
  pub previously : Dict SyncedEvent
  pub so_far : State

-- The state in which the deletion phase begins.
unfoldable pub compared : Inputs → State
compared i = after (status (processing (length i.source_events))) (record (i.so_far) {
  source_map = index_by_uid i.source_events [];
  dest_map = index_by_uid i.dest_events [];
  dedupe_map = dedupe_keys i.dest_events [];
})

-- From the comparison on.
unfoldable pub synchronise : Env → Source → Calendar → Inputs → State
unfolding compared
synchronise env source calendar i =
    let direction = sync_direction_for_calendar source calendar.path in
    let s₂ = handle_deletions env source direction i.previously (compared i) in
    let s₃ = push_events env i.dest_path i.source_events s₂ in
    let s₄ = two_way_back env source direction calendar.path i.dest_events s₃ in
    let s₅ = one_way_orphans env source direction s₄ in
    let s₆ = cleanup_duplicates env i.dest_path s₅ in
    remember_uids (env.visit_uids s₆.current_uids) s₆

unfoldable pub report_filtered : Source → ℕ → ℕ → State → State
report_filtered source before now s =
    if ltb 0 source.sync_days_past
    then (if ltb 0 (before - now) then after (status (filtered now (before - now))) s else s)
    else s

-- From the fetched source events to the inputs of the comparison.
unfoldable pub prepare : Env → Source → List Event → List Malformed → State → Inputs
prepare env source fetched malformed s₀ =
    let s₁ = after (status (loaded (length fetched))) s₀ in
    let source_events = in_window env source s₁.acts fetched in
    let s₂ = report_filtered source (length fetched) (length source_events) s₁ in
    let s₃ = save_all malformed s₂ in
    let dest_path = dest_calendar_path env s₃.acts in
    let s₄ = after (status fetching_dest) s₃ in
    let dest_events = in_window env source s₄.acts (or_empty (env.dest_events s₄.acts dest_path)) in
    let s₅ = after (status (comparing (length source_events) (length dest_events))) s₄ in
    record {
      dest_path = dest_path;
      source_events = source_events;
      dest_events = dest_events;
      previously = index_synced (or_empty (env.synced_events s₅.acts)) [];
      so_far = s₅;
    }

unfoldable pub on_fetch :
    Env → Source → Calendar → Reply (List Event) × List Malformed → State → State
on_fetch env source calendar (err m, malformed) s = record s {
  errors = source_events_failed m ∷ s.errors;
}
on_fetch env source calendar (ok fetched, malformed) s =
    synchronise env source calendar (prepare env source fetched malformed s)

-- The state in which the source's events are fetched.
abbrev pub cleared : State
cleared = after (status fetching_source) (after clear_malformed initial)

unfoldable pub full_sync : Env → Source → Calendar → State
full_sync env source calendar =
    on_fetch env source calendar (env.source_events cleared.acts calendar.path) cleared
