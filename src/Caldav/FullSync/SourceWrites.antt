-- ===== src/Caldav/FullSync/SourceWrites.antt =====
-- When a full sync of internal/caldav/sync.go writes to the source.
use calbridge.Common.{
  ◌*◌, ◌^◌, ◌<◌, ◌++◌, ◌||◌, ◌⊎◌, codes, trim_suffix, has_prefix, ◌≡◌, ◌≢◌, Text, [], some, true,
  false, not, ◌==◌, All, In,
}
use calbridge.Common.Dict.{Dict, get}
use calbridge.Caldav.{
  Event, Calendar, Source, SyncedEvent, SyncDirection, is_dest_wins, is_two_way, second,
  sync_direction_for_calendar,
}
use calbridge.Caldav.World.{Env, State, Act, delete_source, put_source}
use calbridge.Caldav.FullSync.{Inputs, compared, index_by_uid}
use calbridge.Caldav.FullSync.DeletionSafety.{Grounds, GoneFromDest}

-- The grounds of the deletion phase: the maps of the comparison and the clock at its start.
abbrev pub grounds : Env → Source → Inputs → Grounds
grounds env source i = record {
  interval = source.sync_interval * second;
  now = env.now (compared i).acts;
  records = env.visit_synced i.previously;
  source = index_by_uid i.source_events [];
  dest = index_by_uid i.dest_events [];
}

-- A write of a destination event over the source's event of the same UID.
pub record Overwrites (i : Inputs) (written : Event) : Type 0 where
  pub from_dest : Event
  pub on_source : Event
  pub listed : In from_dest i.dest_events
  pub same_uid : get from_dest.uid (index_by_uid i.source_events []) ≡ some on_source
  pub changed : (from_dest.etag == on_source.etag) ≡ false
  pub content : written ≡ record from_dest { path = on_source.path }

-- The path to which PutEvent sends: the event's own where it lies in the calendar, or else a file in the
-- calendar with the event's UID as its name (any name, for an event without a UID).
abbrev pub SentTo : Text → Event → Text → Type 0
SentTo calendar_path e path =
    ((has_prefix e.path calendar_path ≡ true) × (path ≡ e.path))
    ⊎ (((e.path == [] || not (has_prefix e.path calendar_path)) ≡ true)
        × ((uid : Text) × ((e.uid ≡ []) ⊎ (uid ≡ e.uid))
            × (path ≡ trim_suffix calendar_path (codes "/") ++ codes "/" ++ uid ++ codes ".ics")))

-- What a sync may do to the source; all else is no concern of it.
abbrev pub SourceAct : Env → Source → Calendar → Inputs → Act → Type 0
SourceAct env source calendar i (delete_source path) =
    (is_two_way (sync_direction_for_calendar source calendar.path) ≡ true)
    × (index_by_uid i.dest_events [] ≢ [])
    × GoneFromDest (grounds env source i) path
SourceAct env source calendar i (put_source path e) =
    (is_two_way (sync_direction_for_calendar source calendar.path) ≡ true)
    × (is_dest_wins source.conflict_strategy ≡ true)
    × Overwrites i e
    × SentTo calendar.path e path
SourceAct env source calendar i _ = Unit

-- `range` visits entries of the map only.
abbrev pub VisitsEntries : Env → Type 0
VisitsEntries env =
    (d : Dict SyncedEvent) (x : Text × SyncedEvent) → In x (env.visit_synced d) → In x d

module _ (env : Env) (source : Source) (calendar : Calendar) (i : Inputs)
    (visits : VisitsEntries env) (fits : source.sync_interval * second < 2 ^ 63) where
  abbrev direction : SyncDirection
  direction = sync_direction_for_calendar source calendar.path

  abbrev g : Grounds
  g = grounds env source i

  abbrev P : Act → Type 0
  P = SourceAct env source calendar i

  -- After the deletion phase.
  record Deleted (t : State) : Type 0 where
    acts : All P t.acts
    sub : (u : Text) (e : Event) → get u t.source_map ≡ some e → get u g.source ≡ some e
