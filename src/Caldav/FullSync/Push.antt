-- ===== src/Caldav/FullSync/Push.antt =====
-- The phases of SyncEngine.fullSync that write events: source to destination, back to the source in
-- a two-way sync, and the deletion of what the destination alone has in a one-way sync.
use calbridge.Common.{
  ◌+◌, Text, List, [], ◌∷◌, Option, none, some, Bool, true, false, not, ◌&&◌, ◌==◌, if◌then◌else◌,
}
use calbridge.Common.Dict.{Dict, get, put, delete}
use calbridge.Caldav.{
  Event, Source, SyncDirection, is_one_way, is_two_way, is_source_wins, is_dest_wins, dedupe_key,
  empty_key, is_already_exists_error, is_forbidden_error,
}
use calbridge.Caldav.Put.{Plan, skip, unparsable, send, plan_put}
use calbridge.Caldav.World.{
  Env, State, Act, delete_dest, put_dest, put_source, create_failed, update_failed,
  source_update_failed, orphan_delete_failed, after, failure, update_progress, warn,
}

-- Client.PutEvent: the error, and the state after the request, if one is made.
unfoldable pub carry_out : Env → (Text → Act) → Event → Plan → State → Option Text × State
carry_out env act e skip s = (none, s)
carry_out env act e unparsable s = (some (env.parse_error e.ical), s)
carry_out env act e (send path) s = (failure env (act path) s, after (act path) s)

unfoldable pub put_event : Env → (Text → Event → Act) → Text → Event → State → Option Text × State
unfolding carry_out
put_event env act calendar_path e s =
    carry_out env (λ path. act path e) e (plan_put env.parse_ical calendar_path e) s

unfoldable pub note_uid : Text → State → State
note_uid uid s = record s { current_uids = put uid true s.current_uids }

abbrev pub processed : State → State
processed s = update_progress (record s { events_processed = s.events_processed + 1 })

unfoldable pub is_dupe : Text → Dict Bool → Bool
is_dupe key seen = elim (get key seen) [ none ↦ false | some b ↦ b ]

unfoldable pub skip_duplicate : State → State
skip_duplicate s =
    update_progress
      (record s { skipped = s.skipped + 1; events_processed = s.events_processed + 1 })

unfoldable pub mark_key : Text → State → State
mark_key key s =
    if not (key == empty_key) then record s { dedupe_map = put key true s.dedupe_map } else s

unfoldable pub created_one : Event → Option Text → State → State
unfolding mark_key note_uid
created_one e none s =
    note_uid e.uid (mark_key (dedupe_key e) (record s { created = s.created + 1 }))
created_one e (some m) s = warn (create_failed m) s

unfoldable pub updated_one : Event → Option Text → State → State
unfolding note_uid
updated_one e none s = note_uid e.uid (record s { updated = s.updated + 1 })
updated_one e (some m) s = warn (update_failed m) s

unfoldable pub create_on_dest : Env → Text → Event → State → State
unfolding put_event created_one
create_on_dest env dest_path e s =
    let (failed, t) = put_event env put_dest dest_path e s in processed (created_one e failed t)

unfoldable pub update_on_dest : Env → Text → Event → Event → State → State
unfolding put_event updated_one
update_on_dest env dest_path e d s =
    let (failed, t) = put_event env put_dest dest_path (record e { path = d.path }) s in
    processed (updated_one e failed t)

unfoldable pub drop_from_dest_map : Text → State → State
drop_from_dest_map uid s = record s { dest_map = delete uid s.dest_map }

-- The body of the loop for an event that has a UID, by what the destination has under that UID. A
-- duplicate is left by `continue`, before the last line of the body.
unfoldable pub push_event : Env → Text → Event → Option Event → State → State
unfolding create_on_dest update_on_dest skip_duplicate drop_from_dest_map is_dupe
push_event env dest_path e none s =
    if not (dedupe_key e == empty_key) && is_dupe (dedupe_key e) s.dedupe_map
    then skip_duplicate s
    else drop_from_dest_map e.uid (create_on_dest env dest_path e s)
push_event env dest_path e (some d) s = drop_from_dest_map e.uid (
    if not (e.etag == d.etag)
    then update_on_dest env dest_path e d s
    else processed (note_uid e.uid s))

-- for _, sourceEvent := range sourceEvents
unfoldable pub push_events : Env → Text → List Event → State → State
unfolding push_event
push_events env dest_path [] s = s
push_events env dest_path (e ∷ es) s =
    push_events env dest_path es
      (if e.uid == [] then s else push_event env dest_path e (get e.uid s.dest_map) s)

-- The body of the loop back to the source for an event of the destination, by what the source has.
-- Both skip counters of the code only feed a log line.
unfoldable pub written_back : Option Text → State → State
written_back none s = record s { updated = s.updated + 1 }
written_back (some m) s =
    if is_already_exists_error m
    then s
    else if is_forbidden_error m
    then s
    else warn (source_update_failed m) s

unfoldable pub write_back : Env → Source → Text → Event → Option Event → State → State
unfolding put_event written_back
write_back env source source_path d none s = s
write_back env source source_path d (some e) s =
    if not (d.etag == e.etag)
    then update_progress (
        if is_dest_wins source.conflict_strategy
        then (let (failed, t) =
              put_event env put_source source_path (record d { path = e.path }) s in
            written_back failed t)
        else s)
    else s

-- for _, destEvent := range destEvents
unfoldable pub write_back_events : Env → Source → Text → List Event → State → State
unfolding write_back
write_back_events env source source_path [] s = s
write_back_events env source source_path (d ∷ ds) s =
    write_back_events env source source_path ds
      (if d.uid == [] then s else write_back env source source_path d (get d.uid s.source_map) s)

unfoldable pub two_way_back : Env → Source → SyncDirection → Text → List Event → State → State
unfolding write_back_events
two_way_back env source direction source_path ds s =
    if is_two_way direction then write_back_events env source source_path ds s else s

unfoldable pub orphan_deleted : Option Text → State → State
orphan_deleted none s = update_progress (record s { deleted = s.deleted + 1 })
orphan_deleted (some m) s = warn (orphan_delete_failed m) s

-- for _, event := range destEventMap
unfoldable pub delete_orphans : Env → Dict Event → State → State
unfolding orphan_deleted
delete_orphans env [] s = s
delete_orphans env ((uid, e) ∷ rest) s =
    delete_orphans env rest
      (orphan_deleted (failure env (delete_dest e.path) s) (after (delete_dest e.path) s))

unfoldable pub one_way_orphans : Env → Source → SyncDirection → State → State
unfolding delete_orphans
one_way_orphans env source direction s =
    if is_one_way direction && is_source_wins source.conflict_strategy
    then delete_orphans env (env.visit_events s.dest_map) s
    else s
