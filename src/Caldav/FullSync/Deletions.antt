-- ===== src/Caldav/FullSync/Deletions.antt =====
-- The phase of SyncEngine.fullSync that carries deletions over, in a two-way sync.
use calbridge.Common.{
  ℕ, ◌+◌, ◌*◌, Text, List, [], ◌∷◌, Option, none, some, Bool, true, false, not, ◌&&◌, Duration,
  wrapped, negate, is_after, if◌then◌else◌,
}
use calbridge.Common.Dict.{Dict, get, delete}
use calbridge.Caldav.{Event, Source, SyncedEvent, SyncDirection, is_two_way, second}
use calbridge.Caldav.World.{
  Env, State, delete_dest, delete_source, forget, dest_delete_failed, source_delete_failed, after,
  failure, update_progress, warn,
}

-- A failed deletion is a warning, a successful one is counted.
unfoldable pub count_deletion : (Text → State → State) → Option Text → State → State
count_deletion failed none s = update_progress (record s { deleted = s.deleted + 1 })
count_deletion failed (some e) s = failed e s

-- Deleted on the source: delete it on the destination.
unfoldable pub gone_from_source : Env → Text → Event → State → State
unfolding count_deletion
gone_from_source env uid e s =
    let a = delete_dest e.path in
    let t = count_deletion (λ m. warn (dest_delete_failed m)) (failure env a s) (after a s) in
    let u = after (forget uid) t in record u { dest_map = delete uid u.dest_map }

-- Deleted on the destination: delete it on the source, unless the record is too recent.
unfoldable pub gone_from_dest : Env → Duration → ℕ → Text → SyncedEvent → Event → State → State
unfolding count_deletion is_after negate
gone_from_dest env interval now uid synced e s =
    if is_after synced.updated_at now (negate interval)
    then s
    else let a = delete_source e.path in
      let t = count_deletion (λ m. warn (source_delete_failed m)) (failure env a s) (after a s) in
      let u = after (forget uid) t in record u { source_map = delete uid u.source_map }

unfoldable pub handle_record :
    Env → Duration → ℕ → Text → SyncedEvent → Option Event → Option Event → State → State
unfolding gone_from_source gone_from_dest
handle_record env interval now uid synced none (some d) s = gone_from_source env uid d s
handle_record env interval now uid synced (some e) none s =
    gone_from_dest env interval now uid synced e s
handle_record env interval now uid synced none none s = after (forget synced.event_uid) s
handle_record env interval now uid synced (some e) (some d) s = s

-- for uid, syncedEvent := range previouslySyncedMap
unfoldable pub handle_records : Env → Duration → ℕ → Dict SyncedEvent → State → State
unfolding handle_record
handle_records env interval now [] s = s
handle_records env interval now ((uid, synced) ∷ rest) s =
    handle_records env interval now rest
      (handle_record env interval now uid synced (get uid s.source_map) (get uid s.dest_map) s)

abbrev pub is_empty {ℓ} : {V : Type ℓ} → List V → Bool
is_empty [] = true
is_empty (x ∷ xs) = false

-- The threshold is time.Now().Add(-interval), the interval being a product that wraps on 64 bits.
unfoldable pub handle_deletions : Env → Source → SyncDirection → Dict SyncedEvent → State → State
unfolding handle_records wrapped
handle_deletions env source direction previously s =
    let skip = is_two_way direction && (is_empty s.dest_map && not (is_empty previously)) in
    if is_two_way direction && not skip
    then handle_records env (wrapped (source.sync_interval * second)) (env.now s.acts)
        (env.visit_synced previously) s
    else s
