-- ===== src/Caldav/FullSync/Duplicates.antt =====
-- SyncEngine.cleanupDuplicates of internal/caldav/sync.go.
use calbridge.Common.{
  ℕ, ◌+◌, Text, List, [], ◌∷◌, ◌++◌, Option, none, some, eqb, ◌==◌, if◌then◌else◌,
}
use calbridge.Common.Dict.{Dict, get, put}
use calbridge.Caldav.{Event, dedupe_key, empty_key}
use calbridge.Caldav.World.{Env, State, delete_dest, Reply, ok, err, after, failure}

unfoldable pub group_of : Option (List Event) → List Event
group_of none = []
group_of (some es) = es

-- The events by key, in the order in which the server lists them.
unfoldable pub group_events : List Event → Dict (List Event) → Dict (List Event)
unfolding group_of
group_events [] groups = groups
group_events (e ∷ es) groups =
    let key = dedupe_key e in
    group_events es
      (if key == empty_key then groups else put key (group_of (get key groups) ++ e ∷ []) groups)

-- The first event whose UID the source has; the first of all if there is none.
unfoldable pub find_keep : Dict Event → ℕ → List Event → ℕ
find_keep source_map i [] = 0
find_keep source_map i (e ∷ es) =
    let rest = find_keep source_map (i + 1) es in
    elim (get e.uid source_map) [ none ↦ rest | some _ ↦ i ]

unfoldable pub count_removed : Option Text → State → State
count_removed none s = record s { duplicates_removed = s.duplicates_removed + 1 }
count_removed (some m) s = s

-- Delete all but the event at the index that is kept.
unfoldable pub delete_others : Env → ℕ → ℕ → List Event → State → State
unfolding count_removed
delete_others env keep i [] s = s
delete_others env keep i (e ∷ es) s = delete_others env keep (i + 1) es (
    if eqb i keep
    then s
    else count_removed (failure env (delete_dest e.path) s) (after (delete_dest e.path) s))

unfoldable pub clean_group : Env → List Event → State → State
unfolding delete_others find_keep
clean_group env [] s = s
clean_group env (e ∷ []) s = s
clean_group env (e ∷ f ∷ es) s =
    delete_others env (find_keep s.source_map 0 (e ∷ f ∷ es)) 0 (e ∷ f ∷ es) s

unfoldable pub clean_groups : Env → Dict (List Event) → State → State
unfolding clean_group
clean_groups env [] s = s
clean_groups env ((key, es) ∷ rest) s = clean_groups env rest (clean_group env es s)

unfoldable pub clean_listed : Env → Reply (List Event) → State → State
unfolding clean_groups group_events
clean_listed env (err m) s = s
clean_listed env (ok es) s = clean_groups env (env.visit_groups (group_events es [])) s

unfoldable pub cleanup_duplicates : Env → Text → State → State
unfolding clean_listed
cleanup_duplicates env dest_path s = clean_listed env (env.dest_events s.acts dest_path) s
