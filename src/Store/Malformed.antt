-- ===== src/Store/Malformed.antt =====
-- The malformed events of internal/db/queries.go: the events that could not be read, by their sources.
use calbridge.Common.{
  ℕ, Text, List, [], ◌∷◌, ◌++◌, Option, none, some, Bool, true, ◌&&◌, ◌||◌, ◌==◌, leb,
  if◌then◌else◌,
}
use calbridge.Store.{
  SourceRow, MalformedEvent, Tables, M, ◌>>=◌, return, Statement, exec, query, found, affected,
  read_clock, new_uuid,
}
use calbridge.Store.Rows.{remove, count, exists, first, order_by}
use calbridge.Store.Syncs.{may_refer}

-- INSERT OR REPLACE: the rows that the new one conflicts with go.
unfoldable pub replace_event : MalformedEvent → Statement
unfolding remove may_refer
replace_event m keys t =
    if may_refer keys m.source_id t
    then some (
      1,
      record t {
        malformed_events =
            m
            ∷ remove
                (λ r. r.id == m.id || r.source_id == m.source_id && r.event_path == m.event_path)
                t.malformed_events;
      },
    )
    else none

unfoldable pub save_malformed_event : Text → Text → Text → M (Unit {0})
unfolding replace_event
save_malformed_event source_id path message = do
  id ← new_uuid
  now ← read_clock
  let m : MalformedEvent = record {
    id = id;
    source_id = source_id;
    source_name = [];
    event_path = path;
    error_message = message;
    discovered_at = now;
  }
  n ← exec (replace_event m)
  return tt

-- A malformed event with the name of its source.
abbrev with_name : MalformedEvent → Option SourceRow → List MalformedEvent
with_name m none = []
with_name m (some s) = record m { source_name = s.name } ∷ []

-- malformed_events JOIN sources, where the source fits. The identifiers of sources are distinct.
unfoldable pub join :
    (SourceRow → Bool) → List SourceRow → List MalformedEvent → List MalformedEvent
unfolding first
join p sources [] = []
join p sources (m ∷ ms) =
    let rest = join p sources ms in
    with_name m (first (λ s. m.source_id == s.id && p s) sources) ++ rest

abbrev newer : MalformedEvent → MalformedEvent → Bool
newer a b = leb b.discovered_at a.discovered_at

unfoldable pub get_malformed_events : Text → M (List MalformedEvent)
unfolding join
get_malformed_events user_id =
    query (λ t. order_by newer (join (λ s. s.user_id == user_id) t.sources t.malformed_events))

pub get_malformed_event_by_id : Text → M MalformedEvent
unfolding join first
get_malformed_event_by_id id = do
  o ← query (λ t. first (λ m. m.id == id) (join (λ s. true) t.sources t.malformed_events))
  found o

unfoldable pub get_malformed_event_by_id_for_user : Text → Text → M MalformedEvent
unfolding join first
get_malformed_event_by_id_for_user id user_id = do
  o ←
      query (λ t.
        first (λ m. m.id == id) (join (λ s. s.user_id == user_id) t.sources t.malformed_events))
  found o

unfoldable pub remove_malformed : (Tables → MalformedEvent → Bool) → Statement
unfolding remove count
remove_malformed p keys t = some (
  count (p t) t.malformed_events,
  record t { malformed_events = remove (p t) t.malformed_events },
)

unfoldable pub delete_malformed_event : Text → M (Unit {0})
unfolding remove_malformed
delete_malformed_event id = do n ← exec (remove_malformed (λ t m. m.id == id)); affected n

unfoldable pub clear_malformed_events_for_source : Text → M (Unit {0})
unfolding remove_malformed
clear_malformed_events_for_source source_id = do
  n ← exec (remove_malformed (λ t m. m.source_id == source_id))
  return tt

-- The source of the event is one of the user's.
unfoldable pub of_user : Text → Tables → MalformedEvent → Bool
unfolding exists
of_user user_id t m = exists (λ s. s.id == m.source_id && s.user_id == user_id) t.sources

unfoldable pub delete_all_malformed_events_for_user : Text → M ℕ
unfolding remove_malformed of_user
delete_all_malformed_events_for_user user_id = exec (remove_malformed (of_user user_id))
