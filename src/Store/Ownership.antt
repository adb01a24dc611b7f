-- ===== src/Store/Ownership.antt =====
-- What internal/db/queries.go gives a user: only what is the user's own, and as it was written.
use calbridge.Common.{
  ℕ, ◌≡◌, ◌+◌, ==_refl, refl, ap, inl, inr, Text, List, [], ◌∷◌, none, some, Bool, true, false, not,
  ◌&&◌, ◌==◌, codes, if◌then◌else◌, Bool-cases, arith, ==_iff,
}
use calbridge.Store.{
  Source, SourceRow, CalendarConfig, Db, Result, not_found, read_clock, ok, err, ◌>>=◌, return,
  found, first_conn, rest_conns,
}
use calbridge.Store.Served.{exec_served, query_served, id_or_new_empty}
use calbridge.Store.Rows.{exists, first}
use calbridge.Store.Calendars.{
  Json, is_set, calendars_column, read_calendars, parse_selected_calendars, from_configs,
  is_new_format,
}
use calbridge.Store.Sources.{
  or_one_way, or_one_way-twice, to_row, as_created, as_inserted, insert_source, create_source,
  scan_source, get_source_by_id, get_source_by_id_for_user,
}

-- The source is found exactly where the user has it.
unfoldable pub IsAnswer : Bool → Text → Text → Result Source → Type 0
IsAnswer true id user_id (ok s) = (s.id ≡ id) × (s.user_id ≡ user_id)
IsAnswer true id user_id (err e) = ⊥
IsAnswer false id user_id (ok s) = ⊥
IsAnswer false id user_id (err e) = e ≡ not_found

-- The calendars that the column gives back as they were: none, or some of which the first has a path, in
-- JSON that is not empty and is read back.
unfoldable pub AreKept : Json → List CalendarConfig → Type 0
AreKept json [] = Unit
AreKept json (c ∷ cs) =
    (is_set c.path ≡ true)
    × (is_set (json.encode (c ∷ cs)) ≡ true)
    × (json.decode_configs (json.encode (c ∷ cs)) ≡ some (c ∷ cs))

read_calendars-set :
    (json : Json) (s : Text)
    → is_set s ≡ true
    → read_calendars json (some s) ≡ from_configs json s (json.decode_configs s)
unfolding read_calendars parse_selected_calendars is_set
read_calendars-set json [] h = cc
read_calendars-set json (c ∷ cs) h = refl

read_calendars-column :
    (json : Json) (cs : List CalendarConfig)
    → AreKept json cs
    → read_calendars json (calendars_column json cs) ≡ cs
unfolding AreKept read_calendars calendars_column from_configs is_new_format
read_calendars-column json [] h = refl
read_calendars-column json (c ∷ cs) h =
    rw (read_calendars-set json (json.encode (c ∷ cs)) h.1, h.2, h.0) refl

-- A row of which the identifier, or another test, is known, among the rows.
first-own :
    (json : Json) (id user_id : Text) (rows : List SourceRow) (db : Db)
    → IsAnswer
        (exists (λ s. s.id == id && s.user_id == user_id) rows)
        id
        user_id
        ((found (first (λ s. s.id == id && s.user_id == user_id) rows) >>= λ r.
            return (scan_source json r))
          db).0
unfolding IsAnswer found exists first scan_source
first-own json id user_id [] db = refl
first-own json id user_id (r ∷ rs) db = elim (Bool-cases (r.id == id && r.user_id == user_id)) [
  | inl e ↦ rw e (
    grind (arith, ==_iff r.id id, ==_iff r.user_id user_id),
    grind (arith, ==_iff r.id id, ==_iff r.user_id user_id),
  )
  | inr e ↦ rw e (first-own json id user_id rs db)
]

-- Where the connection answers, the query for a user's source gives a source with the identifier asked
-- for that belongs to the user exactly where the user has one, and otherwise says that it is not found,
-- also where the source is another user's.
pub get_source_by_id_for_user-IsAnswer :
    (json : Json) (id user_id : Text) (db : Db)
    → (first_conn db.conns).answers ≡ true
    → IsAnswer
        (exists (λ s. s.id == id && s.user_id == user_id) db.tables.sources)
        id
        user_id
        (get_source_by_id_for_user json id user_id db).0
unfolding get_source_by_id_for_user
get_source_by_id_for_user-IsAnswer json id user_id db served =
    rw (query_served (λ t. first (λ s. s.id == id && s.user_id == user_id) t.sources) db served)
      (first-own json id user_id db.tables.sources (record db { conns = rest_conns db.conns }))

-- The direction of a new source.
or_one_way_lem : (d : Text) → or_one_way d ≡ (if d == [] then codes "one_way" else d)
unfolding or_one_way ◌==◌
or_one_way_lem [] = refl
or_one_way_lem (c ∷ cs) = refl

scan_source-to_row :
    (json : Json) (s : Source) (id : Text) (now : ℕ)
    → AreKept json s.selected_calendars
    → scan_source json (as_inserted (to_row json (as_created s id now))) ≡ record s {
      id = id;
      created_at = now;
      updated_at = now;
      sync_direction = if s.sync_direction == [] then codes "one_way" else s.sync_direction;
      last_sync_at = none;
      last_sync_status = codes "pending";
      last_sync_message = [];
    }
unfolding scan_source as_inserted to_row as_created
scan_source-to_row json s id now h =
    rw
      (
        read_calendars-column json s.selected_calendars h,
        or_one_way-twice s.sync_direction,
        or_one_way_lem s.sync_direction,
      )
      refl

create_source_served :
    (json : Json) (s : Source) (db : Db)
    → s.id ≡ []
    → (first_conn db.conns).answers ≡ true
    → exists (λ r. r.id == db.uuids db.made) db.tables.sources ≡ false
    → ((first_conn db.conns).foreign_keys && not (exists (λ u. u.id == s.user_id) db.tables.users))
      ≡ false
    → create_source json s db ≡ (
      ok (as_created s (db.uuids db.made) db.clock),
      record db {
        made = db.made + 1;
        conns = rest_conns db.conns;
        tables = record db.tables {
          sources =
              as_inserted (to_row json (as_created s (db.uuids db.made) db.clock))
              ∷ db.tables.sources;
        };
      },
    )
unfolding create_source read_clock insert_source to_row as_created
create_source_served json s db no_id served fresh user =
    let row = to_row json (as_created s (db.uuids db.made) db.clock) in
    rw
      (
        id_or_new_empty s.id db no_id,
        exec_served (insert_source row) (record db { made = db.made + 1 }) served,
        fresh,
        user,
      )
      refl

-- Where the connections answer, the source has no identifier yet, the new one is fresh, the user exists
-- or is not checked, and its selected calendars are kept, a source that is created is found under its
-- identifier as it was given, with the status `pending`, the two times, the direction `one_way` where none
-- was given, and no last sync.
pub create_source-get_source_by_id :
    (json : Json) (s : Source) (db : Db)
    → s.id ≡ []
    → (first_conn db.conns).answers ≡ true
    → (first_conn (rest_conns db.conns)).answers ≡ true
    → exists (λ r. r.id == db.uuids db.made) db.tables.sources ≡ false
    → ((first_conn db.conns).foreign_keys && not (exists (λ u. u.id == s.user_id) db.tables.users))
      ≡ false
    → AreKept json s.selected_calendars
    → (get_source_by_id json (db.uuids db.made) (create_source json s db).1).0
      ≡ ok (record s {
        id = db.uuids db.made;
        created_at = db.clock;
        updated_at = db.clock;
        sync_direction = if s.sync_direction == [] then codes "one_way" else s.sync_direction;
        last_sync_at = none;
        last_sync_status = codes "pending";
        last_sync_message = [];
      })
unfolding get_source_by_id first found as_inserted to_row as_created
create_source-get_source_by_id json s db no_id served served' fresh user kept =
    let id = db.uuids db.made in
    let db' = record db { made = db.made + 1; conns = rest_conns db.conns } in
    rw
      (
        create_source_served json s db no_id served fresh user,
        query_served (λ t. first (λ r. r.id == id) t.sources)
            (record db' {
              tables = record db.tables {
                sources = as_inserted (to_row json (as_created s id db.clock)) ∷ db.tables.sources;
              };
            })
            served',
        ==_refl id,
      )
      (ap ok (scan_source-to_row json s id db.clock kept))
