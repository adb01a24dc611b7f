-- ===== src/Store/Deletion.antt =====
-- What is left of a source that internal/db/queries.go deletes.
use calbridge.Common.{
  ap, inl, inr, not, List, [], ◌∷◌, Bool-cases, ◌≡◌, refl, Text, Bool, true, false, ◌==◌,
  if◌then◌else◌,
}
use calbridge.Store.{Tables, Db, ok, first_conn, rest_conns}
use calbridge.Store.Rows.{remove, select, exists}
use calbridge.Store.Sources.{without_source, delete_source_rows, delete_source}
use calbridge.Store.Served.{exec_served, affected-exists}

-- The rows of other sources, or all of them where the database does not cascade.
abbrev pub others : {A : Type 0} → Bool → (A → Bool) → List A → List A
others keys own rows = if keys then select (λ r. not (own r)) rows else rows

-- All tables without a source, and without its rows where the database cascades.
unfoldable pub without : Text → Bool → Tables → Tables
without id keys t = record t {
  sources = select (λ s. not (s.id == id)) t.sources;
  sync_states = others keys (λ r. r.source_id == id) t.sync_states;
  sync_logs = others keys (λ r. r.source_id == id) t.sync_logs;
  synced_events = others keys (λ r. r.source_id == id) t.synced_events;
  malformed_events = others keys (λ r. r.source_id == id) t.malformed_events;
}

remove-select : {A : Type 0} (p : A → Bool) (xs : List A) → remove p xs ≡ select (λ x. not (p x)) xs
unfolding remove select
remove-select p [] = refl
remove-select p (x ∷ xs) = elim (Bool-cases (p x)) [
  | inl e ↦ rw e (remove-select p xs)
  | inr e ↦ rw e (ap (λ ys. x ∷ ys) (remove-select p xs))
]

without_source-without :
    (id : Text) (keys : Bool) (t : Tables) → without_source id keys t ≡ without id keys t
unfolding without_source without
without_source-without id false t = rw (remove-select (λ s. s.id == id) t.sources) refl
without_source-without id true t =
    rw
      (
        remove-select (λ s. s.id == id) t.sources,
        remove-select (λ r. r.source_id == id) t.sync_states,
        remove-select (λ r. r.source_id == id) t.sync_logs,
        remove-select (λ r. r.source_id == id) t.synced_events,
        remove-select (λ r. r.source_id == id) t.malformed_events,
      )
      refl

delete_source_served :
    (id : Text) (db : Db)
    → (first_conn db.conns).answers ≡ true
    → exists (λ s. s.id == id) db.tables.sources ≡ true
    → delete_source id db ≡ (
      ok tt,
      record db {
        conns = rest_conns db.conns;
        tables = without_source id (first_conn db.conns).foreign_keys db.tables;
      },
    )
unfolding delete_source delete_source_rows
delete_source_served id db served there =
    rw (exec_served (delete_source_rows id) db served)
      (affected-exists (λ s. s.id == id) db.tables.sources _ there)

-- Where the source exists and the connection answers, its deletion succeeds. It leaves the rows of all
-- other sources, in their order, and no row of this one; of the sync states, sync logs, synced events and
-- malformed events, a connection that enforces the foreign keys leaves those of other sources, in their
-- order, and another connection leaves all; the other tables stay as they were.
pub delete_source-without :
    (id : Text) (db : Db)
    → (first_conn db.conns).answers ≡ true
    → exists (λ s. s.id == id) db.tables.sources ≡ true
    → ((delete_source id db).0 ≡ ok tt)
      × ((delete_source id db).1.tables ≡ without id (first_conn db.conns).foreign_keys db.tables)
delete_source-without id db served there =
    rw (delete_source_served id db served there)
      (refl, without_source-without id (first_conn db.conns).foreign_keys db.tables)
