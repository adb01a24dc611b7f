-- ===== src/Store/Etags.antt =====
-- The table of synced events as a map from the keys of events to their two etags.
use calbridge.Common.{
  ℕ, zero, suc, ◌+◌, ◌≡◌, refl, ap, ◌∙◌, subst, inl, inr, ◌⊎◌, Text, List, [], ◌∷◌, Option, none,
  some, Bool, true, false, ◌&&◌, ◌||◌, ◌==◌, if◌then◌else◌, Bool-cases, arith, ==_iff, ==_refl,
}
use calbridge.Store.{SyncedEvent, Db, Result, ok, first_conn, rest_conns, read_clock, exec}
use calbridge.Store.Rows.{update, count, exists, first}
use calbridge.Store.Syncs.{
  event_in, event_of, may_refer, write_etags, update_event, insert_event, upsert_synced_event,
}
use calbridge.Store.Served.{exec_served, id_or_new_empty}

unfoldable pub etags : Option SyncedEvent → Option (Text × Text)
etags none = none
etags (some e) = some (e.source_etag, e.dest_etag)

-- The etags that are kept of the event.
unfoldable pub lookup : Text → Text → Text → List SyncedEvent → Option (Text × Text)
unfolding etags first event_of
lookup source_id href uid events = etags (first (event_of source_id href uid) events)

-- A key of an event: its source, its calendar and its UID.
abbrev pub Key : Type 0
Key = Text × Text × Text

unfoldable pub fits : Key → SyncedEvent → Bool
unfolding event_of
fits k = event_of k.0 k.1 k.2

fits-write_etags :
    (e : SyncedEvent) (now : ℕ) (k : Key) (x : SyncedEvent)
    → fits k (write_etags e now x) ≡ fits k x
unfolding fits event_of event_in write_etags
fits-write_etags e now k x = refl

module _ {A : Type 0} (p : A → Bool) where
  exists-count : (xs : List A) → count p xs ≡ 0 → exists p xs ≡ false
  unfolding exists count
  exists-count [] h = refl
  exists-count (x ∷ xs) h = let IH = exists-count xs in ground arith

  update_none : (f : A → A) (xs : List A) → exists p xs ≡ false → update p f xs ≡ xs
  unfolding exists update
  update_none f [] h = refl
  update_none f (x ∷ xs) h = let IH = update_none f xs in ground arith

-- An update of the rows of one key, which leaves the keys alone.
lookup-update :
    (e : SyncedEvent) (now n : ℕ) (k : Key) (events : List SyncedEvent)
    → count (fits k) events ≡ suc n
    → etags (first (fits k) (update (fits k) (write_etags e now) events))
      ≡ some (e.source_etag, e.dest_etag)
unfolding etags first update count write_etags fits
lookup-update e now n k [] h = cc
lookup-update e now n k (x ∷ xs) h = elim (Bool-cases (fits k x)) [
  | inl t ↦ rw (t, fits-write_etags e now k x ∙ t) refl
  | inr t ↦
      rw (t, t)
        (lookup-update e now n k xs
          (subst (λ b. (if b then suc (count (fits k) xs) else count (fits k) xs) ≡ suc n) t h))
]

-- The rows of another key stay.
lookup-update_other :
    (e : SyncedEvent) (now : ℕ) (k l : Key) (events : List SyncedEvent)
    → ((x : SyncedEvent) → fits k x ≡ true → fits l x ≡ false)
    → first (fits l) (update (fits k) (write_etags e now) events) ≡ first (fits l) events
unfolding first update
lookup-update_other e now k l [] other = refl
lookup-update_other e now k l (x ∷ xs) other =
    let IH = lookup-update_other e now k l xs other in
    elim (Bool-cases (fits k x)) [
      | inl t ↦ rw (t, fits-write_etags e now l x, other x t) IH
      | inr t ↦ rw (t, IH) refl
    ]

exists_or :
    {A : Type 0} (p q : A → Bool) (xs : List A)
    → exists p xs ≡ false
    → exists q xs ≡ false
    → exists (λ x. p x || q x) xs ≡ false
unfolding exists
exists_or p q [] h k = refl
exists_or p q (x ∷ xs) h k = let IH = exists_or p q xs in ground arith

fits_own : (e : SyncedEvent) → fits (e.source_id, e.calendar_href, e.event_uid) e ≡ true
unfolding fits event_of event_in
fits_own e = rw (==_refl e.source_id, ==_refl e.calendar_href, ==_refl e.event_uid) refl

unfoldable pub same_key : Key → Key → Bool
same_key k l = k.0 == l.0 && k.1 == l.1 && k.2 == l.2

-- Two keys that differ fit no row together.
fits_other :
    (k l : Key) → same_key k l ≡ false → (x : SyncedEvent) → fits k x ≡ true → fits l x ≡ false
unfolding fits event_of event_in same_key
fits_other k l differ x h = grind (
  arith,
  ==_iff x.source_id k.0,
  ==_iff x.calendar_href k.1,
  ==_iff x.event_uid k.2,
  ==_iff x.source_id l.0,
  ==_iff x.calendar_href l.1,
  ==_iff x.event_uid l.2,
  ==_iff k.0 l.0,
  ==_iff k.1 l.1,
  ==_iff k.2 l.2,
)

abbrev pub key : SyncedEvent → Key
key e = (e.source_id, e.calendar_href, e.event_uid)

-- The event that is inserted.
abbrev stamped : SyncedEvent → Text → ℕ → SyncedEvent
stamped e id now = record e { id = id; created_at = now; updated_at = now }

-- The event is kept under its key, and every other key keeps what it has.
unfoldable pub IsWritten : SyncedEvent → Db → Result (Unit {0}) × Db → Type 0
unfolding lookup same_key
IsWritten e db r =
    (r.0 ≡ ok tt)
    × (lookup e.source_id e.calendar_href e.event_uid r.1.tables.synced_events
        ≡ some (e.source_etag, e.dest_etag))
    × ((l : Key)
        → same_key (key e) l ≡ false
        → lookup l.0 l.1 l.2 r.1.tables.synced_events ≡ lookup l.0 l.1 l.2 db.tables.synced_events)

count-cases : (n : ℕ) → (n ≡ 0) ⊎ ((m : ℕ) × (n ≡ suc m))
count-cases zero = inl refl
count-cases (suc m) = inr (m, refl)

insert_event_served :
    (e : SyncedEvent) (db : Db)
    → (first_conn db.conns).answers ≡ true
    → may_refer (first_conn db.conns).foreign_keys e.source_id db.tables ≡ true
    → exists (λ r. r.id == e.id) db.tables.synced_events ≡ false
    → exists (fits (key e)) db.tables.synced_events ≡ false
    → exec (insert_event e) db ≡ (
      ok 1,
      record db {
        conns = rest_conns db.conns;
        tables = record db.tables { synced_events = e ∷ db.tables.synced_events };
      },
    )
unfolding insert_event fits
insert_event_served e db served refers fresh new =
    rw
      (
        exec_served (insert_event e) db served,
        exists_or (λ r. r.id == e.id) (fits (key e)) db.tables.synced_events fresh new,
        refers,
      )
      refl

module _ (e : SyncedEvent) (db : Db) (served : (first_conn db.conns).answers ≡ true) where
  -- A row of the key is there.
  upsert_updates :
      (n : ℕ)
      → count (fits (key e)) db.tables.synced_events ≡ suc n
      → IsWritten e db (upsert_synced_event e db)
  unfolding IsWritten upsert_synced_event update_event read_clock fits lookup
  upsert_updates n h =
      rw (exec_served (update_event e db.clock) db served, h)
        (
          refl,
          lookup-update e db.clock n (key e) db.tables.synced_events h,
          λ l differ. ap etags (
              lookup-update_other e db.clock (key e) l db.tables.synced_events
                (fits_other (key e) l differ)),
        )

  -- No row of the key is there.
  upsert_inserts :
      e.id ≡ []
      → (first_conn (rest_conns db.conns)).answers ≡ true
      → may_refer (first_conn (rest_conns db.conns)).foreign_keys e.source_id db.tables ≡ true
      → exists (λ r. r.id == db.uuids db.made) db.tables.synced_events ≡ false
      → count (fits (key e)) db.tables.synced_events ≡ 0
      → IsWritten e db (upsert_synced_event e db)
  unfolding IsWritten upsert_synced_event update_event read_clock fits lookup etags first
  upsert_inserts no_id served' refers fresh h =
      let new = exists-count (fits (key e)) db.tables.synced_events h in
      rw
        (
          exec_served (update_event e db.clock) db served,
          h,
          update_none (fits (key e)) (write_etags e db.clock) db.tables.synced_events new,
          id_or_new_empty e.id (record db { conns = rest_conns db.conns }) no_id,
          insert_event_served (stamped e (db.uuids db.made) db.clock)
              (record db { conns = rest_conns db.conns; made = db.made + 1 }) served' refers fresh
              new,
          fits_own e,
        )
        (refl, refl, λ l differ. rw (fits_other (key e) l differ e (fits_own e)) refl)

-- Where both connections answer, the event has no identifier yet, its source exists or its connection
-- does not check it, and the new identifier is fresh, the event is kept: the call succeeds, the etags
-- of the event are found under its source, calendar and UID, whether or not there was a record of it,
-- and what is found under any other key is as before.
pub upsert_synced_event-IsWritten :
    (e : SyncedEvent) (db : Db)
    → e.id ≡ []
    → (first_conn db.conns).answers ≡ true
    → (first_conn (rest_conns db.conns)).answers ≡ true
    → may_refer (first_conn (rest_conns db.conns)).foreign_keys e.source_id db.tables ≡ true
    → exists (λ r. r.id == db.uuids db.made) db.tables.synced_events ≡ false
    → IsWritten e db (upsert_synced_event e db)
upsert_synced_event-IsWritten e db no_id served served' refers fresh =
    elim (count-cases (count (fits (key e)) db.tables.synced_events)) [
      | inl h ↦ upsert_inserts e db served no_id served' refers fresh h
      | inr (n, h) ↦ upsert_updates e db served n h
    ]
