-- ===== src/Store/Consistency/Statements.antt =====
-- Every statement of internal/db/queries.go keeps the tables consistent, on a connection that enforces
-- the foreign keys.
use calbridge.Common.{
  ℕ, ◌≡◌, refl, ap, ◌∙◌, inl, inr, Text, List, [], ◌∷◌, Option, none, some, Bool, true, false, not,
  ◌&&◌, ◌||◌, ◌==◌, if◌then◌else◌, arith, Bool-cases, ==_iff,
}
use calbridge.Store.{
  User, SourceRow, SyncState, SyncLog, SyncedEvent, MalformedEvent, UserAlertPreferences, Tables,
  Statement,
}
use calbridge.Store.Rows.{remove, exists}
use calbridge.Store.Users.{insert_user}
use calbridge.Store.Sources.{
  as_inserted, insert_source, update_sources, delete_source_rows, without_source,
}
use calbridge.Store.Syncs.{
  state_of, event_in, event_of, may_refer, update_state, insert_state, insert_log, remove_logs,
  write_etags, update_event, insert_event, remove_events,
}
use calbridge.Store.Malformed.{replace_event, remove_malformed}
use calbridge.Store.Preferences.{
  preferences_of, write_preferences, update_preferences, insert_preferences,
}
use calbridge.Store.Consistency.Tables.{
  exists-update, exists-remove_self, Distinct, KeepsKey, IsTable, IsTable-insert, IsTable-remove,
  IsTable-update, IsTable-refers, IsTable-cascade,
}

unfoldable pub user_in : List User → Text → Bool
unfolding exists
user_in users id = exists (λ u. u.id == id) users

unfoldable pub source_in : List SourceRow → Text → Bool
unfolding exists
source_in sources id = exists (λ s. s.id == id) sources

-- PRIMARY KEY and UNIQUE of each table.
abbrev pub user_clash : User → User → Bool
user_clash u v = v.id == u.id || v.email == u.email

abbrev pub source_clash : SourceRow → SourceRow → Bool
source_clash r s = s.id == r.id

unfoldable pub state_clash : SyncState → SyncState → Bool
unfolding state_of
state_clash s r = r.id == s.id || state_of s.source_id s.calendar_href r

abbrev pub log_clash : SyncLog → SyncLog → Bool
log_clash l r = r.id == l.id

unfoldable pub event_clash : SyncedEvent → SyncedEvent → Bool
unfolding event_of
event_clash e r = r.id == e.id || event_of e.source_id e.calendar_href e.event_uid r

abbrev pub malformed_clash : MalformedEvent → MalformedEvent → Bool
malformed_clash m r = r.id == m.id || r.source_id == m.source_id && r.event_path == m.event_path

unfoldable pub preferences_clash : UserAlertPreferences → UserAlertPreferences → Bool
unfolding preferences_of
preferences_clash p r = r.id == p.id || preferences_of p.user_id r

-- The rows that belong to the sources.
unfoldable pub SourcesRows : List SourceRow → Tables → Type 0
unfolding IsTable
SourcesRows sources t =
    IsTable state_clash (λ r. source_in sources r.source_id) t.sync_states
    × IsTable log_clash (λ r. source_in sources r.source_id) t.sync_logs
    × IsTable event_clash (λ r. source_in sources r.source_id) t.synced_events
    × IsTable malformed_clash (λ r. source_in sources r.source_id) t.malformed_events

-- The rows that belong to the users.
unfoldable pub UsersRows : List User → Tables → Type 0
unfolding IsTable
UsersRows users t =
    IsTable source_clash (λ s. user_in users s.user_id) t.sources
    × IsTable preferences_clash (λ p. user_in users p.user_id) t.preferences

unfoldable pub IsConsistent : Tables → Type 0
unfolding Distinct UsersRows SourcesRows
IsConsistent t = Distinct user_clash t.users × UsersRows t.users t × SourcesRows t.sources t

-- The tables after a statement that breaks no constraint.
unfoldable pub After : Option (ℕ × Tables) → Type 0
unfolding IsConsistent
After none = Unit
After (some (n, t)) = IsConsistent t

-- On a connection that enforces the foreign keys.
unfoldable pub Keeps : Statement → Type 0
unfolding After
Keeps statement = (t : Tables) → IsConsistent t → After (statement true t)

-- A row of a table whose constraints are checked before it.
After-if :
    (b : Bool) (o p : Option (ℕ × Tables))
    → (b ≡ true → After o)
    → (b ≡ false → After p)
    → After (if b then o else p)
After-if b o p h k = elim (Bool-cases b) [ inl e ↦ rw e (h e) | inr e ↦ rw e (k e) ]

of_not : (b : Bool) → not b ≡ false → b ≡ true
of_not b h = ground arith

or_right : (b c : Bool) → c ≡ true → (b || c) ≡ true
or_right b c h = ground arith

-- The sources' rows, when the sources become others that have the same identifiers, or more.
SourcesRows-grow :
    (sources sources' : List SourceRow) (t : Tables)
    → ((id : Text) → source_in sources id ≡ true → source_in sources' id ≡ true)
    → SourcesRows sources t
    → SourcesRows sources' t
unfolding SourcesRows
SourcesRows-grow sources sources' t k h = (
  IsTable-refers _ _ _ h.0 _ (λ r. k r.source_id),
  IsTable-refers _ _ _ h.1 _ (λ r. k r.source_id),
  IsTable-refers _ _ _ h.2 _ (λ r. k r.source_id),
  IsTable-refers _ _ _ h.3 _ (λ r. k r.source_id),
)

pub insert_user-Keeps : (u : User) → Keeps (insert_user u)
unfolding Keeps After IsConsistent UsersRows SourcesRows Distinct user_in insert_user exists
insert_user-Keeps u t h =
    After-if (exists (user_clash u) t.users) _ _ (λ e. tt)
      (λ e. (
        (e, h.0),
        (
          IsTable-refers _ _ _ h.1.0 _
              (λ s. or_right (u.id == s.user_id) (user_in t.users s.user_id)),
          IsTable-refers _ _ _ h.1.1 _
              (λ p. or_right (u.id == p.user_id) (user_in t.users p.user_id)),
        ),
        h.2,
      ))

pub insert_source-Keeps : (r : SourceRow) → Keeps (insert_source r)
unfolding Keeps After IsConsistent UsersRows SourcesRows user_in source_in insert_source as_inserted
    exists
insert_source-Keeps r t h =
    After-if (exists (source_clash r) t.sources) _ _ (λ e. tt)
      (λ e.
        After-if (not (user_in t.users r.user_id)) _ _ (λ f. tt)
          (λ f. (
            h.0,
            (IsTable-insert _ _ _ h.1.0 (as_inserted r) e (of_not _ f), h.1.1),
            SourcesRows-grow _ (as_inserted r ∷ t.sources) t
                (λ id. or_right (r.id == id) (source_in t.sources id)) h.2,
          )))

-- An update that leaves the identifiers and the users alone.
pub update_sources-Keeps :
    (p : SourceRow → Bool) (f : SourceRow → SourceRow)
    → ((s : SourceRow) → ((f s).id ≡ s.id) × ((f s).user_id ≡ s.user_id))
    → Keeps (update_sources p f)
unfolding Keeps After IsConsistent UsersRows SourcesRows KeepsKey user_in source_in update_sources
update_sources-Keeps p f k t h = (
  h.0,
  (
    IsTable-update _ _ _ h.1.0 p f
        (λ r s. ap (λ i. i == r.id) (k s).0, λ r s. ap (λ i. s.id == i) (k r).0)
        (λ s. ap (λ u. user_in t.users u) (k s).1),
    h.1.1,
  ),
  SourcesRows-grow _ _ t
      (λ id e. exists-update (λ s. s.id == id) p f t.sources (λ s. ap (λ i. i == id) (k s).0) ∙ e)
      h.2,
)

-- Another source than the one removed is still there.
source_in-remove :
    (id k : Text) (sources : List SourceRow)
    → (k == id) ≡ false
    → source_in sources k ≡ true
    → source_in (remove (λ s. s.id == id) sources) k ≡ true
unfolding source_in exists remove
source_in-remove id k [] e h = h
source_in-remove id k (s ∷ ss) e h =
    let IH = source_in-remove id k ss e in grind (arith, ==_iff s.id id, ==_iff s.id k, ==_iff k id)

pub delete_source_rows-Keeps : (id : Text) → Keeps (delete_source_rows id)
unfolding Keeps After IsConsistent UsersRows SourcesRows source_in delete_source_rows without_source
delete_source_rows-Keeps id t h =
    let gone = λ (k : Text). source_in-remove id k t.sources in
    (
      h.0,
      (IsTable-remove _ _ _ h.1.0 _, h.1.1),
      (
        IsTable-cascade _ _ _ h.2.0 _ _ (λ r. gone r.source_id),
        IsTable-cascade _ _ _ h.2.1 _ _ (λ r. gone r.source_id),
        IsTable-cascade _ _ _ h.2.2 _ _ (λ r. gone r.source_id),
        IsTable-cascade _ _ _ h.2.3 _ _ (λ r. gone r.source_id),
      ),
    )

pub update_state-Keeps : (s : SyncState) (now : ℕ) → Keeps (update_state s now)
unfolding Keeps After IsConsistent SourcesRows KeepsKey state_clash state_of update_state
update_state-Keeps s now t h = (
  h.0,
  h.1,
  (IsTable-update _ _ _ h.2.0 _ _ (λ x y. refl, λ x y. refl) (λ x. refl), h.2.1, h.2.2, h.2.3),
)

pub insert_state-Keeps : (s : SyncState) → Keeps (insert_state s)
unfolding Keeps After IsConsistent SourcesRows state_clash source_in may_refer insert_state
insert_state-Keeps s t h =
    After-if (exists (state_clash s) t.sync_states) _ _ (λ e. tt)
      (λ e.
        After-if (source_in t.sources s.source_id) _ _
          (λ f. (h.0, h.1, (IsTable-insert _ _ _ h.2.0 s e f, h.2.1, h.2.2, h.2.3))) (λ f. tt))

pub insert_log-Keeps : (l : SyncLog) → Keeps (insert_log l)
unfolding Keeps After IsConsistent SourcesRows source_in may_refer insert_log
insert_log-Keeps l t h =
    After-if (exists (log_clash l) t.sync_logs) _ _ (λ e. tt)
      (λ e.
        After-if (source_in t.sources l.source_id) _ _
          (λ f. (h.0, h.1, (h.2.0, IsTable-insert _ _ _ h.2.1 l e f, h.2.2, h.2.3))) (λ f. tt))

pub remove_logs-Keeps : (p : SyncLog → Bool) → Keeps (remove_logs p)
unfolding Keeps After IsConsistent SourcesRows remove_logs
remove_logs-Keeps p t h = (h.0, h.1, (h.2.0, IsTable-remove _ _ _ h.2.1 p, h.2.2, h.2.3))

pub update_event-Keeps : (e : SyncedEvent) (now : ℕ) → Keeps (update_event e now)
unfolding Keeps After IsConsistent SourcesRows KeepsKey event_clash event_of event_in write_etags
    update_event
update_event-Keeps e now t h = (
  h.0,
  h.1,
  (h.2.0, h.2.1, IsTable-update _ _ _ h.2.2 _ _ (λ x y. refl, λ x y. refl) (λ x. refl), h.2.3),
)

pub insert_event-Keeps : (e : SyncedEvent) → Keeps (insert_event e)
unfolding Keeps After IsConsistent SourcesRows event_clash source_in may_refer insert_event
insert_event-Keeps v t h =
    After-if (exists (event_clash v) t.synced_events) _ _ (λ e. tt)
      (λ e.
        After-if (source_in t.sources v.source_id) _ _
          (λ f. (h.0, h.1, (h.2.0, h.2.1, IsTable-insert _ _ _ h.2.2 v e f, h.2.3))) (λ f. tt))

pub remove_events-Keeps : (p : SyncedEvent → Bool) → Keeps (remove_events p)
unfolding Keeps After IsConsistent SourcesRows remove_events
remove_events-Keeps p t h = (h.0, h.1, (h.2.0, h.2.1, IsTable-remove _ _ _ h.2.2 p, h.2.3))

pub replace_event-Keeps : (m : MalformedEvent) → Keeps (replace_event m)
unfolding Keeps After IsConsistent SourcesRows source_in may_refer replace_event
replace_event-Keeps m t h =
    After-if (source_in t.sources m.source_id) _ _
      (λ f. (
        h.0,
        h.1,
        (
          h.2.0,
          h.2.1,
          h.2.2,
          IsTable-insert _ _ _ (IsTable-remove _ _ _ h.2.3 (malformed_clash m)) m
              (exists-remove_self (malformed_clash m) t.malformed_events) f,
        ),
      ))
      (λ f. tt)

pub remove_malformed-Keeps : (p : Tables → MalformedEvent → Bool) → Keeps (remove_malformed p)
unfolding Keeps After IsConsistent SourcesRows remove_malformed
remove_malformed-Keeps p t h = (h.0, h.1, (h.2.0, h.2.1, h.2.2, IsTable-remove _ _ _ h.2.3 (p t)))

pub update_preferences-Keeps :
    (p : UserAlertPreferences) (now : ℕ) → Keeps (update_preferences p now)
unfolding Keeps After IsConsistent UsersRows SourcesRows KeepsKey preferences_clash preferences_of
    write_preferences update_preferences
update_preferences-Keeps p now t h =
    (h.0, (h.1.0, IsTable-update _ _ _ h.1.1 _ _ (λ x y. refl, λ x y. refl) (λ x. refl)), h.2)

pub insert_preferences-Keeps : (p : UserAlertPreferences) → Keeps (insert_preferences p)
unfolding Keeps After IsConsistent UsersRows SourcesRows preferences_clash user_in
    insert_preferences
insert_preferences-Keeps p t h =
    After-if (exists (preferences_clash p) t.preferences) _ _ (λ e. tt)
      (λ e.
        After-if (not (user_in t.users p.user_id)) _ _ (λ f. tt)
          (λ f. (h.0, (h.1.0, IsTable-insert _ _ _ h.1.1 p e (of_not _ f)), h.2)))
