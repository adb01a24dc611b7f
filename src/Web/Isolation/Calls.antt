-- ===== src/Web/Isolation/Calls.antt =====
-- The calls of the database, for one user, and the rows of another.
use calbridge.Common.{
  ℕ, zero, suc, ◌≡◌, refl, sym, ap, ◌∙◌, subst, inl, inr, Text, List, [], ◌∷◌, Option, none, some,
  Bool, true, false, not, ◌&&◌, ◌||◌, ◌==◌, if◌then◌else◌, All, arith, Bool-cases, ==_iff,
}
use calbridge.Store.{
  Source, SourceRow, UserAlertPreferences, Tables, Db, Result, ok, err, ◌>>=◌, return, exec, query,
  found, affected, read_clock, id_or_new, first_conn, rest_conns,
}
use calbridge.Store.Calendars.{Json}
use calbridge.Store.Rows.{select, exists, first}
use calbridge.Store.Rules.{
  Keeps, After, Keeps-go_on, Keeps-bind, Keeps-return, exec-After, Keeps-exec, Keeps-affected,
  Keeps-read_clock, Keeps-id_or_new,
}
use calbridge.Store.Sources.{
  get_source_by_id_for_user, create_source, update_source, delete_source, insert_source,
  as_inserted, as_created, as_updated, to_row, update_sources, write_columns, delete_source_rows,
  without_source, scan_source,
}
use calbridge.Store.Preferences.{
  preferences_of, write_preferences, update_preferences, insert_preferences,
  insert_preferences_if_none, upsert_user_alert_preferences,
}
use calbridge.Store.Consistency.Tables.{Distinct}
use calbridge.Store.Consistency.Statements.{source_clash}
use calbridge.Web.Isolation.Rows.{
  rows_of, ==_other, select-update, select-remove, for_each_row, AreOwn, first-AreOwn,
}

-- The rows of a user stay as they are.
abbrev pub Stay : Text → List SourceRow × List UserAlertPreferences → Tables → Type 0
Stay other v t = rows_of other t ≡ v

After-if :
    (Q : Tables → Type 0) (b : Bool) (o p : Option (ℕ × Tables))
    → After Q o
    → After Q p
    → After Q (if b then o else p)
After-if Q b o p h k = elim (Bool-cases b) [ inl e ↦ rw e h | inr e ↦ rw e k ]

insert_source-Stay :
    (other : Text) (v : List SourceRow × List UserAlertPreferences) (r : SourceRow) (keys : Bool)
    (t : Tables)
    → (r.user_id == other) ≡ false
    → Stay other v t
    → After (Stay other v) (insert_source r keys t)
unfolding insert_source as_inserted rows_of select
insert_source-Stay other v r keys t h q =
    let Q = Stay other v in
    let o : Option (ℕ × Tables) = some (1, record t { sources = as_inserted r ∷ t.sources }) in
    let orphan = keys && not (exists (λ u. u.id == r.user_id) t.users) in
    After-if Q (exists (λ s. s.id == r.id) t.sources) none (if orphan then none else o) tt
      (After-if Q orphan none o tt (rw h q))

insert_preferences-Stay :
    (other : Text) (v : List SourceRow × List UserAlertPreferences) (p : UserAlertPreferences)
    (keys : Bool) (t : Tables)
    → (p.user_id == other) ≡ false
    → Stay other v t
    → After (Stay other v) (insert_preferences p keys t)
unfolding insert_preferences rows_of select
insert_preferences-Stay other v p keys t h q =
    let Q = Stay other v in
    let o : Option (ℕ × Tables) = some (1, record t { preferences = p ∷ t.preferences }) in
    let orphan = keys && not (exists (λ u. u.id == p.user_id) t.users) in
    After-if Q (exists (λ r. r.id == p.id || preferences_of p.user_id r) t.preferences) none
      (if orphan then none else o) tt (After-if Q orphan none o tt (rw h q))

update_sources-Stay :
    (other : Text) (v : List SourceRow × List UserAlertPreferences) (p : SourceRow → Bool)
    (f : SourceRow → SourceRow) (keys : Bool) (t : Tables)
    → All (λ s. p s ≡ true → (s.user_id == other) ≡ false) t.sources
    → ((s : SourceRow) → (f s).user_id ≡ s.user_id)
    → Stay other v t
    → After (Stay other v) (update_sources p f keys t)
unfolding update_sources rows_of
update_sources-Stay other v p f keys t h k q =
    rw (select-update (λ r. r.user_id == other) p f t.sources h (λ x. ap (λ i. i == other) (k x))) q

rows_of-without_source :
    (other id : Text) (keys : Bool) (t : Tables)
    → All (λ s. (s.id == id) ≡ true → (s.user_id == other) ≡ false) t.sources
    → rows_of other (without_source id keys t) ≡ rows_of other t
unfolding rows_of without_source
rows_of-without_source other id false t h =
    rw (select-remove (λ s. s.user_id == other) (λ s. s.id == id) t.sources h) refl
rows_of-without_source other id true t h =
    rw (select-remove (λ s. s.user_id == other) (λ s. s.id == id) t.sources h) refl

module _ (u other : Text) (apart : (u == other) ≡ false)
    (v : List SourceRow × List UserAlertPreferences) where
  abbrev Q : Tables → Type 0
  Q = Stay other v

  -- The user's own rows are not the other's.
  AreOwn-other :
      (id : Text) (rows : List SourceRow)
      → AreOwn id u rows
      → All (λ s. (s.id == id) ≡ true → (s.user_id == other) ≡ false) rows
  AreOwn-other id [] h = tt
  AreOwn-other id (s ∷ ss) h =
      ((λ e. ==_other u other s.user_id apart (h.0 e)), AreOwn-other id ss h.1)

  pub create_source-Stay :
      (json : Json) (s : Source) → s.user_id ≡ u → Keeps Q (create_source json s)
  unfolding create_source as_created to_row
  create_source-Stay json s own = Keeps-bind Q (id_or_new s.id) _ (Keeps-id_or_new Q s.id) (λ id.
      Keeps-bind Q read_clock _ (Keeps-read_clock Q) (λ now.
        Keeps-bind Q (exec _) _
          (Keeps-exec Q (insert_source (to_row json (as_created s id now))) (λ keys t q.
            insert_source-Stay other v (to_row json (as_created s id now)) keys t
              (subst (λ w. (w == other) ≡ false) (sym own) apart) q))
          (λ n. Keeps-return Q (as_created s id now))))

  pub update_source-Stay :
      (json : Json) (s : Source) (db : Db)
      → AreOwn s.id u db.tables.sources
      → Q db.tables
      → Q (update_source json s db).1.tables
  unfolding update_source write_columns to_row as_updated read_clock
  update_source-Stay json s db own q =
      let statement =
        update_sources (λ r. r.id == s.id) (write_columns (to_row json (as_updated s db.clock))) in
      Keeps-go_on Q (exec statement db) _
        (exec-After Q statement db q (λ keys.
          update_sources-Stay other v _ _ keys db.tables (AreOwn-other s.id db.tables.sources own)
            (λ x. refl) q))
        (λ n.
          Keeps-bind Q (affected n) _ (Keeps-affected Q n)
            (λ w. Keeps-return Q (as_updated s db.clock)))

  pub delete_source-Stay :
      (id : Text) (db : Db)
      → AreOwn id u db.tables.sources
      → Q db.tables
      → Q (delete_source id db).1.tables
  unfolding delete_source delete_source_rows
  delete_source-Stay id db own q =
      Keeps-go_on Q (exec (delete_source_rows id) db) affected
        (exec-After Q (delete_source_rows id) db q (λ keys.
          rows_of-without_source other id keys db.tables (AreOwn-other id db.tables.sources own)
          ∙ q))
        (Keeps-affected Q)

  insert_if_none-Stay :
      (p : UserAlertPreferences) (now n : ℕ)
      → p.user_id ≡ u
      → Keeps Q (insert_preferences_if_none p now n)
  insert_if_none-Stay p now zero own =
      Keeps-bind Q (id_or_new p.id) _ (Keeps-id_or_new Q p.id) (λ id.
        Keeps-bind Q (exec _) _
          (Keeps-exec Q
            (insert_preferences (record p { id = id; created_at = now; updated_at = now }))
            (λ keys t q.
              insert_preferences-Stay other v _ keys t
                (subst (λ w. (w == other) ≡ false) (sym own) apart) q))
          (λ n. Keeps-return Q tt))
  insert_if_none-Stay p now (suc n) own = Keeps-return Q tt

  pub upsert_preferences-Stay :
      (p : UserAlertPreferences) → p.user_id ≡ u → Keeps Q (upsert_user_alert_preferences p)
  unfolding upsert_user_alert_preferences update_preferences preferences_of write_preferences
      rows_of
  upsert_preferences-Stay p own = Keeps-bind Q read_clock _ (Keeps-read_clock Q) (λ now.
      Keeps-bind Q (exec _) _
        (Keeps-exec Q (update_preferences p now) (λ keys t q.
          rw
            (select-update (λ r. r.user_id == other) (preferences_of p.user_id)
              (write_preferences p now) t.preferences
              (for_each_row _
                (λ x e.
                  ==_other u other x.user_id apart (subst (λ w. (x.user_id == w) ≡ true) own e))
                t.preferences)
              (λ x. refl))
            q))
        (λ n. insert_if_none-Stay p now n own))

id_of : Result Source → Text
id_of (ok s) = s.id
id_of (err e) = []

first-fits : {A : Type 0} (p : A → Bool) (xs : List A) (x : A) → first p xs ≡ some x → p x ≡ true
unfolding first
first-fits p [] x h = cc
first-fits p (y ∷ ys) x h = elim (Bool-cases (p y)) [
  | inl e ↦
      let same : (some y ≡ some x) = subst (λ b. (if b then some y else first p ys) ≡ some x) e h in
      let y_x : (y ≡ x) = cc in subst (λ z. p z ≡ true) y_x e
  | inr e ↦ first-fits p ys x (subst (λ b. (if b then some y else first p ys) ≡ some x) e h)
]

found-own :
    (json : Json) (id u : Text) (s : Source) (rows : List SourceRow) (db : Db)
    (o : Option SourceRow)
    → Distinct source_clash rows
    → first (λ r. r.id == id && r.user_id == u) rows ≡ o
    → ((found o >>= λ r. return (scan_source json r)) db).0 ≡ ok s
    → (s.id ≡ id) × AreOwn id u rows
unfolding found scan_source id_of
found-own json id u s rows db none d e h = cc
found-own json id u s rows db (some r) d e h =
    let same : (r.id ≡ s.id) = ap id_of h in
    let fits = first-fits (λ x. x.id == id && x.user_id == u) rows r e in
    (grind (arith, ==_iff r.id id), first-AreOwn id u rows r d e)

-- The source that is found for a user is the only one with the identifier.
pub get_source-own :
    (json : Json) (id u : Text) (s : Source) (db : Db)
    → Distinct source_clash db.tables.sources
    → (get_source_by_id_for_user json id u db).0 ≡ ok s
    → (s.id ≡ id) × AreOwn id u db.tables.sources
unfolding get_source_by_id_for_user query
get_source-own json id u s db d h = elim (Bool-cases (first_conn db.conns).answers) [
  | inl e ↦
      found-own json id u s db.tables.sources (record db { conns = rest_conns db.conns }) _ d refl
        (rw e at h)
  | inr e ↦ let bad = rw e at h in cc
]
