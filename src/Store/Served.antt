-- ===== src/Store/Served.antt =====
-- Statements that are served.
use calbridge.Common.{
  Text, ◌+◌, ◌≡◌, refl, inl, inr, List, [], ◌∷◌, Bool, true, ◌||◌, Bool-cases, subst,
}
use calbridge.Store.{
  Tables, Db, ok, first_conn, rest_conns, Statement, settle, exec, query, affected, id_or_new,
  new_uuid,
}
use calbridge.Store.Rows.{count, exists}

pub exec_served :
    (s : Statement) (db : Db)
    → (first_conn db.conns).answers ≡ true
    → exec s db
      ≡ settle
          (s (first_conn db.conns).foreign_keys db.tables)
          (record db { conns = rest_conns db.conns })
unfolding exec
exec_served s db h = rw h refl

pub query_served :
    {A : Type 0} (read : Tables → A) (db : Db)
    → (first_conn db.conns).answers ≡ true
    → query read db ≡ (ok (read db.tables), record db { conns = rest_conns db.conns })
unfolding query
query_served read db h = rw h refl

pub affected-exists :
    {A : Type 0} (p : A → Bool) (xs : List A) (db : Db)
    → exists p xs ≡ true
    → affected (count p xs) db ≡ (ok tt, db)
unfolding affected exists count
affected-exists p [] db h = cc
affected-exists p (x ∷ xs) db h = elim (Bool-cases (p x)) [
  | inl e ↦ rw e refl
  | inr e ↦ rw e (affected-exists p xs db (subst (λ b. (b || exists p xs) ≡ true) e h))
]

-- A new identifier where there is none.
pub id_or_new_empty :
    (id : Text) (db : Db)
    → id ≡ []
    → id_or_new id db ≡ (ok (db.uuids db.made), record db { made = db.made + 1 })
unfolding id_or_new new_uuid
id_or_new_empty id db h = rw h refl
