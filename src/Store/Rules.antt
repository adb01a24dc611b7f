-- ===== src/Store/Rules.antt =====
-- What holds of the result of a computation, and of the tables after it, by the way it is put together.
use calbridge.Common.{
  ℕ, zero, suc, ◌≡◌, subst, inl, inr, Text, [], ◌∷◌, Option, none, some, Bool, Bool-cases,
}
use calbridge.Store.{
  Tables, Db, Result, ok, err, M, ◌>>=◌, go_on, return, Statement, settle, first_conn, rest_conns,
  exec, query, found, affected, read_clock, new_uuid, id_or_new,
}

-- What holds of a result, where there is one.
abbrev pub IfOk : {A : Type 0} → (A → Type 0) → Result A → Type 0
IfOk P (ok a) = P a
IfOk P (err e) = Unit

module _ {A : Type 0} (P : A → Type 0) where
  IfOk-go_on :
      {B : Type 0} (r : Result B × Db) (f : B → M A)
      → ((b : B) (db : Db) → IfOk P (f b db).0)
      → IfOk P (go_on r f).0
  IfOk-go_on (ok b, db) f k = k b db
  IfOk-go_on (err e, db) f k = tt

  pub IfOk-bind :
      {B : Type 0} (m : M B) (f : B → M A) (db : Db)
      → ((b : B) (db : Db) → IfOk P (f b db).0)
      → IfOk P ((m >>= f) db).0
  IfOk-bind m f db k = IfOk-go_on (m db) f k

  pub IfOk-ok : (r : Result A) (a : A) → IfOk P r → r ≡ ok a → P a
  IfOk-ok r a h e = subst (IfOk P) e h

-- What the tables keep.
module _ (Q : Tables → Type 0) where
  abbrev pub Keeps : {A : Type 0} → M A → Type 0
  Keeps m = (db : Db) → Q db.tables → Q (m db).1.tables

  abbrev pub After : Option (ℕ × Tables) → Type 0
  After none = Unit
  After (some (n, t)) = Q t

  pub Keeps-go_on :
      {A B : Type 0} (r : Result A × Db) (f : A → M B)
      → Q r.1.tables
      → ((a : A) → Keeps (f a))
      → Q (go_on r f).1.tables
  Keeps-go_on (ok a, db) f h k = k a db h
  Keeps-go_on (err e, db) f h k = h

  pub Keeps-bind :
      {A B : Type 0} (m : M A) (f : A → M B) → Keeps m → ((a : A) → Keeps (f a)) → Keeps (m >>= f)
  Keeps-bind m f h k db q = Keeps-go_on (m db) f (h db q) k

  pub Keeps-return : {A : Type 0} (a : A) → Keeps (return a)
  Keeps-return a db q = q

  Keeps-settle :
      (o : Option (ℕ × Tables)) (db : Db) → Q db.tables → After o → Q (settle o db).1.tables
  Keeps-settle none db q h = q
  Keeps-settle (some (n, t)) db q h = h

  pub exec-After :
      (s : Statement) (db : Db)
      → Q db.tables
      → ((keys : Bool) → After (s keys db.tables))
      → Q (exec s db).1.tables
  unfolding exec
  exec-After s db q h = elim (Bool-cases (first_conn db.conns).answers) [
    | inl e ↦ rw e (
        Keeps-settle _ (record db { conns = rest_conns db.conns }) q
          (h (first_conn db.conns).foreign_keys))
    | inr e ↦ rw e q
  ]

  pub Keeps-exec :
      (s : Statement) → ((keys : Bool) (t : Tables) → Q t → After (s keys t)) → Keeps (exec s)
  Keeps-exec s h db q = exec-After s db q (λ keys. h keys db.tables q)

  pub Keeps-query : {A : Type 0} (read : Tables → A) → Keeps (query read)
  unfolding query
  Keeps-query read db q = elim (Bool-cases (first_conn db.conns).answers) [
    | inl e ↦ rw e q
    | inr e ↦ rw e q
  ]

  pub Keeps-found : {A : Type 0} (o : Option A) → Keeps (found o)
  unfolding found
  Keeps-found none db q = q
  Keeps-found (some a) db q = q

  pub Keeps-affected : (n : ℕ) → Keeps (affected n)
  unfolding affected
  Keeps-affected zero db q = q
  Keeps-affected (suc n) db q = q

  pub Keeps-read_clock : Keeps read_clock
  unfolding read_clock
  Keeps-read_clock db q = q

  pub Keeps-new_uuid : Keeps new_uuid
  unfolding new_uuid
  Keeps-new_uuid db q = q

  pub Keeps-id_or_new : (id : Text) → Keeps (id_or_new id)
  unfolding id_or_new new_uuid
  Keeps-id_or_new [] db q = q
  Keeps-id_or_new (c ∷ cs) db q = q
