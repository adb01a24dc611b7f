-- ===== src/Store/Users.antt =====
-- The users of internal/db/queries.go.
use calbridge.Common.{Text, ◌∷◌, none, some, ◌||◌, ◌==◌, if◌then◌else◌}
use calbridge.Store.{
  User, Db, not_found, failed, Result, ok, err, M, ◌>>=◌, return, Statement, exec, query, found,
  read_clock, new_uuid,
}
use calbridge.Store.Rows.{exists, first}

unfoldable pub get_user_by_email : Text → M User
unfolding first
get_user_by_email email = do o ← query (λ t. first (λ u. u.email == email) t.users); found o

pub get_user_by_id : Text → M User
unfolding first
get_user_by_id id = do o ← query (λ t. first (λ u. u.id == id) t.users); found o

unfoldable pub insert_user : User → Statement
unfolding exists
insert_user u keys t =
    if exists (λ v. v.id == u.id || v.email == u.email) t.users
    then none
    else some (1, record t { users = u ∷ t.users })

unfoldable pub create_user : Text → Text → M User
unfolding insert_user
create_user email name = do
  id ← new_uuid
  now ← read_clock
  let u : User = record { id = id; email = email; name = name; created_at = now; updated_at = now }
  n ← exec (insert_user u)
  return u

-- The user that is found, or a new one where there is none; another error is passed on.
abbrev pub or_create : Text → Text → Result User × Db → Result User × Db
or_create email name (ok u, db) = (ok u, db)
or_create email name (err not_found, db) = create_user email name db
or_create email name (err failed, db) = (err failed, db)

unfoldable pub get_or_create_user : Text → Text → M User
unfolding get_user_by_email create_user
get_or_create_user email name db = or_create email name (get_user_by_email email db)
