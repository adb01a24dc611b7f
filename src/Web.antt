-- ===== src/Web.antt =====
-- internal/web/api_handlers.go: the handlers of the JSON API, over the database and the scheduler. A
-- handler answers a request with a status and a body, or panics, or waits for ever for the mutex of the
-- scheduler; the world that it leaves is the one that the next request meets, since the router recovers
-- from a panic. The session, the decoded body of the request and the outside are arguments.
pub mod Inputs
pub mod Views
pub mod Sources
pub mod Logs
pub mod Malformed
pub mod Alerts
pub mod Rules
pub mod Requests
pub mod Isolation
pub mod Created
pub mod Overflow
pub mod Pages
pub mod Tests
use calbridge.Common.{ℕ, Text, codes, List, [], ◌∷◌, Option, none, some}
use calbridge.Store.{Db, DbError, Result, ok, err, M}
use calbridge.Scheduler
use calbridge.Store.Calendars.{Json}
use calbridge.Scheduler.{Scheduler, Outcome, panic, blocked}
use calbridge.Crypto.{Gcm}
use calbridge.Crypto
use calbridge.Notify
use calbridge.Web.Views.{Body, error}

pub record World : Type 0 where
  pub db : Db
  pub scheduler : Scheduler
  -- The goroutines that TriggerSync starts.
  pub triggered : List Text

-- auth.GetCurrentUser.
pub record Session : Type 0 where
  pub user_id : Text
  pub email : Text
  pub name : Text
  pub picture : Text

-- cfg.Sync, in seconds.
pub record Config : Type 0 where
  pub min_interval : ℕ
  pub max_interval : ℕ

-- What is not this code's: JSON, the parts of the encryption, the server that a connection is tested on
-- (`none`: it is reached; otherwise the error's text), strings.ToLower, and the random numbers of the two
-- encryptions of a request.
pub record Outside : Type 0 where
  pub json : Json
  pub crypto : Crypto.Library
  pub gcm : Gcm
  pub notify : Notify.Library
  pub test_connection : Text → Text → Text → Option Text
  pub to_lower : Text → Text
  pub random : Option Text
  pub later_random : Option Text

pub data Reply : Type 0 where
  reply : ℕ → Body → World → Reply
  panics : World → Reply
  waits : Reply

unfoldable pub settled :
    {A : Type 0} → ℕ → Text → Result A × Db → World → (A → World → Reply) → Reply
settled status why (ok a, db) w k = k a (record w { db = db })
settled status why (err e, db) w k = reply status (error why) (record w { db = db })

-- A call of the database, whose error is answered with the status.
unfoldable pub or_reply : {A : Type 0} → ℕ → Text → M A → World → (A → World → Reply) → Reply
unfolding settled
or_reply status why call w k = settled status why (call w.db) w k

-- A call of the scheduler.
unfoldable pub after : Outcome → World → (World → Reply) → Reply
after (calbridge.Scheduler.ok s) w k = k (record w { scheduler = s })
after (panic s) w k = panics (record w { scheduler = s })
after blocked w k = waits

unfoldable pub with_session : Option Session → World → (Session → Reply) → Reply
with_session none w k = reply 401 (error (codes "Unauthorized")) w
with_session (some session) w k = k session

unfoldable pub with_body : {A : Type 0} → Option A → World → (A → Reply) → Reply
with_body none w k = reply 400 (error (codes "Invalid request body")) w
with_body (some request) w k = k request

-- An error that a check finds is a bad request.
unfoldable pub unless : Option Text → World → Reply → Reply
unless none w k = k
unless (some why) w k = reply 400 (error why) w
