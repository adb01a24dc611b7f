-- ===== src/Lib.antt =====
-- CalBridgeSync copies calendars between CalDAV servers on a schedule. This library models the Go
-- code of the parts that decide what is written, deleted, sent and run, and proves what they keep.
--
-- The parts, and how they work together. The scheduler (internal/scheduler/scheduler.go) has one job
-- per source and runs the sync engine (internal/caldav/sync.go) for it under the lock of the source.
-- The engine reads both calendars through the client (internal/caldav/client.go), writes to both,
-- and keeps in the database (internal/db) which UIDs it has synced. While it runs it reports its
-- progress to the activity tracker (internal/activity/activity.go). The users add and change their
-- sources through the JSON API (internal/web/api_handlers.go), which writes to the database and
-- tells the scheduler. The scheduler tells the notifier (internal/notify/notify.go) which sources
-- are stale and which have recovered.
--
-- Common.antt and its children: Boolean tests on native numbers, durations on 64 bits, lists measured by them, Go strings
--   as lists of bytes with the functions of package strings that the code uses, and Go maps as
--   association lists. The order of a Go map is not specified; here it is that of the list, which is
--   an argument of the definitions, so that a theorem holds for every order.
-- Activity.antt: Tracker of internal/activity/activity.go, a function per method.
--   Activity/Invariant, History, Recent: the bound of the recent list, which sources sync, and the
--   recent list against a ledger of all finished syncs.
-- Caldav.antt: the types of internal/caldav/client.go and internal/db/models.go that a sync reads.
--   Caldav/Put.antt: the path and the UID that Client.PutEvent chooses. Caldav/World.antt: the state
--   of a sync, which has the log of all requests (Act), the counters and warnings of SyncResult, and
--   the two maps by UID; the record Env has the answers of the servers and of the database as
--   functions of the log, so that an answer may depend on all that was done before.
--   Caldav/FullSync.antt: fullSync, composed of the deletions (FullSync/Deletions), the pushes and
--   the writes back (FullSync/Push) and the removal of duplicates (FullSync/Duplicates). Its other
--   children have the proofs: DeletionSafety, DeletionFrame, PushActs, CleanActs, BackActs, Sends and
--   SourceWrites on what is written to the source, Conflicts and Orphans on runs in which the two sides
--   change.
--   Caldav/Retry.antt: retryDBOperation. Caldav/Webdav.antt: the request and the answer of
--   internal/caldav/webdavsync.go.
-- Scheduler.antt: the Scheduler of internal/scheduler/scheduler.go. Channels and locks are numbers,
--   the mutex is a flag, and a call ends with ok, with a panic, or blocked for ever. A goroutine is
--   recorded when it is started; a sync is three steps (getSyncLock, TryLock, the end), between which
--   other calls may come. Scheduler/Jobs, Panics, Runs: the channels of the jobs. Locks, Exclusion,
--   Overlap: one sync at a time. Stuck: an interval that is not positive. Stale: the two tests of staleness.
-- Notify.antt: the Notifier of internal/notify/notify.go. Notify/Urls: validateWebhookURL and
--   ValidateConfig. Notify/Email: sanitizeForEmail and the message of sendEmail. Notify/Delivery:
--   send and sendWithPrefs. Notify/Alerts: the stale and recovery alerts; its children Staleness and
--   Cooldown have the proofs.
-- Validator.antt: the Validator of internal/validator/validator.go with the count of redirects of its
--   client. Validator/Redirects and Endpoints have the proofs.
-- Crypto.antt: the Encryptor of internal/crypto/encrypt.go; Crypto/RoundTrip has the proofs.
-- Origin.antt: the origin check of internal/web/middleware.go, and IsSafeRedirectURL; Origin/Safety has
--   the proofs.
-- Store.antt: the database of internal/db/db.go and internal/db/queries.go. Tables are lists of rows, a
--   statement changes them or breaks a constraint, and a call is a computation over the database, its
--   connections, the clock and the new identifiers, which returns a result or an error. Store/Users,
--   Calendars, Sources, Syncs, Malformed and Preferences have a function per query; Store/Rows what
--   SQL does to a table. Store/Consistency: what the constraints promise (Tables, Statements), the
--   calls that change the tables (Calls) and their histories (Histories). Store/Deletion, Etags and
--   Ownership: the other theorems; Store/Rules and Served: how they are proved.
-- Web.antt: the handlers of internal/web/api_handlers.go over Store.antt, Scheduler.antt, Crypto.antt
--   and Notify.antt. A handler is a function of the session, the decoded request and the world to a
--   reply, a panic, or a wait without end. Web/Inputs: the checks of a request; Web/Views: what is
--   answered; Web/Sources, Logs, Malformed and Alerts: the handlers; Web/Requests: all of them as one
--   function. Web/Isolation: what one user's requests leave of another's rows (Rows,
--   Calls, Answers, Writes, Handlers). Web/Created, Overflow
--   and Pages: the interval of a source, and the pages of its logs. Web/Rules: how a property of every
--   reply is proved.
-- Health.antt: the Checker of internal/health/health.go; Health/Worst has the proofs.
--
-- Code outside the repository is a parameter: the servers, the database and the library for
-- calendars in Env, package net/url, package regexp and ToLower in Library of Notify.antt, the
-- printing of times in Notify/Email, the URLs and servers in Net of Validator.antt, what the checks
-- meet in World of Health.antt, the cipher and the codings in Library of Crypto.antt, package
-- encoding/json in Json of Store/Calendars.antt, the tests of a connection and ToLower in Outside of
-- Web.antt. Which connections of the pool answer, and which enforce foreign keys, is part of the
-- database's state. Loops are structural recursion on the list that the code ranges over, or on the
-- number of attempts left, so no fuel is used. Times and durations are natural numbers of
-- nanoseconds, so a difference that is negative in Go is compared by adding to the other side; a
-- product that makes a duration of a number is read on 64 bits with its sign (Common/Durations).
--
-- Not modelled: the rest of the client (requests and XML), SyncSource and syncCalendar, which choose
-- between the incremental and the full path, finishSync, the history for charts, the discovery of
-- calendars and the logout of the JSON API, the HTML handlers, the routes, templates and rate
-- limiter, the login, the check of addresses at the dial of the validator, and the configuration.
pub mod Common
pub mod Activity
pub mod Caldav
pub mod Scheduler
pub mod Notify
pub mod Validator
pub mod Health
pub mod Crypto
pub mod Origin
pub mod Store
pub mod Web
