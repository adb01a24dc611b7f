-- ===== src/Web/Logs.antt =====
-- The handlers of the logs, of the dashboard and of the activity. strconv.Atoi is an argument's value:
-- `none` where the query has no number.
use calbridge.Common.{
  ℕ, ◌+◌, ◌-◌, ◌*◌, ◌/◌, ◌%◌, ◌^◌, ◌||◌, leb, Text, codes, List, [], ◌∷◌, map, Option, none, some,
  Bool, ◌==◌, eqb, ltb, length, take, drop, if◌then◌else◌,
}
use calbridge.Store.{Source, SyncLog, Result, ok, err, Db}
use calbridge.Store.Sources.{get_sources_by_user_id}
use calbridge.Store.Syncs.{get_sync_logs}
use calbridge.Store.Rows.{count, select}
use calbridge.Activity.{SyncActivity, Tracker, get_active, get_recent}
use calbridge.Web.{World, Session, Outside, Reply, reply, panics, or_reply, with_session}
use calbridge.Web.Views.{
  logs_page, stats, activity, sync_log_to_api, not_authenticated, authenticated,
}
use calbridge.Web.Sources.{with_source}
use calbridge.Web.Inputs.{is_one_of}

abbrev pub page_limit : ℕ
page_limit = 20

-- The page that is asked for, or the first.
unfoldable pub page_number : Option ℕ → ℕ
page_number none = 1
page_number (some n) = if eqb n 0 then 1 else n

unfoldable pub total_pages : ℕ → ℕ
total_pages n = let pages = ((n + page_limit) - 1) / page_limit in if ltb pages 1 then 1 else pages

-- A bound of the slice is cut at the length.
unfoldable pub cut : ℕ → ℕ → ℕ
cut most n = if ltb most n then most else n

-- logs[start:end], for bounds that are not negative.
unfoldable pub slice : {A : Type 0} → ℕ → ℕ → List A → List A
unfolding cut
slice offset end xs =
    let start = cut (length xs) offset in
    let stop = cut (length xs) end in take (stop - start) (drop start xs)

-- The two bounds are 64 bits with a sign; `none`: one is negative, and the slice panics.
unfoldable pub paginate : {A : Type 0} → ℕ → List A → Option (List A)
unfolding slice
paginate page xs =
    let offset = ((page - 1) * page_limit) % (2 ^ 64) in
    let end = (offset + page_limit) % (2 ^ 64) in
    if leb (2 ^ 63) offset || leb (2 ^ 63) end then none else some (slice offset end xs)

-- The answer with the page's logs, or the panic.
unfoldable pub logs_reply : ℕ → ℕ → Option (List SyncLog) → World → Reply
unfolding sync_log_to_api
logs_reply page pages none w = panics w
logs_reply page pages (some logs) w = reply 200 (logs_page (map sync_log_to_api logs) page pages) w

unfoldable pub api_get_source_logs : Outside → Option Session → Text → Option ℕ → World → Reply
unfolding with_source page_number total_pages paginate logs_reply
api_get_source_logs out session id asked w = with_source out session id w (λ s w'.
    or_reply 500 (codes "Failed to load logs") (get_sync_logs id 1000) w' (λ logs w''.
      let page = page_number asked in
      logs_reply page (total_pages (length logs)) (paginate page logs) w''))

-- An error of the query counts no log.
unfoldable pub logs_after : ℕ → Result (List SyncLog) × Db → ℕ × Db
unfolding count
logs_after today (ok logs, db) = (count (λ l. ltb today l.created_at) logs, db)
logs_after today (err e, db) = (0, db)

unfoldable pub syncs_after : ℕ → List Source → Db → ℕ × Db
unfolding logs_after
syncs_after today [] db = (0, db)
syncs_after today (s ∷ ss) db =
    let here = logs_after today (get_sync_logs s.id 100 db) in
    let rest = syncs_after today ss here.1 in (here.0 + rest.0, rest.1)

abbrev pub day : ℕ
day = 86_400_000_000_000

unfoldable pub api_dashboard_stats : Outside → Option Session → World → Reply
unfolding count syncs_after
api_dashboard_stats out session w = with_session session w (λ u.
    or_reply 500 (codes "Failed to load sources") (get_sources_by_user_id out.json u.user_id) w
      (λ ss w'.
        let syncs = syncs_after (w'.db.clock - w'.db.clock % day) ss w'.db in
        reply 200
          (stats (record {
            total_sources = length ss;
            active_sources = count (λ s. s.enabled) ss;
            syncs_today = syncs.0;
            failed_syncs = count (λ s. s.last_sync_status == codes "error") ss;
          }))
          (record w' { db = syncs.1 })))

-- userSourceIDs[act.SourceID]
unfoldable pub of_sources : List Source → SyncActivity → Bool
unfolding is_one_of
of_sources ss a = is_one_of a.source_id (map (λ s. s.id) ss)

-- The tracker of the engine, if it has one.
unfoldable pub api_get_activity : Outside → Option Tracker → Option Session → World → Reply
unfolding select of_sources
api_get_activity out none session w = with_session session w (λ u. reply 200 (activity [] []) w)
api_get_activity out (some tracker) session w = with_session session w (λ u.
    or_reply 500 (codes "Failed to load sources") (get_sources_by_user_id out.json u.user_id) w
      (λ ss w'.
        reply 200
          (activity (select (of_sources ss) (get_active w'.db.clock tracker))
            (select (of_sources ss) (get_recent tracker)))
          w'))

unfoldable pub api_auth_status : Option Session → World → Reply
api_auth_status none w = reply 200 not_authenticated w
api_auth_status (some u) w =
    reply 200
      (authenticated
        (record { id = u.user_id; email = u.email; name = u.name; avatar = u.picture }))
      w
