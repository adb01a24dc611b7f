-- ===== src/Web/Overflow.antt =====
-- An update with an interval whose duration overflows.
use calbridge.Common.{ℕ, ◌≤◌, ◌≡◌, refl, sym, ap, ◌∙◌, subst, Text, codes, [], none, some, arith}
use calbridge.Common.Dict.{get}
use calbridge.Store.{Source, Db, ok, read_clock, exec, affected}
use calbridge.Store.Rules.{IfOk-ok, IfOk-bind}
use calbridge.Store.Calendars.{Json}
use calbridge.Store.Sources.{get_source_by_id_for_user, update_source}
use calbridge.Scheduler.Runs.{Call, step}
use calbridge.Scheduler.Stuck.{Panics, TakesMu, update_job_interval-stuck}
use calbridge.Web.{
  World, Session, Outside, Reply, reply, panics, waits, settled, or_reply, after, with_session,
  with_body, unless,
}
use calbridge.Web.Sources.{
  SourceRequest, with_new_password, fields, changed_source, with_source, update_job,
  store_changed_source, api_update_source,
}
use calbridge.Scheduler.{
  to_duration, Job, Scheduler, Outcome, panic, blocked, ◌>>=◌, second, lock, update_job_interval,
  add_job, add_job_with_delay, remove_job, update_next_sync_at,
}
use calbridge.Scheduler
use calbridge.Scheduler.Panics.{IsSound}
use calbridge.Web.Inputs.{or_kept, validate_source_input, check_passwords, is_too_long}

-- The least number of seconds whose duration is negative.
abbrev pub overflowing : ℕ
overflowing = 9_223_372_037

to_duration_overflow : (n : ℕ) → overflowing ≤ n → n ≤ 18_446_744_073 → to_duration n ≡ 0
unfolding to_duration
to_duration_overflow n h k = ground arith

-- The request panics, and leaves the scheduler stuck: the call waits for ever.
unfoldable pub IsStuck : Call → Reply → Type 0
IsStuck c (reply status body w) = ⊥
IsStuck c (panics w) = step c w.scheduler ≡ blocked
IsStuck c waits = ⊥

after-IsStuck :
    (c : Call) (id : Text) (o : Outcome) (w : World) (k : World → Reply)
    → Panics (λ t. (get id t.jobs ≡ none) × (step c t ≡ blocked)) o
    → IsStuck c (after o w k)
unfolding IsStuck after
after-IsStuck c id (calbridge.Scheduler.ok s) w k h = elim h [ ]
after-IsStuck c id (panic s) w k h = h.1
after-IsStuck c id blocked w k h = elim h [ ]

-- The source that is updated has the interval that was given.
update_source-sync_interval :
    (json : Json) (source s : Source) (db : Db)
    → (update_source json source db).0 ≡ ok s
    → s.sync_interval ≡ source.sync_interval
unfolding update_source
update_source-sync_interval json source s db h =
    let Same = λ (x : Source). x.sync_interval ≡ source.sync_interval in
    IfOk-ok Same _ s
      (IfOk-bind Same read_clock _ db (λ now db₁.
        IfOk-bind Same (exec _) _ db₁ (λ n db₂. IfOk-bind Same (affected n) _ db₂ (λ u db₃. refl))))
      h

or_kept_given : (kept asked : ℕ) → overflowing ≤ asked → or_kept kept asked ≡ asked
unfolding or_kept
or_kept_given kept asked h = ground arith

store_changed_source-IsStuck :
    (out : Outside) (c : Call) (source s : Source) (j : Job) (w : World)
    → (update_source out.json source w.db).0 ≡ ok s
    → overflowing ≤ source.sync_interval
    → source.sync_interval ≤ 18_446_744_073
    → IsSound w.scheduler
    → get s.id w.scheduler.jobs ≡ some j
    → TakesMu c
    → IsStuck c (store_changed_source out source w)
unfolding store_changed_source or_reply settled update_job
store_changed_source-IsStuck out c source s j w e least most sound job takes =
    let db' = (update_source out.json source w.db).1 in
    let zero_duration : (to_duration s.sync_interval ≡ 0) =
      ap to_duration (update_source-sync_interval out.json source s w.db e)
      ∙ to_duration_overflow source.sync_interval least most in
    subst
      (λ r. IsStuck c (settled 500 (codes "Failed to update source") (r, db') w (update_job out)))
      (sym e)
      (after-IsStuck c s.id _ _ _ (
        subst
          (λ d.
            Panics (λ t. (get s.id t.jobs ≡ none) × (step c t ≡ blocked))
              (update_job_interval s.id d db'.clock w.scheduler))
          (sym zero_duration)
          (update_job_interval-stuck s.id j db'.clock c w.scheduler sound job takes)))

-- In a sound state, where the source is found and stored, an update of it without new passwords that asks
-- for an interval of 9223372037 to 18446744073 seconds overflows the duration, where the source has a job:
-- the handler panics while it holds the mutex of the scheduler, and every later call that takes the mutex,
-- for a source of any user, waits for ever.
pub api_update_source-IsStuck :
    (out : Outside) (c : Call) (u : Session) (id : Text) (r : SourceRequest) (s s' : Source)
    (db : Db) (j : Job) (w : World)
    → get_source_by_id_for_user out.json id u.user_id w.db ≡ (ok s, db)
    → validate_source_input (fields r) ≡ none
    → r.source_password ≡ []
    → r.dest_password ≡ []
    → (update_source out.json (changed_source r s s.source_password s.dest_password) db).0 ≡ ok s'
    → overflowing ≤ r.sync_interval
    → r.sync_interval ≤ 18_446_744_073
    → IsSound w.scheduler
    → get s'.id w.scheduler.jobs ≡ some j
    → TakesMu c
    → IsStuck c (api_update_source out (some u) id (some r) w)
unfolding api_update_source with_source with_session with_body or_reply settled unless
    with_new_password check_passwords is_too_long changed_source
api_update_source-IsStuck out c u id r s s' db j w found valid no_source no_dest stored least most
      sound job takes =
    let asked = or_kept_given s.sync_interval r.sync_interval least in
    rw (found, valid, no_source, no_dest)
      (store_changed_source-IsStuck out c (changed_source r s s.source_password s.dest_password) s'
        j (record w { db = db }) stored (subst (λ n. overflowing ≤ n) (sym asked) least)
        (subst (λ n. n ≤ 18_446_744_073) (sym asked) most) sound job takes)
